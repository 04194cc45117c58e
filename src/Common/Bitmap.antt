-- ===== src/Common/Bitmap.antt =====
-- The bitmaps of common/common.go: a bit that is read after one was written.
use Prim.Native.Nat.{bit_and-bitwise}
use go_iden3_core.Prelude.{
  bit_and, ℕ, zero, suc, ◌-◌, ◌/◌, ◌%◌, ◌^◌, ◌<◌, bit_or, ◌≡◌, refl, Bool, true, false, ◌&&◌, [],
  ◌∷◌, arith, ltb, ◌==◌, if◌then◌else◌, lt→ltb, ◌≤◌, length, get_elem?, set, get_elem?-set_self,
  get_elem?-set_ne, get_elem?-lt, length-set, ℕ_discrete, replicate, some, length-replicate,
}
use go_iden3_core.Result.{ok, panic, ◌>>=◌}
use go_iden3_core.Common.{Bytes, IsBytes, bit_at, set_bit_big_endian, test_bit_big_endian}

-- A test of every number below a bound, from the bound down.
unfoldable pub every_below : (bound : ℕ) (test : ℕ → Bool) → Bool
every_below zero test = true
every_below (suc last) test = if test last then every_below last test else false

pub every_below-at :
    (bound : ℕ) (test : ℕ → Bool) (i : ℕ)
    → every_below bound test ≡ true
    → i < bound
    → test i ≡ true
unfolding every_below
every_below-at zero test i all small = elim small [ ]
every_below-at (suc last) test i all small = ground (arith, every_below-at last test i)

-- Equality of Booleans as a test.
unfoldable pub same : Bool → Bool → Bool
same true b = b
same false true = false
same false false = true

pub same→eq : (a b : Bool) → same a b ≡ true → a ≡ b
unfolding same
same→eq a b h = ground arith

abbrev bit_law : ℕ → ℕ → ℕ → Bool
bit_law i j b =
    same (bit_at (bit_or b (2 ^ i)) j) (if i == j then true else bit_at b j)
    && ltb (bit_or b (2 ^ i)) 256

abbrev bit_table : Bool
bit_table = every_below 8 (λ i. every_below 8 (λ j. every_below 256 (bit_law i j)))

bit_table_lem : bit_table ≡ true
unfolding every_below same bit_at
bit_table_lem = refl

bit_law_lem : (b i j : ℕ) → b < 256 → i < 8 → j < 8 → bit_law i j b ≡ true
bit_law_lem b i j hb hi hj =
    every_below-at 256 (bit_law i j) b
      (every_below-at 8 (λ j. every_below 256 (bit_law i j)) j
        (every_below-at 8 (λ i. every_below 8 (λ j. every_below 256 (bit_law i j))) i bit_table_lem
          hi)
        hj)
      hb

-- Writing bit `i` of a byte sets it, keeps the others, and leaves a byte.
pub bit_at-bit_or :
    (b i j : ℕ)
    → b < 256
    → i < 8
    → j < 8
    → bit_at (bit_or b (2 ^ i)) j ≡ (if i == j then true else bit_at b j)
bit_at-bit_or b i j hb hi hj = same→eq _ _ (ground (arith, bit_law_lem b i j hb hi hj))

pub bit_or-lt : (b i : ℕ) → b < 256 → i < 8 → bit_or b (2 ^ i) < 256
bit_or-lt b i hb hi = ground (arith, bit_law_lem b i i hb hi hi)

All-set : (xs : Bytes) (i v : ℕ) → IsBytes xs → v < 256 → IsBytes (set xs i v)
All-set [] i v h k = tt
All-set (x ∷ xs) zero v h k = (k, h.1)
All-set (x ∷ xs) (suc i) v h k = (h.0, All-set xs i v h.1 k)

All-get_elem? : (xs : Bytes) (i b : ℕ) → IsBytes xs → get_elem? xs i ≡ some b → b < 256
All-get_elem? [] i b h e = cc
All-get_elem? (x ∷ xs) zero b h e = ground arith
All-get_elem? (x ∷ xs) (suc i) b h e = All-get_elem? xs i b h.1 e

module _ (bitmap : Bytes) (n : ℕ) (bytes : IsBytes bitmap) (room : n / 8 < length bitmap) where
  -- The byte that holds bit `n`.
  byte_of : (b : ℕ) × (get_elem? bitmap (length bitmap - n / 8 - 1) ≡ some b) × (b < 256)
  byte_of =
      let (b, e) = get_elem?-lt bitmap (length bitmap - n / 8 - 1) (omega arith) in
      (b, e, All-get_elem? bitmap _ b bytes e)

  -- Within the bitmap both functions return.
  pub test_bit_big_endian_total : (v : Bool) × (test_bit_big_endian bitmap n ≡ ok v)
  unfolding test_bit_big_endian
  test_bit_big_endian_total = let (b, e, _) = byte_of in (bit_at b (n % 8), rw (lt→ltb _ _ room, e))

  pub set_bit_big_endian_total :
      (c : Bytes) × (set_bit_big_endian bitmap n ≡ ok c) × (length c ≡ length bitmap) × IsBytes c
  unfolding set_bit_big_endian
  set_bit_big_endian_total =
      let (b, e, hb) = byte_of in
      (
        set bitmap (length bitmap - n / 8 - 1) (bit_or b (2 ^ (n % 8))),
        rw (lt→ltb _ _ room, e),
        length-set bitmap _ _,
        All-set bitmap _ _ bytes (bit_or-lt b (n % 8) hb (omega arith)),
      )

  -- In a bitmap of bytes that has both bits, after SetBitBigEndian of one bit TestBitBigEndian
  -- reads that bit as set and every other as before.
  pub test_bit_big_endian-set_bit_big_endian :
      (m : ℕ)
      → m / 8 < length bitmap
      → (set_bit_big_endian bitmap n >>= λ c. test_bit_big_endian c m)
        ≡ (if n == m then ok true else test_bit_big_endian bitmap m)
  unfolding test_bit_big_endian set_bit_big_endian
  test_bit_big_endian-set_bit_big_endian m room_m =
      let (b, e, hb) = byte_of in
      elim (ℕ_discrete (n / 8) (m / 8)) [
        | yes same_byte ↦
            rw (lt→ltb _ _ room, e, length-set, lt→ltb _ _ room_m)
              (rw (← same_byte) (
                rw
                  (
                    e,
                    get_elem?-set_self bitmap (length bitmap - n / 8 - 1) (bit_or b (2 ^ (n % 8)))
                        (omega arith),
                  )
                  (rw (bit_at-bit_or b (n % 8) (m % 8) hb (omega arith) (omega arith))
                    (ground arith))))
        | no other ↦
            rw (lt→ltb _ _ room, e, length-set, lt→ltb _ _ room_m)
              (rw
                (get_elem?-set_ne bitmap (length bitmap - n / 8 - 1) (length bitmap - m / 8 - 1)
                  (bit_or b (2 ^ (n % 8))) (omega arith))
                (ground arith))
      ]

-- Beyond the bitmap both functions panic.
pub bit_big_endian-panic :
    (bitmap : Bytes) (n : ℕ)
    → length bitmap ≤ n / 8
    → (test_bit_big_endian bitmap n ≡ panic) × (set_bit_big_endian bitmap n ≡ panic)
unfolding test_bit_big_endian set_bit_big_endian
bit_big_endian-panic bitmap n h = ground arith

get_elem?-replicate : (k i : ℕ) → i < k → get_elem? (replicate {A = ℕ} k 0) i ≡ some 0
get_elem?-replicate zero i h = elim h [ ]
get_elem?-replicate (suc k) zero h = refl
get_elem?-replicate (suc k) (suc i) h = get_elem?-replicate k i (omega arith)

zero-bit_and : (b : ℕ) → bit_and 0 b ≡ 0
zero-bit_and b = bit_and-bitwise 0 b

-- A fresh bitmap has no bit.
pub test_bit_big_endian-replicate :
    (k n : ℕ) → n / 8 < k → test_bit_big_endian (replicate k 0) n ≡ ok false
unfolding test_bit_big_endian
test_bit_big_endian-replicate k n h =
    rw
      (
        length-replicate {A = ℕ} k 0,
        lt→ltb _ _ h,
        get_elem?-replicate k (k - n / 8 - 1) (omega arith),
        zero-bit_and (2 ^ (n % 8)),
      )
      refl
