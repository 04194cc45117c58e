-- ===== src/BigInt.antt =====
-- `Bytes` and `SetBytes` of the standard library's math/big, and the builtin `copy`, as the code
-- uses them on numbers that are not negative.
use native.Mathlib.Nat.{pow-suc}
use mathlib.Core.List.{reverse-cons, reverse-reverse}
use go_iden3_core.Prelude.{
  ℕ, zero, suc, ◌+◌, ◌*◌, ◌/◌, ◌%◌, ◌^◌, ◌≤◌, ◌<◌, ◌≡◌, refl, ap, ◌∙◌, List, [], ◌∷◌, ◌++◌, reverse,
  arith, ◌==◌, if◌then◌else◌, length, replicate, length-replicate,
}
use go_iden3_core.Common.{Bytes, IsBytes, swap_endianness}

-- The base-256 digits, the lowest first; `f` bounds their number.
digits : ℕ → ℕ → Bytes
digits zero v = []
digits (suc f) v = let rest = digits f (v / 256) in if v == 0 then [] else v % 256 ∷ rest

-- `v.Bytes()`: big endian, without leading zeros.
unfoldable pub big_bytes : ℕ → Bytes
unfolding digits
big_bytes v = reverse (digits v v)

set_bytes_from : ℕ → Bytes → ℕ
set_bytes_from acc [] = acc
set_bytes_from acc (b ∷ bs) = set_bytes_from (acc * 256 + b) bs

-- `new(big.Int).SetBytes(bs)`
unfoldable pub set_bytes : Bytes → ℕ
unfolding set_bytes_from
set_bytes bs = set_bytes_from 0 bs

-- `copy(dst, src)`: the new content of `dst`.
unfoldable pub copy_into {ℓ} : {A : Type ℓ} → List A → List A → List A
copy_into [] src = []
copy_into (d ∷ dst) [] = d ∷ dst
copy_into (d ∷ dst) (s ∷ src) = s ∷ copy_into dst src

-- The value of base-256 digits, the lowest first.
unfoldable pub value_le : Bytes → ℕ
value_le [] = 0
value_le (b ∷ bs) = b + 256 * value_le bs

set_bytes_from-append :
    (acc : ℕ) (xs : Bytes) (y : ℕ)
    → set_bytes_from acc (xs ++ y ∷ []) ≡ set_bytes_from acc xs * 256 + y
unfolding set_bytes_from
set_bytes_from-append acc [] y = refl
set_bytes_from-append acc (x ∷ xs) y = set_bytes_from-append (acc * 256 + x) xs y

pub set_bytes-reverse : (xs : Bytes) → set_bytes (reverse xs) ≡ value_le xs
unfolding set_bytes value_le
set_bytes-reverse [] = refl
set_bytes-reverse (x ∷ xs) =
    rw (reverse-cons x xs, set_bytes_from-append 0 (reverse xs) x)
      (omega (arith, set_bytes-reverse xs))

value_le-digits : (f v : ℕ) → v ≤ f → value_le (digits f v) ≡ v
unfolding value_le digits
value_le-digits zero v h = omega arith
value_le-digits (suc f) v h = ground (arith, value_le-digits f (v / 256))

value_le-copy_into :
    (n : ℕ) (xs : Bytes) → length xs ≤ n → value_le (copy_into (replicate n 0) xs) ≡ value_le xs
unfolding value_le copy_into
value_le-copy_into zero [] h = refl
value_le-copy_into zero (x ∷ xs) h = elim h [ ]
value_le-copy_into (suc n) [] h = omega (arith, zeros n)
  where
    zeros : (n : ℕ) → value_le (replicate n 0) ≡ 0
    zeros zero = refl
    zeros (suc n) = omega (arith, zeros n)
value_le-copy_into (suc n) (x ∷ xs) h = omega (arith, value_le-copy_into n xs (omega arith))

digits-IsBytes : (f v : ℕ) → IsBytes (digits f v)
unfolding digits
digits-IsBytes zero v = tt
digits-IsBytes (suc f) v = ground (arith, digits-IsBytes f (v / 256))

length-digits : (f v n : ℕ) → v < 256 ^ n → length (digits f v) ≤ n
unfolding digits
length-digits zero v n h = omega arith
length-digits (suc f) v zero h = ground arith
length-digits (suc f) v (suc n) h =
    let below : v / 256 < 256 ^ n = omega (arith, pow-suc 256 n) in
    ground (arith, length-digits f (v / 256) n below)

module _ {ℓ} {A : Type ℓ} where
  pub length-copy_into : (dst src : List A) → length (copy_into dst src) ≡ length dst
  unfolding copy_into
  length-copy_into [] src = refl
  length-copy_into (d ∷ dst) [] = refl
  length-copy_into (d ∷ dst) (s ∷ src) = ap suc (length-copy_into dst src)

  pub copy_into-full : (dst src : List A) → length dst ≡ length src → copy_into dst src ≡ src
  unfolding copy_into
  copy_into-full [] [] h = refl
  copy_into-full [] (s ∷ src) h = absurd (omega arith)
  copy_into-full (d ∷ dst) [] h = absurd (omega arith)
  copy_into-full (d ∷ dst) (s ∷ src) h = ap (◌∷◌ s) (copy_into-full dst src (omega arith))

pub copy_into-IsBytes : (dst src : Bytes) → IsBytes dst → IsBytes src → IsBytes (copy_into dst src)
unfolding copy_into
copy_into-IsBytes [] src h k = tt
copy_into-IsBytes (d ∷ dst) [] h k = h
copy_into-IsBytes (d ∷ dst) (s ∷ src) h k = (k.0, copy_into-IsBytes dst src h.1 k.1)

pub replicate-IsBytes : (n : ℕ) → IsBytes (replicate n 0)
replicate-IsBytes zero = tt
replicate-IsBytes (suc n) = (omega arith, replicate-IsBytes n)

-- The little-endian array of `n` bytes that the code builds of a number.
module _ (n v : ℕ) where
  abbrev pub little_endian : Bytes
  little_endian = copy_into (replicate n 0) (swap_endianness (big_bytes v))

  little_endian-eq : little_endian ≡ copy_into (replicate n 0) (digits v v)
  unfolding big_bytes swap_endianness
  little_endian-eq = ap (copy_into (replicate n 0)) (reverse-reverse (digits v v))

  pub length-little_endian : length little_endian ≡ n
  length-little_endian = length-copy_into (replicate n 0) _ ∙ length-replicate n 0

  pub little_endian-IsBytes : IsBytes little_endian
  little_endian-IsBytes =
      rw little_endian-eq (copy_into-IsBytes _ _ (replicate-IsBytes n) (digits-IsBytes v v))

  -- Reading the array back gives the number, if it fits.
  pub set_bytes-little_endian : v < 256 ^ n → set_bytes (swap_endianness little_endian) ≡ v
  unfolding swap_endianness
  set_bytes-little_endian h =
      set_bytes-reverse little_endian
      ∙ ap value_le little_endian-eq
      ∙ value_le-copy_into n (digits v v) (length-digits v v n h)
      ∙ value_le-digits v v (omega arith)

-- The array is determined by the number: bytes of one length with one value are equal.
pub value_le-injective :
    (xs ys : Bytes)
    → IsBytes xs
    → IsBytes ys
    → length xs ≡ length ys
    → value_le xs ≡ value_le ys
    → xs ≡ ys
unfolding value_le
value_le-injective [] [] p q l e = refl
value_le-injective [] (y ∷ ys) p q l e = absurd (omega arith)
value_le-injective (x ∷ xs) [] p q l e = absurd (omega arith)
value_le-injective (x ∷ xs) (y ∷ ys) p q l e =
    let first : x ≡ y = omega arith in
    let rest = value_le-injective xs ys p.1 q.1 (omega arith) (omega arith) in rw (first, rest)
