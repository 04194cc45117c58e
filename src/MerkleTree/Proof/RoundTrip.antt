-- ===== src/MerkleTree/Proof/RoundTrip.antt =====
-- A proof that is serialized by Bytes is parsed back by NewProofFromBytes.
use mathlib.Core.List.{append_assoc}
use go_iden3_core.Prelude.{
  bit_and, not, ◌&&◌, ge→ltb, Bool-cases, inl, inr, ℕ, zero, suc, ◌%◌, ◌<◌, ◌≡◌, refl, ap, ◌∙◌,
  Bool, true, false, Option, none, some, List, [], ◌∷◌, ◌++◌, arith, ltb, ◌==◌, ==_iff,
  if◌then◌else◌, length, All, take-append_of_length, drop-append_of_length, take-all, length-append,
}
use go_iden3_core.Result.{Result, ok, ◌>>=◌, >>=-eq-ok, ok-injective}
use go_iden3_core.Common.{Bytes, test_bit_big_endian}
use go_iden3_core.MerkleTree.Elem.{Hash, elems_bytes_to_bytes}
use go_iden3_core.MerkleTree.Proof.{
  Proof, NodeAux, notempties_len, read_siblings, read_aux, new_proof_from_bytes, bytes, aux_bytes,
  flag_byte,
}

-- How many of `k` bits from bit `i` on are set.
unfoldable pub count_bits : (k i : ℕ) → Bytes → Result ℕ
count_bits zero i ne = ok 0
count_bits (suc k) i ne = do
  b ← test_bit_big_endian ne i
  n ← count_bits k (suc i) ne
  ok (if b then suc n else n)

abbrev pub HasElemLen : Hash → Type 0
HasElemLen h = length h ≡ 32

abbrev pub IsAux : Bool → Option NodeAux → Type 0
IsAux existence none = Unit
IsAux existence (some a) = (existence ≡ false) × HasElemLen a.h_index × HasElemLen a.h_value

-- A proof as GenerateProof makes it: one sibling for each set bit below the depth, and a node beside
-- the path only in a proof of absence.
pub record IsWellFormed (p : Proof) : Type 0 where
  pub depth_byte : p.depth < 256
  pub bitmap : length p.notempties ≡ notempties_len
  pub counted : count_bits p.depth 0 p.notempties ≡ ok (length p.siblings)
  pub elems : All HasElemLen p.siblings
  pub aux : IsAux p.existence p.node_aux

read_siblings-set :
    (k i : ℕ) (ne : Bytes) (s : Hash) (sibs : List Hash) (rest : Bytes)
    → test_bit_big_endian ne i ≡ ok true
    → HasElemLen s
    → read_siblings k (suc i) ne (elems_bytes_to_bytes sibs ++ rest) ≡ ok (sibs, rest)
    → read_siblings (suc k) i ne (elems_bytes_to_bytes (s ∷ sibs) ++ rest) ≡ ok (s ∷ sibs, rest)
unfolding read_siblings elems_bytes_to_bytes
read_siblings-set k i ne s sibs rest bit len ih =
    let tail = elems_bytes_to_bytes sibs ++ rest in
    let short : ltb (length (s ++ tail)) 32 ≡ false =
      ge→ltb _ _ (omega (arith, length-append s tail, len)) in
    rw
      (
        bit,
        append_assoc s (elems_bytes_to_bytes sibs) rest,
        short,
        drop-append_of_length 32 s tail len,
        ih,
        take-append_of_length 32 s tail len,
      )
      refl

read_siblings-clear :
    (k i : ℕ) (ne rest : Bytes) (r : Result (List Hash × Bytes))
    → test_bit_big_endian ne i ≡ ok false
    → read_siblings k (suc i) ne rest ≡ r
    → read_siblings (suc k) i ne rest ≡ r
unfolding read_siblings
read_siblings-clear k i ne rest r bit ih = rw bit ih

-- The siblings are read back, and the bytes behind them are left.
read_siblings-elems :
    (k i : ℕ) (ne : Bytes) (sibs : List Hash) (rest : Bytes)
    → count_bits k i ne ≡ ok (length sibs)
    → All HasElemLen sibs
    → read_siblings k i ne (elems_bytes_to_bytes sibs ++ rest) ≡ ok (sibs, rest)
unfolding count_bits
read_siblings-elems zero i ne [] rest h shape = unfold read_siblings elems_bytes_to_bytes in refl
read_siblings-elems zero i ne (s ∷ sibs) rest h shape = absurd (omega (arith, ok-injective h))
read_siblings-elems (suc k) i ne [] rest h shape =
    let (b, bit, h1) = >>=-eq-ok (test_bit_big_endian ne i) _ h in
    let (n, count, h2) = >>=-eq-ok (count_bits k (suc i) ne) _ h1 in
    let clear : b ≡ false = ground (arith, ok-injective h2) in
    let none_left : n ≡ 0 = ground (arith, ok-injective h2) in
    read_siblings-clear k i ne _ _ (bit ∙ ap ok clear)
      (read_siblings-elems k (suc i) ne [] rest (count ∙ ap ok none_left) tt)
read_siblings-elems (suc k) i ne (s ∷ sibs) rest h shape =
    let (b, bit, h1) = >>=-eq-ok (test_bit_big_endian ne i) _ h in
    let (n, count, h2) = >>=-eq-ok (count_bits k (suc i) ne) _ h1 in
    elim (Bool-cases b) [
      | inl set ↦
          let left : n ≡ length sibs = ground (arith, ok-injective h2) in
          read_siblings-set k i ne s sibs rest (bit ∙ ap ok set) shape.0
            (read_siblings-elems k (suc i) ne sibs rest (count ∙ ap ok left) shape.1)
      | inr clear ↦
          let left : n ≡ suc (length sibs) = ground (arith, ok-injective h2) in
          read_siblings-clear k i ne _ _ (bit ∙ ap ok clear)
            (read_siblings-elems k (suc i) ne (s ∷ sibs) rest (count ∙ ap ok left) shape)
    ]

read_aux-aux_bytes :
    (a : NodeAux)
    → HasElemLen a.h_index
    → HasElemLen a.h_value
    → read_aux true (aux_bytes (some a)) ≡ ok (some a)
unfolding read_aux aux_bytes
read_aux-aux_bytes a hi hv =
    rw
      (
        (==_iff (length (a.h_index ++ a.h_value)) 64).1
            (omega (arith, length-append a.h_index a.h_value, hi, hv)),
        take-append_of_length 32 a.h_index a.h_value hi,
        drop-append_of_length 32 a.h_index a.h_value hi,
        take-all 32 a.h_value (omega (arith, hv)),
      )
      refl

flag_existence :
    (existence : Bool) (aux : Option NodeAux)
    → (bit_and (flag_byte existence aux) 0x01 == 0) ≡ existence
unfolding flag_byte
flag_existence true none = refl
flag_existence true (some a) = refl
flag_existence false none = refl
flag_existence false (some a) = refl

-- The flags say whether a node beside the path follows, and it is read back.
flags_aux :
    (existence : Bool) (aux : Option NodeAux)
    → IsAux existence aux
    → read_aux
        (not (bit_and (flag_byte existence aux) 0x01 == 0)
          && not (bit_and (flag_byte existence aux) 0x02 == 0))
        (aux_bytes aux)
      ≡ ok aux
unfolding flag_byte
flags_aux true none h = unfold read_aux in refl
flags_aux false none h = unfold read_aux in refl
flags_aux true (some a) h = absurd (ground (arith, h.0))
flags_aux false (some a) h = read_aux-aux_bytes a h.1 h.2

module _ (depth : ℕ) (ne : Bytes) (sibs : List Hash) where
  abbrev build : Bool → Option NodeAux → Proof
  build existence aux = record {
    existence = existence;
    depth = depth;
    notempties = ne;
    siblings = sibs;
    node_aux = aux;
  }

  -- Parsing two bytes, the bitmap, the siblings and the bytes of the node beside the path.
  parse_parts :
      (existence : Bool) (aux : Option NodeAux)
      → IsWellFormed (build existence aux)
      → new_proof_from_bytes (bytes (build existence aux)) ≡ ok (build existence aux)
  unfolding new_proof_from_bytes bytes
  parse_parts existence aux w =
      let tail = elems_bytes_to_bytes sibs ++ aux_bytes aux in
      let long : ltb (suc (suc (length (ne ++ tail)))) 32 ≡ false =
        ge→ltb _ _ (omega (arith, length-append ne tail, w.bitmap)) in
      let small : depth % 256 ≡ depth = omega (arith, w.depth_byte) in
      rw
        (
          long,
          small,
          take-append_of_length 30 ne tail w.bitmap,
          drop-append_of_length 30 ne tail w.bitmap,
          read_siblings-elems depth 0 ne sibs (aux_bytes aux) w.counted w.elems,
          flags_aux existence aux w.aux,
          flag_existence existence aux,
        )
        refl

-- NewProofFromBytes gives back the proof that Bytes serialized, if its depth is a byte, its bitmap
-- has 30 bytes and one set bit below the depth for each sibling, its hashes have 32 bytes, and it
-- has a node beside the path only if it is a proof of absence.
pub new_proof_from_bytes-bytes :
    (p : Proof) → IsWellFormed p → new_proof_from_bytes (bytes p) ≡ ok p
new_proof_from_bytes-bytes p w =
    parse_parts p.depth p.notempties p.siblings p.existence p.node_aux w
