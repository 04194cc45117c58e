-- ===== src/MerkleTree/Elem/Shape.antt =====
-- The arrays that the operations on elements build have the lengths of their types, and what is
-- written into one is read back.
use go_iden3_core.Prelude.{
  ℕ, ◌*◌, ◌<◌, ◌^◌, ◌≡◌, ◌≢◌, refl, sym, ap, ◌∙◌, List, [], ◌∷◌, arith, ltb, Bool-cases, inl, inr,
  length, set, All, length-append, take-append_of_length, drop-append_of_length, All-append,
}
use go_iden3_core.Result.{Result, ok, err, panic, ◌>>=◌}
use go_iden3_core.Common.{swap_endianness, IsByte, IsBytes}
use go_iden3_core.BigInt.{
  value_le, set_bytes-reverse, length-little_endian, little_endian-IsBytes, set_bytes-little_endian,
}
use go_iden3_core.Crypto.{Crypto, IsHash, poseidon_t}
use go_iden3_core.MerkleTree.Elem.{
  Hash, Data, IsElem, hash_zero, big_int, new_elem_bytes_from_big_int, elems_bytes_to_bytes,
  elems_from_bytes, hash_elems, hash_elems_key, elem_bytes_to_poseidon_input,
}

pub new_elem_bytes_from_big_int-IsElem : (v : ℕ) → IsElem (new_elem_bytes_from_big_int v)
unfolding new_elem_bytes_from_big_int
new_elem_bytes_from_big_int-IsElem v = (length-little_endian 32 v, little_endian-IsBytes 32 v)

-- A number below 256^32 that NewElemBytesFromBigInt writes into an element is what BigInt reads
-- from it.
pub big_int-new_elem_bytes_from_big_int :
    (v : ℕ) → v < 256 ^ 32 → big_int (new_elem_bytes_from_big_int v) ≡ v
unfolding new_elem_bytes_from_big_int big_int
big_int-new_elem_bytes_from_big_int v h = set_bytes-little_endian 32 v h

big_int-hash_zero : big_int hash_zero ≡ 0
unfolding big_int swap_endianness value_le
big_int-hash_zero = set_bytes-reverse hash_zero

pub new_elem_bytes_from_big_int-ne-hash_zero :
    (v : ℕ) → 0 < v → v < 256 ^ 32 → new_elem_bytes_from_big_int v ≢ hash_zero
new_elem_bytes_from_big_int-ne-hash_zero v pos h e =
    absurd (omega (arith, big_int-new_elem_bytes_from_big_int v h, ap big_int e, big_int-hash_zero))

-- Elements written one behind the other are read off again.
pub elems_from_bytes-elems_bytes_to_bytes :
    (d : Data) → All IsElem d → elems_from_bytes (length d) (elems_bytes_to_bytes d) ≡ d
unfolding elems_from_bytes elems_bytes_to_bytes
elems_from_bytes-elems_bytes_to_bytes [] h = refl
elems_from_bytes-elems_bytes_to_bytes (e ∷ es) h =
    rw
      (
        take-append_of_length 32 e (elems_bytes_to_bytes es) h.0.0,
        drop-append_of_length 32 e (elems_bytes_to_bytes es) h.0.0,
        elems_from_bytes-elems_bytes_to_bytes es h.1,
      )
      refl

pub length-elems_bytes_to_bytes :
    (d : Data) → All IsElem d → length (elems_bytes_to_bytes d) ≡ length d * 32
unfolding elems_bytes_to_bytes
length-elems_bytes_to_bytes [] h = refl
length-elems_bytes_to_bytes (e ∷ es) h =
    omega
      (arith, length-append e (elems_bytes_to_bytes es), length-elems_bytes_to_bytes es h.1, h.0.0)

pub elems_bytes_to_bytes-IsBytes : (d : Data) → All IsElem d → IsBytes (elems_bytes_to_bytes d)
unfolding elems_bytes_to_bytes
elems_bytes_to_bytes-IsBytes [] h = tt
elems_bytes_to_bytes-IsBytes (e ∷ es) h =
    All-append IsByte e (elems_bytes_to_bytes es) h.0.1 (elems_bytes_to_bytes-IsBytes es h.1)

hashed :
    (r : Result ℕ) {h : Hash}
    → (r >>= λ v. ok (new_elem_bytes_from_big_int v)) ≡ ok h
    → (v : ℕ) × (r ≡ ok v) × (h ≡ new_elem_bytes_from_big_int v)
hashed (ok v) e = (v, refl, cc)
hashed (err x) e = cc
hashed panic e = cc

-- What is hashed to a Hash is 32 bytes, and not the hash of an empty node.
module _ ⦃c : Crypto⦄ where
  -- A hash is the element of a number that Poseidon returned.
  abbrev pub IsDigest : Hash → Type 0
  IsDigest h =
      (xs : List ℕ) × (v : ℕ) × (c.poseidon_hash xs ≡ ok v) × (h ≡ new_elem_bytes_from_big_int v)

  pub IsDigest-IsElem : {h : Hash} → IsDigest h → IsElem h
  IsDigest-IsElem (xs, v, _, e) = rw e (new_elem_bytes_from_big_int-IsElem v)

  pub IsDigest-ne-hash_zero : {h : Hash} → IsHash c → IsDigest h → h ≢ hash_zero
  IsDigest-ne-hash_zero laws (xs, v, found, e) z =
      new_elem_bytes_from_big_int-ne-hash_zero v (laws.hash_pos xs v found)
        (laws.hash-lt xs v found) (sym e ∙ z)

  pub hash_elems-IsDigest : (es : Data) {h : Hash} → hash_elems es ≡ ok h → IsDigest h
  unfolding hash_elems
  hash_elems-IsDigest es e = elim (Bool-cases (ltb poseidon_t (length es))) [
    | inl long ↦ cc (rw long at e)
    | inr short ↦
        let (v, found, eq) =
          hashed (c.poseidon_hash (elem_bytes_to_poseidon_input es)) (rw short at e) in
        (elem_bytes_to_poseidon_input es, v, found, eq)
  ]

  pub hash_elems_key-IsDigest :
      (k : ℕ) (es : Data) {h : Hash} → hash_elems_key k es ≡ ok h → IsDigest h
  unfolding hash_elems_key
  hash_elems_key-IsDigest k es e = elim (Bool-cases (ltb 5 (length es))) [
    | inl long ↦ cc (rw long at e)
    | inr short ↦
        let (v, found, eq) =
          hashed (c.poseidon_hash (set (elem_bytes_to_poseidon_input es) (length es) k))
            (rw short at e) in
        (set (elem_bytes_to_poseidon_input es) (length es) k, v, found, eq)
  ]
