-- ===== src/MerkleTree/Elem.antt =====
-- The elements, hashes and entries of merkletree/merkletree.go and merkletree/utils.go. An ElemBytes
-- and a Hash are lists of 32 bytes, Data is a list of 8 of them. The caches of an Entry, which is
-- not modified once it is made, are left out.
pub mod Shape
pub mod Path
use go_iden3_core.Prelude.{
  ℕ, zero, suc, ◌*◌, ◌+◌, ◌<◌, ◌≡◌, Bool, true, false, ◌&&◌, List, [], ◌∷◌, ◌++◌, map, ltb, ◌==◌,
  if◌then◌else◌, length, get_elem?, set, take, drop, replicate, All, bytes_eq,
}
use go_iden3_core.Result.{
  Result, ok, err, panic, hash_input_too_long, invalid_length, ◌>>=◌, or_panic,
}
use go_iden3_core.Common.{Bytes, IsBytes, swap_endianness, test_bit}
use go_iden3_core.BigInt.{big_bytes, set_bytes, copy_into, little_endian}
use go_iden3_core.Crypto.{Crypto, poseidon_t}

abbrev pub elem_bytes_len : ℕ
elem_bytes_len = 32

abbrev pub index_len : ℕ
index_len = 4

abbrev pub data_len : ℕ
data_len = 8

abbrev pub ElemBytes : Type 0
ElemBytes = Bytes

abbrev pub Hash : Type 0
Hash = ElemBytes

abbrev pub Data : Type 0
Data = List ElemBytes

-- The shapes that the array types of the source give.
abbrev pub IsElem : ElemBytes → Type 0
IsElem e = (length e ≡ elem_bytes_len) × IsBytes e

abbrev pub IsData : Data → Type 0
IsData d = (length d ≡ data_len) × All IsElem d

abbrev pub hash_zero : Hash
hash_zero = replicate elem_bytes_len 0

unfoldable pub new_elem_bytes_from_big_int : ℕ → ElemBytes
new_elem_bytes_from_big_int v =
    copy_into (replicate elem_bytes_len 0) (swap_endianness (big_bytes v))

unfoldable pub big_int : ElemBytes → ℕ
big_int e = set_bytes (swap_endianness e)

-- A loop that copies each 32-byte array behind the one before it.
unfoldable pub elems_bytes_to_bytes : Data → Bytes
elems_bytes_to_bytes [] = []
elems_bytes_to_bytes (e ∷ es) = e ++ elems_bytes_to_bytes es

-- `n` elements read off the front of `b`.
unfoldable pub elems_from_bytes : ℕ → Bytes → Data
elems_from_bytes zero b = []
elems_from_bytes (suc n) b = take elem_bytes_len b ∷ elems_from_bytes n (drop elem_bytes_len b)

unfoldable pub new_data_from_bytes : Bytes → Data
unfolding elems_from_bytes
new_data_from_bytes b = elems_from_bytes data_len b

pub record Entry : Type 0 where
  pub elems : Data

unfoldable pub index : Entry → Data
index e = take index_len e.elems

unfoldable pub value : Entry → Data
value e = drop index_len e.elems

-- `d[i]`, at an index within the array.
unfoldable pub elem_at : Data → ℕ → Result ElemBytes
elem_at d i = or_panic (get_elem? d i)

-- Data.Equal
unfoldable pub data_equal : Data → Data → Result Bool
data_equal d1 d2 = do
  a0 ← elem_at d1 0
  b0 ← elem_at d2 0
  a1 ← elem_at d1 1
  b1 ← elem_at d2 1
  a2 ← elem_at d1 2
  b2 ← elem_at d2 2
  a3 ← elem_at d1 3
  b3 ← elem_at d2 3
  ok (bytes_eq a0 b0 && bytes_eq a1 b1 && bytes_eq a2 b2 && bytes_eq a3 b3)

-- Entry.Equal
unfoldable pub entry_equal : Entry → Entry → Result Bool
entry_equal e1 e2 = data_equal e1.elems e2.elems

unfoldable pub new_entry_from_bytes : Bytes → Result Entry
new_entry_from_bytes b =
    if length b == elem_bytes_len * data_len
    then ok (record { elems = new_data_from_bytes b })
    else err invalid_length

unfoldable pub elem_bytes_to_big_ints : Data → List ℕ
elem_bytes_to_big_ints = map big_int

-- The numbers copied into an array of `poseidon.T` zeros.
unfoldable pub elem_bytes_to_poseidon_input : Data → List ℕ
unfolding elem_bytes_to_big_ints
elem_bytes_to_poseidon_input elems =
    copy_into (replicate poseidon_t 0) (elem_bytes_to_big_ints elems)

-- The binary path from the root to the leaf: the bits of the hash from `n` on, `k` of them.
bits_from : ℕ → ℕ → Hash → Result (List Bool)
bits_from zero n h = ok []
bits_from (suc k) n h = do b ← test_bit h n; p ← bits_from k (suc n) h; ok (b ∷ p)

unfoldable pub get_path : ℕ → Hash → Result (List Bool)
unfolding bits_from
get_path levels h = bits_from levels 0 h

module _ ⦃c : Crypto⦄ where
  unfoldable pub hash_elems : Data → Result Hash
  unfolding elem_bytes_to_poseidon_input
  hash_elems elems = if ltb poseidon_t (length elems) then err hash_input_too_long else do
    h ← c.poseidon_hash (elem_bytes_to_poseidon_input elems)
    ok (new_elem_bytes_from_big_int h)

  -- The key is written behind the elements; a missing key is zero.
  unfoldable pub hash_elems_key : ℕ → Data → Result Hash
  unfolding elem_bytes_to_poseidon_input
  hash_elems_key key elems = if ltb 5 (length elems) then err hash_input_too_long else do
    h ← c.poseidon_hash (set (elem_bytes_to_poseidon_input elems) (length elems) key)
    ok (new_elem_bytes_from_big_int h)

  unfoldable pub h_index : Entry → Result Hash
  h_index e = hash_elems (index e)

  unfoldable pub h_value : Entry → Result Hash
  h_value e = hash_elems (value e)

  unfoldable pub hi_hv : Entry → Result (Hash × Hash)
  hi_hv e = do hi ← h_index e; hv ← h_value e; ok (hi, hv)

  -- LeafKey
  unfoldable pub leaf_key : Hash → Hash → Result Hash
  leaf_key hi hv = hash_elems_key 1 (hi ∷ hv ∷ [])

  unfoldable pub check_entry_in_field : Entry → Bool
  check_entry_in_field e = c.check_in_field (elem_bytes_to_big_ints e.elems)
