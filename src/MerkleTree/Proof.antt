-- ===== src/MerkleTree/Proof.antt =====
-- The Merkle proofs of merkletree/merkletree.go: NewProofFromBytes, Proof.Bytes, SiblingsFromProof,
-- GenerateProof, RootFromProof and VerifyProof. `uint` depths are numbers; a level is an index into
-- a bitmap of 30 bytes, so that a depth beyond 240 panics.

pub mod Sibling
pub mod RoundTrip
pub mod Verifies
pub mod Completeness
use go_iden3_core.Prelude.{
  ℕ, zero, suc, ◌+◌, ◌*◌, ◌%◌, ◌-◌, bit_and, Bool, true, false, not, ◌&&◌, Option, none, some, List,
  [], ◌∷◌, ◌++◌, map, ltb, ◌==◌, if◌then◌else◌, length, get_elem?, take, drop, replicate, bytes_eq,
  All,
}
use go_iden3_core.Result.{
  Result, ok, err, panic, invalid_proof_bytes, entry_index_not_found, same_index_as_node_aux, ◌>>=◌,
  or_panic,
}
use go_iden3_core.Common.{Bytes, IsBytes, set_bit_big_endian, test_bit_big_endian}
use go_iden3_core.Crypto.{Crypto}
use go_iden3_core.Db.{Storage}
use go_iden3_core.MerkleTree.Elem.{
  Hash, elem_bytes_len, hash_zero, IsElem, elems_bytes_to_bytes, big_int, get_path, h_index, hi_hv,
  leaf_key,
}
use go_iden3_core.MerkleTree.Nodes.{middle, leaf, empty, key}
use go_iden3_core.MerkleTree.{MerkleTree, get_node, child, middle_at, bit_of}

pub record NodeAux : Type 0 where
  pub h_index : Hash
  pub h_value : Hash

pub record Proof : Type 0 where
  pub existence : Bool
  pub depth : ℕ
  pub notempties : Bytes
  pub siblings : List Hash
  pub node_aux : Option NodeAux

-- `proofFlagsLen`
abbrev pub proof_flags_len : ℕ
proof_flags_len = 2

abbrev pub notempties_len : ℕ
notempties_len = 30

-- The loop of NewProofFromBytes over the bits from `i` on, `k` of them. `rest` is what is left of
-- `siblingBytes` behind the siblings that are read; it is returned with the siblings.
unfoldable pub read_siblings : (k i : ℕ) → Bytes → (rest : Bytes) → Result (List Hash × Bytes)
read_siblings zero i ne rest = ok ([], rest)
read_siblings (suc k) i ne rest =
    let next = read_siblings k (suc i) ne (drop elem_bytes_len rest) in
    let skip = read_siblings k (suc i) ne rest in
    do
      b ← test_bit_big_endian ne i
      if b
          then (if ltb (length rest) elem_bytes_len
              then err invalid_proof_bytes
              else (do (sibs, end) ← next; ok (take elem_bytes_len rest ∷ sibs, end)))
          else skip

read_aux : Bool → Bytes → Result (Option NodeAux)
read_aux false rest = ok none
read_aux true rest =
    if length rest == 2 * elem_bytes_len
    then ok (
        some (record {
          h_index = take elem_bytes_len rest;
          h_value = take elem_bytes_len (drop elem_bytes_len rest);
        }))
    else err invalid_proof_bytes

-- NewProofFromBytes
unfoldable pub new_proof_from_bytes : Bytes → Result Proof
unfolding read_aux
new_proof_from_bytes bs = if ltb (length bs) elem_bytes_len then err invalid_proof_bytes else do
  flags ← or_panic (get_elem? bs 0)
  depth ← or_panic (get_elem? bs 1)
  let existence = bit_and flags 0x01 == 0
  let ne = take notempties_len (drop proof_flags_len bs)
  (sibs, rest) ← read_siblings depth 0 ne (drop elem_bytes_len bs)
  aux ← read_aux (not existence && not (bit_and flags 0x02 == 0)) rest
  ok (record {
    existence = existence;
    depth = depth;
    notempties = ne;
    siblings = sibs;
    node_aux = aux;
  })

aux_bytes : Option NodeAux → Bytes
aux_bytes none = []
aux_bytes (some a) = a.h_index ++ a.h_value

-- The bits 0x01 and 0x02 that are set in a zero byte.
flag_byte : Bool → Option NodeAux → ℕ
flag_byte true none = 0
flag_byte false none = 1
flag_byte true (some _) = 2
flag_byte false (some _) = 3

-- Proof.Bytes: the parts stand one behind the other in a slice of their total length.
unfoldable pub bytes : Proof → Bytes
unfolding aux_bytes flag_byte
bytes p =
    flag_byte p.existence p.node_aux
    ∷ p.depth % 256
    ∷ (p.notempties ++ (elems_bytes_to_bytes p.siblings ++ aux_bytes p.node_aux))

-- The loop of SiblingsFromProof; `sibs` is what is left of the non-empty siblings.
fill_siblings : (k lvl : ℕ) → Bytes → List Hash → Result (List Hash)
fill_siblings zero lvl ne sibs = ok []
fill_siblings (suc k) lvl ne [] = do
  b ← test_bit_big_endian ne lvl
  more ← fill_siblings k (suc lvl) ne []
  if b then panic else ok (hash_zero ∷ more)
fill_siblings (suc k) lvl ne (s ∷ sibs) = do
  b ← test_bit_big_endian ne lvl
  more ← fill_siblings k (suc lvl) ne (if b then sibs else s ∷ sibs)
  ok ((if b then s else hash_zero) ∷ more)

-- SiblingsFromProof, AllSiblings
unfoldable pub siblings_from_proof : Proof → Result (List Hash)
unfolding fill_siblings
siblings_from_proof p = fill_siblings p.depth 0 p.notempties p.siblings

-- AllSiblingsCircom: padded to `levels`, one more for circom, and as numbers.
unfoldable pub all_siblings_circom : Proof → ℕ → Result (List ℕ)
all_siblings_circom p levels = do
  sibs ← siblings_from_proof p
  ok (map big_int ((sibs ++ replicate (levels - length sibs) hash_zero) ++ hash_zero ∷ []))

-- A sibling that is not empty is noted in the bitmap and appended.
unfoldable pub note_sibling : Hash → ℕ → Bytes → List Hash → Result (Bytes × List Hash)
note_sibling sibling lvl ne sibs =
    if bytes_eq sibling hash_zero
    then ok (ne, sibs)
    else do ne' ← set_bit_big_endian ne lvl; ok (ne', sibs ++ sibling ∷ [])

module _ ⦃c : Crypto⦄ ⦃db : Storage⦄ where
  -- The loop of GenerateProof at depth `lvl`, with `rest` levels left.
  unfoldable pub generate_loop :
      db.State
      → Hash
      → (rest lvl : ℕ) → List Bool
      → (next_key : Hash) → (ne : Bytes) → (sibs : List Hash) → Result Proof
  generate_loop s hi zero lvl path next_key ne sibs = err entry_index_not_found
  generate_loop s hi (suc rest) lvl path next_key ne sibs = do
    n ← get_node (db.get s) next_key
    elim n [
      | empty ↦ ok (record {
        existence = false;
        depth = lvl;
        notempties = ne;
        siblings = sibs;
        node_aux = none;
      })
      | leaf e ↦ do
        (nhi, nhv) ← hi_hv e
        let found = bytes_eq hi nhi
        ok (record {
          existence = found;
          depth = lvl;
          notempties = ne;
          siblings = sibs;
          node_aux = if found then none else some (record { h_index = nhi; h_value = nhv });
        })
      | middle l r ↦ do
        b ← bit_of path lvl
        (ne', sibs') ← note_sibling (child b r l) lvl ne sibs
        generate_loop s hi rest (suc lvl) path (child b l r) ne' sibs'
    ]

  root_or : Option Hash → Hash → Hash
  root_or none k = k
  root_or (some r) k = r

  -- GenerateProof
  unfoldable pub generate_proof : MerkleTree → Hash → Option Hash → Result Proof
  unfolding root_or
  generate_proof mt hi root_key = do
    path ← get_path mt.max_levels hi
    generate_loop mt.storage hi mt.max_levels 0 path (root_or root_key mt.root_key)
        (replicate notempties_len 0) []

-- The sibling of a level, and how many of the siblings are left below it: `Siblings[sibIdx]` with
-- `sibIdx` one less than that number.
unfoldable pub next_sibling : Bool → List Hash → ℕ → Result (Hash × ℕ)
next_sibling false sibs left = ok (hash_zero, left)
next_sibling true sibs zero = panic
next_sibling true sibs (suc left) = do s ← or_panic (get_elem? sibs left); ok (s, left)

module _ ⦃c : Crypto⦄ where
  -- The loop of RootFromProof from level `n - 1` down.
  unfoldable pub climb :
      (n : ℕ) → List Bool → Bytes → List Hash → (left : ℕ) → (mid : Hash) → Result Hash
  climb zero path ne sibs left mid = ok mid
  climb (suc lvl) path ne sibs left mid = do
    bit ← test_bit_big_endian ne lvl
    (sibling, left') ← next_sibling bit sibs left
    b ← bit_of path lvl
    mid' ← key (middle_at b mid sibling)
    climb lvl path ne sibs left' mid'

  -- The key that RootFromProof starts from.
  unfoldable pub start_key : (existence : Bool) → Option NodeAux → Hash → Hash → Result Hash
  start_key true aux hi hv = leaf_key hi hv
  start_key false none hi hv = ok hash_zero
  start_key false (some a) hi hv =
      if bytes_eq hi a.h_index then err same_index_as_node_aux else leaf_key a.h_index a.h_value

  -- RootFromProof
  unfoldable pub root_from_proof : Proof → Hash → Hash → Result Hash
  unfolding start_key
  root_from_proof p hi hv = do
    mid ← start_key p.existence p.node_aux hi hv
    path ← get_path p.depth hi
    climb p.depth path p.notempties p.siblings (length p.siblings) mid

  verdict : Hash → Result Hash → Result Bool
  verdict root (ok r) = ok (bytes_eq root r)
  verdict root (err _) = ok false
  verdict root panic = panic

  -- VerifyProof
  unfoldable pub verify_proof : Hash → Proof → Hash → Hash → Result Bool
  unfolding verdict
  verify_proof root p hi hv = verdict root (root_from_proof p hi hv)
