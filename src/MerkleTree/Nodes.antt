-- ===== src/MerkleTree/Nodes.antt =====
-- merkletree/node.go: nodes, their keys, and the bytes that the storage holds. A node made by the
-- code is of one of three types; the bytes of another type are refused when they are parsed.
pub mod RoundTrip
use go_iden3_core.Prelude.{
  ℕ, zero, suc, ◌*◌, ◌+◌, ◌≡◌, List, [], ◌∷◌, ◌++◌, ◌==◌, if◌then◌else◌, length, take, drop,
}
use go_iden3_core.Result.{Result, ok, err, node_data_bad_size, invalid_node_found, ◌>>=◌}
use go_iden3_core.Common.{Bytes}
use go_iden3_core.Crypto.{Crypto}
use go_iden3_core.MerkleTree.Elem.{
  Hash, Entry, IsElem, IsData, elem_bytes_len, data_len, hash_zero, elems_bytes_to_bytes,
  elems_from_bytes, hash_elems, hi_hv, leaf_key,
}

pub data Node : Type 0 where
  middle : Hash → Hash → Node
  leaf : Entry → Node
  empty : Node

abbrev pub node_type_middle : ℕ
node_type_middle = 0

abbrev pub node_type_leaf : ℕ
node_type_leaf = 1

abbrev pub node_type_empty : ℕ
node_type_empty = 2

abbrev pub db_entry_type_root : ℕ
db_entry_type_root = 3

abbrev pub IsNode : Node → Type 0
IsNode (middle l r) = IsElem l × IsElem r
IsNode (leaf e) = IsData e.elems
IsNode empty = Unit

middle_from_bytes : Bytes → Result Node
middle_from_bytes b =
    if length b == 2 * elem_bytes_len
    then ok (middle (take elem_bytes_len b) (take elem_bytes_len (drop elem_bytes_len b)))
    else err node_data_bad_size

leaf_from_bytes : Bytes → Result Node
leaf_from_bytes b =
    if length b == data_len * elem_bytes_len
    then ok (leaf (record { elems = elems_from_bytes data_len b }))
    else err node_data_bad_size

unfoldable pub new_node_from_bytes : Bytes → Result Node
unfolding middle_from_bytes leaf_from_bytes
new_node_from_bytes [] = err node_data_bad_size
new_node_from_bytes (t ∷ b) =
    if t == node_type_middle
    then middle_from_bytes b
    else if t == node_type_leaf
    then leaf_from_bytes b
    else if t == node_type_empty
    then ok empty
    else err invalid_node_found

-- Node.Value
unfoldable pub value : Node → Bytes
value (middle l r) = node_type_middle ∷ l ++ r
value (leaf e) = node_type_leaf ∷ elems_bytes_to_bytes e.elems
value empty = []

module _ ⦃c : Crypto⦄ where
  -- Node.Key; the type is no part of what is hashed.
  unfoldable pub key : Node → Result Hash
  key (middle l r) = hash_elems (l ∷ r ∷ [])
  key (leaf e) = do (hi, hv) ← hi_hv e; leaf_key hi hv
  key empty = ok hash_zero
