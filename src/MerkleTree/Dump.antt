-- ===== src/MerkleTree/Dump.antt =====
-- The walk over a tree, and its export and import, of merkletree/merkletree.go: Walk, DumpTree,
-- ImportTree, DumpClaims, ImportDumpedClaims. A walk gives the nodes that the callback is called on,
-- in order; its recursion has no bound in the source, so it takes fuel, and without fuel it panics,
-- as Go does when the stack is full. What is written goes to a buffer, which does not fail.
pub mod Serial
pub mod Walk
pub mod Import
pub mod Reopen
pub mod Lines
use go_iden3_core.Prelude.{
  ℕ, zero, suc, ◌+◌, ◌*◌, ◌≡◌, Bool, true, false, Option, none, some, List, [], ◌∷◌, ◌++◌, ltb,
  ◌==◌, if◌then◌else◌, length, take, drop,
}
use go_iden3_core.Result.{
  Error, Result, ok, err, panic, kv_too_long, eof, unexpected_eof, invalid_length, ◌>>=◌, no_err,
  and_then,
}
use go_iden3_core.Common.{Bytes, uint16_to_bytes, bytes_to_uint16}
use go_iden3_core.Common.Hex.{hex_encode, hex_decode_into, trim_0x}
use go_iden3_core.BigInt.{copy_into}
use go_iden3_core.Crypto.{Crypto}
use go_iden3_core.Db.{Storage}
use go_iden3_core.MerkleTree.Elem.{
  Hash, Entry, elem_bytes_len, data_len, hash_zero, elems_bytes_to_bytes, new_data_from_bytes,
}
use go_iden3_core.MerkleTree.Nodes.{Node, middle, leaf, empty, key, value}
use go_iden3_core.MerkleTree.{MerkleTree, root_node_value, get_node, is_empty, add_entry}

-- walk
unfoldable pub walk : (Bytes → Result Bytes) → (fuel : ℕ) → Hash → Result (List Node)
walk read zero k = panic
walk read (suc fuel) k = do
  n ← get_node read k
  elim n [
    | empty ↦ ok (empty ∷ [])
    | leaf e ↦ ok (leaf e ∷ [])
    | middle l r ↦ do ls ← walk read fuel l; rs ← walk read fuel r; ok (middle l r ∷ (ls ++ rs))
  ]

-- checkKVLen and serializeKV
unfoldable pub serialize_kv : Bytes → Bytes → Result Bytes
serialize_kv k v =
    if ltb 0xff (length k)
    then err kv_too_long
    else if ltb 0xffff (length v)
    then err kv_too_long
    else ok (length k ∷ (uint16_to_bytes (length v) ++ (k ++ v)))

-- deserializeKV: a key, a value, and what is left to be read.
unfoldable pub deserialize_kv : Bytes → Result (Bytes × Bytes × Bytes)
deserialize_kv [] = err eof
deserialize_kv (a ∷ []) = err unexpected_eof
deserialize_kv (a ∷ b ∷ []) = err unexpected_eof
deserialize_kv (k_len ∷ b ∷ c ∷ rest) = do
  v_len ← bytes_to_uint16 (b ∷ c ∷ [])
  if ltb (length rest) (k_len + v_len)
      then err unexpected_eof
      else ok (take k_len rest, take v_len (drop k_len rest), drop (k_len + v_len) rest)

abbrev pub root_or : Option Hash → Hash → Hash
root_or none k = k
root_or (some r) k = r

-- `err == io.EOF`
abbrev pub is_eof : Error → Bool
is_eof eof = true
is_eof _ = false

unfoldable pub claims_of : List Node → List Bytes
claims_of [] = []
claims_of (leaf e ∷ ns) = hex_encode (elems_bytes_to_bytes e.elems) ∷ claims_of ns
claims_of (middle l r ∷ ns) = claims_of ns
claims_of (empty ∷ ns) = claims_of ns

-- The claim that ImportDumpedClaims reads from a line.
unfoldable pub parse_claim : Bytes → Result Entry
parse_claim c =
    let digits = trim_0x c in
    if length digits == 2 * elem_bytes_len * data_len
    then (do
      bs ← hex_decode_into (elem_bytes_len * data_len) digits
      ok (record { elems = new_data_from_bytes bs }))
    else err invalid_length

module _ ⦃db : Storage⦄ where
  -- Walk
  unfoldable pub walk_from : (fuel : ℕ) → MerkleTree → Option Hash → Result (List Node)
  walk_from fuel mt root_key = walk (db.get mt.storage) fuel (root_or root_key mt.root_key)

  -- The loop of ImportTree.
  unfoldable pub import_loop : (fuel : ℕ) → db.State → db.Tx → Bytes → Result db.Tx
  import_loop zero s tx bs = panic
  import_loop (suc fuel) s tx bs = elim (deserialize_kv bs) [
    | ok (k, v, rest) ↦ import_loop fuel s (db.tx_put s tx k v) rest
    | err x ↦ if is_eof x then ok tx else err x
    | panic ↦ panic
  ]

  -- ImportTree up to the commit: the transaction and the new root key.
  unfoldable pub import_root : MerkleTree → Bytes → Result (db.Tx × Hash)
  import_root mt bs = do
    tx ← db.new_tx mt.storage
    tx' ← import_loop (suc (length bs)) mt.storage tx bs
    v ← db.tx_get mt.storage tx' root_node_value
    ok (tx', copy_into hash_zero v)

  -- ImportTree; after an error the tree is as it was.
  unfoldable pub import_tree : MerkleTree → Bytes → Result MerkleTree
  import_tree mt bs = do
    (tx, k) ← import_root mt bs
    s ← db.commit mt.storage tx
    ok (record mt { storage = s; root_key = k })

  -- DumpClaims
  unfoldable pub dump_claims : (fuel : ℕ) → MerkleTree → Option Hash → Result (List Bytes)
  unfolding claims_of
  dump_claims fuel mt root_key = do ns ← walk_from fuel mt root_key; ok (claims_of ns)

module _ ⦃c : Crypto⦄ where
  -- What the callback of DumpTree writes. It goes on after an error, which is returned at the end.
  unfoldable pub dump_nodes : List Node → Result Bytes
  dump_nodes [] = ok []
  dump_nodes (n ∷ ns) =
      let rest = dump_nodes ns in
      if is_empty n
      then rest
      else do k ← no_err (key n); more ← rest; entry ← serialize_kv k (value n); ok (entry ++ more)

module _ ⦃c : Crypto⦄ ⦃db : Storage⦄ where
  -- DumpTree
  unfoldable pub dump_tree : (fuel : ℕ) → MerkleTree → Option Hash → Result Bytes
  dump_tree fuel mt root_key = do
    ns ← walk_from fuel mt root_key
    out ← dump_nodes ns
    last ← serialize_kv root_node_value (root_or root_key mt.root_key)
    ok (out ++ last)

  -- One round of ImportDumpedClaims.
  unfoldable pub import_claim : MerkleTree → Bytes → MerkleTree × Result (Unit {0})
  import_claim mt c = elim (parse_claim c) [
    | ok e ↦ add_entry mt e
    | err x ↦ (mt, err x)
    | panic ↦ (mt, panic)
  ]

  -- ImportDumpedClaims: it stops at the first error, and keeps what was added before.
  unfoldable pub import_dumped_claims : MerkleTree → List Bytes → MerkleTree × Result (Unit {0})
  unfolding and_then
  import_dumped_claims mt [] = (mt, ok tt)
  import_dumped_claims mt (c ∷ cs) =
      and_then (import_claim mt c) (λ mt'. import_dumped_claims mt' cs)
