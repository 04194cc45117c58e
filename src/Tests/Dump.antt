-- ===== src/Tests/Dump.antt =====
-- The export of a tree with one entry, and its import.
use go_iden3_core.Prelude.{◌≡◌, ◌≢◌, ◌≤◌, ◌<◌, refl, true, arith, none, [], ◌∷◌, length, map, drop}
use go_iden3_core.Result.{Result, ok, err, panic, no_err}
use go_iden3_core.Common.{Bytes, uint16_to_bytes, bytes_to_uint16}
use go_iden3_core.BigInt.{copy_into}
use go_iden3_core.Db.Memory.{MemoryStorage, KvMap, new_tx, commit}
use go_iden3_core.MerkleTree.{MerkleTree, new_merkle_tree, root_node_value}
use go_iden3_core.MerkleTree.Elem.{hash_zero}
use go_iden3_core.MerkleTree.Spec.{Tree, leaf}
use go_iden3_core.MerkleTree.AddEntry.{Holds}
use go_iden3_core.MerkleTree.Dump.{
  dump_tree, import_tree, import_root, import_loop, dump_claims, import_dumped_claims, serialize_kv,
  deserialize_kv, dump_nodes, walk, walk_from,
}
use go_iden3_core.MerkleTree.Dump.Walk.{height}
use go_iden3_core.MerkleTree.Dump.Serial.{import_loop-no_panic}
use go_iden3_core.MerkleTree.Dump.Import.{import_tree-dump_tree}
use go_iden3_core.MerkleTree.Dump.Reopen.{new_merkle_tree-import_tree}
use go_iden3_core.MerkleTree.Dump.Lines.{
  line, leaves, dump_claims-leaves, add_entries, import_dumped_claims-add_entries,
}
use go_iden3_core.Tests.Env.{mixing, in_memory, in_memory-IsStorage, entry, tree0, sha256}
use go_iden3_core.Tests.Trees.{tree1, entry-IsData}

abbrev pub tree1_shape : Tree
tree1_shape = leaf (entry 1 7)

pub tree1-Holds : Holds tree1 tree1_shape
unfolding tree1
tree1-Holds = record {
  represents = (refl, refl, entry-IsData 1 7 (omega arith) (omega arith));
  root_elem = (refl, omega arith);
}

pub in_memory_starts : (s : MemoryStorage) → (tx : KvMap) × (new_tx sha256 s ≡ ok tx)
unfolding new_tx
in_memory_starts s = ([], refl)

pub in_memory_commits :
    (s : MemoryStorage) (tx : KvMap) → (s' : MemoryStorage) × (commit sha256 s tx ≡ ok s')
unfolding commit
in_memory_commits s tx = (_, refl)

pub tree1_small : height tree1_shape < 2
unfolding height
tree1_small = omega arith

import_tree-dump_tree_example :
    (bs : Bytes) × (mt' : MerkleTree) × (dump_tree 2 tree1 none ≡ ok bs)
    × (import_tree tree0 bs ≡ ok mt')
    × Holds mt' tree1_shape
    × (mt'.root_key ≡ tree1.root_key)
import_tree-dump_tree_example =
    import_tree-dump_tree in_memory-IsStorage in_memory_starts in_memory_commits tree1 tree0
      tree1_shape 2 tree1-Holds tree1_small

import_loop-no_panic_example : import_loop 5 tree0.storage [] (1 ∷ 2 ∷ 0 ∷ 9 ∷ []) ≢ panic
import_loop-no_panic_example =
    import_loop-no_panic 5 tree0.storage [] (1 ∷ 2 ∷ 0 ∷ 9 ∷ []) (omega arith)

bytes_of : Result Bytes → Bytes
bytes_of (ok bs) = bs
bytes_of (err x) = []
bytes_of panic = []

tree_of : Result MerkleTree → MerkleTree
tree_of (ok mt) = mt
tree_of (err x) = tree0
tree_of panic = tree0

-- The bytes that a tree with one entry is written to.
unfoldable dumped : Bytes
unfolding tree1 dump_tree walk_from walk dump_nodes serialize_kv no_err uint16_to_bytes bytes_of
dumped = bytes_of (dump_tree 2 tree1 none)

unfoldable imported : MerkleTree
unfolding dumped tree_of import_tree import_root import_loop deserialize_kv bytes_to_uint16
imported = tree_of (import_tree tree0 dumped)

imported_eq : import_tree tree0 dumped ≡ ok imported
unfolding imported
imported_eq = refl

imported_root : in_memory.get imported.storage root_node_value ≡ ok imported.root_key
unfolding imported
imported_root = refl

imported_length : 2 ≤ length imported.root_key
unfolding imported
imported_length = omega arith

new_merkle_tree-import_tree_example :
    (imported.root_key ≡ copy_into hash_zero imported.root_key)
    × (new_merkle_tree imported.storage 8
        ≡ ok (record {
          storage = imported.storage;
          root_key = copy_into hash_zero (drop 1 imported.root_key);
          max_levels = 8;
          writable = true;
        }))
new_merkle_tree-import_tree_example =
    new_merkle_tree-import_tree in_memory-IsStorage tree0 imported dumped imported.root_key 8
      imported_eq imported_root imported_length

dump_claims-leaves_example : dump_claims 2 tree1 none ≡ ok (map line (leaves tree1_shape))
dump_claims-leaves_example = dump_claims-leaves tree1 tree1_shape 2 tree1-Holds tree1_small

import_dumped_claims-add_entries_example :
    import_dumped_claims tree0 (map line (entry 1 7 ∷ entry 2 8 ∷ []))
    ≡ add_entries tree0 (entry 1 7 ∷ entry 2 8 ∷ [])
import_dumped_claims-add_entries_example =
    import_dumped_claims-add_entries tree0 (entry 1 7 ∷ entry 2 8 ∷ []) (
      entry-IsData 1 7 (omega arith) (omega arith),
      (entry-IsData 2 8 (omega arith) (omega arith), tt),
    )
