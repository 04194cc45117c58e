-- ===== src/Tests/Trees.antt =====
-- Trees of entries: insertion, look-up and proofs.
use go_iden3_core.Prelude.{ℕ, ◌≡◌, ◌≢◌, ◌<◌, refl, ap, true, none, [], ◌∷◌, arith, bytes_eq}
use go_iden3_core.Result.{ok, err}
use go_iden3_core.Common.{test_bit, bit_at, swap_endianness}
use go_iden3_core.BigInt.{big_bytes, set_bytes, copy_into}
use go_iden3_core.Db.Memory.{get, new_tx, tx_get, tx_put, commit, map_get, map_put, put_all}
use go_iden3_core.MerkleTree.Elem.{
  Hash, IsData, index, value, h_index, h_value, hi_hv, leaf_key, hash_elems, hash_elems_key,
  get_path, big_int, elem_bytes_to_big_ints, elem_bytes_to_poseidon_input,
  new_elem_bytes_from_big_int, elems_bytes_to_bytes, elems_from_bytes, check_entry_in_field,
}
use go_iden3_core.MerkleTree.Nodes as N
use go_iden3_core.MerkleTree.{
  MerkleTree, add_entry, add_checked, new_root, commit_root, db_insert, add_leaf, add_at_leaf,
  push_leaf, add_node, put_fresh, get_node, get_data_by_index, get_data_loop,
}
use go_iden3_core.MerkleTree.Spec.{Tree, empty}
use go_iden3_core.MerkleTree.AddEntry.{
  Inserted, add_entry-insert, get_data_by_index-add_entry_self, get_data_by_index-add_entry_other,
}
use go_iden3_core.MerkleTree.Lookup.{get_data_by_index-find}
use go_iden3_core.MerkleTree.Present.{add_entry-present, entry_exists-ignores_value}
use go_iden3_core.Result.{◌>>=◌, entry_index_already_exists}
use go_iden3_core.MerkleTree.Spec.{find}
use go_iden3_core.MerkleTree.{entry_exists}
use go_iden3_core.Tests.Env.{
  mixing, mix, mixing-IsHash, in_memory, in_memory-IsStorage, entry, tree0, tree0-Holds, sha256,
}

-- The tree with one entry; to unfold it unfolds all that a run of the code calls.
unfoldable pub tree1 : MerkleTree
unfolding add_entry add_checked new_root commit_root db_insert add_leaf add_at_leaf push_leaf
    add_node put_fresh get_node get_data_by_index get_data_loop get new_tx tx_get tx_put commit
    map_get map_put put_all index value h_index h_value hi_hv leaf_key hash_elems hash_elems_key
    get_path big_int elem_bytes_to_big_ints elem_bytes_to_poseidon_input new_elem_bytes_from_big_int
    elems_bytes_to_bytes elems_from_bytes check_entry_in_field test_bit bit_at swap_endianness
    big_bytes set_bytes copy_into mix bytes_eq N.new_node_from_bytes N.value N.key
tree1 = (add_entry tree0 (entry 1 7)).0

tree1_eq : add_entry tree0 (entry 1 7) ≡ (tree1, ok tt)
unfolding tree1
tree1_eq = refl

-- The second entry parts from the first at the second level.
unfoldable pub tree2 : MerkleTree
unfolding tree1
tree2 = (add_entry tree1 (entry 2 8)).0

pub tree2_eq : add_entry tree1 (entry 2 8) ≡ (tree2, ok tt)
unfolding tree2
tree2_eq = refl

unfoldable pub hi_of : ℕ → Hash
unfolding tree1
hi_of i = new_elem_bytes_from_big_int (mix (i ∷ 0 ∷ 0 ∷ 0 ∷ 0 ∷ 0 ∷ []))

pub hi_of_1 : h_index (entry 1 7) ≡ ok (hi_of 1)
unfolding hi_of
hi_of_1 = refl

hi_of_2 : h_index (entry 2 8) ≡ ok (hi_of 2)
unfolding hi_of
hi_of_2 = refl

hi_of_ne : hi_of 1 ≢ hi_of 2
unfolding hi_of
hi_of_ne e = omega (arith, ap big_int e)

pub entry-IsData : (i v : ℕ) → i < 256 → v < 256 → IsData (entry i v).elems
entry-IsData i v hi hv = omega arith

pub tree1_Inserted : (t : Tree) × Inserted tree0 tree1 (entry 1 7) empty t
tree1_Inserted =
    add_entry-insert mixing-IsHash in_memory-IsStorage tree0 tree1 (entry 1 7) empty
      (entry-IsData 1 7 (omega arith) (omega arith)) tree0-Holds tree1_eq

pub tree2_Inserted : (t : Tree) × Inserted tree1 tree2 (entry 2 8) tree1_Inserted.0 t
tree2_Inserted =
    add_entry-insert mixing-IsHash in_memory-IsStorage tree1 tree2 (entry 2 8) tree1_Inserted.0
      (entry-IsData 2 8 (omega arith) (omega arith)) tree1_Inserted.1.holds tree2_eq

add_entry-insert_example : (t : Tree) × Inserted tree1 tree2 (entry 2 8) tree1_Inserted.0 t
add_entry-insert_example =
    add_entry-insert mixing-IsHash in_memory-IsStorage tree1 tree2 (entry 2 8) tree1_Inserted.0
      (entry-IsData 2 8 (omega arith) (omega arith)) tree1_Inserted.1.holds tree2_eq

get_data_by_index-add_entry_self_example : get_data_by_index tree2 (hi_of 2) ≡ ok (entry 2 8).elems
get_data_by_index-add_entry_self_example =
    get_data_by_index-add_entry_self mixing-IsHash in_memory-IsStorage tree1 tree2 (entry 2 8)
      tree1_Inserted.0 (hi_of 2) (entry-IsData 2 8 (omega arith) (omega arith))
      tree1_Inserted.1.holds hi_of_2 tree2_eq

pub get_data_by_index_kept : get_data_by_index tree2 (hi_of 1) ≡ get_data_by_index tree1 (hi_of 1)
get_data_by_index_kept =
    get_data_by_index-add_entry_other mixing-IsHash in_memory-IsStorage tree1 tree2 (entry 2 8)
      tree1_Inserted.0 (hi_of 2) (hi_of 1) (entry-IsData 2 8 (omega arith) (omega arith))
      tree1_Inserted.1.holds hi_of_2 tree2_eq hi_of_ne

get_data_by_index-add_entry_other_example :
    get_data_by_index tree2 (hi_of 1) ≡ get_data_by_index tree1 (hi_of 1)
get_data_by_index-add_entry_other_example =
    get_data_by_index-add_entry_other mixing-IsHash in_memory-IsStorage tree1 tree2 (entry 2 8)
      tree1_Inserted.0 (hi_of 2) (hi_of 1) (entry-IsData 2 8 (omega arith) (omega arith))
      tree1_Inserted.1.holds hi_of_2 tree2_eq hi_of_ne

get_data_by_index-find_example :
    get_data_by_index tree1 (hi_of 1)
    ≡ (get_path tree1.max_levels (hi_of 1) >>= λ p. find (hi_of 1) p tree1_Inserted.0)
get_data_by_index-find_example =
    get_data_by_index-find tree1 tree1_Inserted.0 (hi_of 1) tree1_Inserted.1.holds.represents

pub found_1 : get_data_by_index tree1 (hi_of 1) ≡ ok (entry 1 7).elems
unfolding hi_of
found_1 = refl

tree1_writable : tree1.writable ≡ true
unfolding tree1
tree1_writable = refl

tree1_field : check_entry_in_field (entry 1 9) ≡ true
unfolding check_entry_in_field
tree1_field = refl

tree1_tx : new_tx sha256 tree1.storage ≡ ok []
unfolding new_tx
tree1_tx = refl

hi_of_1_9 : h_index (entry 1 9) ≡ ok (hi_of 1)
unfolding hi_of
hi_of_1_9 = refl

same_index : index (entry 1 7) ≡ index (entry 1 9)
unfolding index
same_index = refl

-- An entry of the same index and another value is refused.
add_entry-present_example : add_entry tree1 (entry 1 9) ≡ (tree1, err entry_index_already_exists)
add_entry-present_example =
    add_entry-present tree1 (entry 1 9) tree1_Inserted.0 [] (hi_of 1) (entry 1 7).elems
      tree1_Inserted.1.holds tree1_writable tree1_field tree1_tx hi_of_1_9 found_1

entry_exists-ignores_value_example :
    entry_exists tree1 (entry 1 7) none ≡ entry_exists tree1 (entry 1 9) none
entry_exists-ignores_value_example =
    entry_exists-ignores_value tree1 (entry 1 7) (entry 1 9) none same_index
