-- ===== src/MerkleTree/Present.antt =====
-- What AddEntry and EntryExists do with an index that is in the tree.
use go_iden3_core.Prelude.{
  ◌<◌, ℕ, zero, suc, ◌≡◌, refl, sym, ap, ◌∙◌, Bool, true, inl, inr, Option, List, [], ◌∷◌, arith,
  length, drop, drop-eq_cons, bytes_eq, bytes_eq→eq, bytes_eq_refl, Bool-cases, if◌then◌else◌,
  get_elem?, take, get_elem?-take,
}
use go_iden3_core.Result.{
  ok, err, entry_data_not_match, entry_index_already_exists, ◌>>=◌, >>=-eq-ok,
}
use go_iden3_core.Crypto.{Crypto}
use go_iden3_core.Db.{Storage}
use go_iden3_core.MerkleTree.Elem.{
  hash_elems, Hash, Data, Entry, get_path, h_index, index, elem_at, data_equal, entry_equal,
  check_entry_in_field,
}
use go_iden3_core.MerkleTree.Elem.Path.{length-get_path}
use go_iden3_core.MerkleTree.{
  MerkleTree, child, add_leaf, add_at_leaf, add_entry, add_checked, new_root, get_data_by_index,
  entry_exists, at_root,
}
use go_iden3_core.MerkleTree.Spec.{Tree, empty, leaf, middle, Represents, side, find}
use go_iden3_core.MerkleTree.Lookup.{side-Represents, get_data_by_index-find}
use go_iden3_core.MerkleTree.AddEntry.{Holds}

module _ ⦃c : Crypto⦄ ⦃db : Storage⦄ where
  add_leaf-present :
      (mt : MerkleTree) (tx : db.Tx) (e : Entry) (hi k : Hash) (rest lvl : ℕ)
      (path path' : List Bool) (t : Tree) {d : Data}
      → h_index e ≡ ok hi
      → Represents (db.get mt.storage) k t
      → drop lvl path ≡ path'
      → length path' ≡ rest
      → find hi path' t ≡ ok d
      → add_leaf mt tx e k rest lvl path ≡ err entry_index_already_exists
  unfolding add_leaf find add_at_leaf
  add_leaf-present mt tx e hi k rest lvl path [] t eh held dp len found = cc
  add_leaf-present mt tx e hi k zero lvl path (b ∷ path') t eh held dp len found =
      absurd (omega arith)
  add_leaf-present mt tx e hi k (suc rest) lvl path (b ∷ path') empty eh held dp len found = cc
  add_leaf-present mt tx e hi k (suc rest) lvl path (b ∷ path') (leaf o) eh held dp len found =
      let (ho, oh, h1) = >>=-eq-ok (h_index o) _ found in
      elim (Bool-cases (bytes_eq hi ho)) [
        | inl same ↦
            let back : bytes_eq ho hi ≡ true = rw (bytes_eq→eq hi ho same) (bytes_eq_refl ho) in
            rw (held.0, oh, eh, back)
        | inr other ↦ cc (rw other at h1)
      ]
  add_leaf-present mt tx e hi k (suc rest) lvl path (b ∷ path') (middle l r) eh
        (kl, kr, node, _, _, hl, hr) dp len found =
      let (gp, dp') = drop-eq_cons lvl path dp in
      rw
        (
          node,
          gp,
          add_leaf-present mt tx e hi (child b kl kr) rest (suc lvl) path path' (side b l r) eh
              (side-Represents _ b kl kr l r hl hr) dp' (omega arith) found,
        )
        refl

  add_checked-err :
      (mt : MerkleTree) (e : Entry)
      → new_root mt e ≡ err entry_index_already_exists
      → add_checked mt e ≡ (mt, err entry_index_already_exists)
  unfolding add_checked
  add_checked-err mt e h = rw (h, add_checked)

  new_root-present :
      (mt : MerkleTree) (e : Entry) (t : Tree) (tx : db.Tx) (hi : Hash) {d : Data}
      → Holds mt t
      → db.new_tx mt.storage ≡ ok tx
      → h_index e ≡ ok hi
      → get_data_by_index mt hi ≡ ok d
      → new_root mt e ≡ err entry_index_already_exists
  unfolding new_root
  new_root-present mt e t tx hi held started eh found =
      let (path, bits, at) =
        >>=-eq-ok (get_path mt.max_levels hi) _
          (sym (get_data_by_index-find mt t hi held.represents) ∙ found) in
      rw (started, eh, bits)
        (add_leaf-present mt tx e hi mt.root_key mt.max_levels 0 path path t eh held.represents refl
          (length-get_path mt.max_levels hi bits) at)

  -- On a writable tree, AddEntry of an entry within the field whose index GetDataByIndex finds
  -- returns ErrEntryIndexAlreadyExists, whatever the value, and leaves the state as it is; the
  -- storage must be able to start a transaction.
  pub add_entry-present :
      (mt : MerkleTree) (e : Entry) (t : Tree) (tx : db.Tx) (hi : Hash) (d : Data)
      → Holds mt t
      → mt.writable ≡ true
      → check_entry_in_field e ≡ true
      → db.new_tx mt.storage ≡ ok tx
      → h_index e ≡ ok hi
      → get_data_by_index mt hi ≡ ok d
      → add_entry mt e ≡ (mt, err entry_index_already_exists)
  unfolding add_entry
  add_entry-present mt e t tx hi d held w inside started eh found =
      simp (w, inside) (add_checked-err mt e (new_root-present mt e t tx hi held started eh found))

data_equal-index :
    (d : Data) (e e' : Entry)
    → take 4 e.elems ≡ take 4 e'.elems
    → data_equal d e.elems ≡ data_equal d e'.elems
unfolding data_equal elem_at
data_equal-index d e e' same =
    rw (at 0 (omega arith), at 1 (omega arith), at 2 (omega arith), at 3 (omega arith))
  where
    at : (i : ℕ) → i < 4 → get_elem? e.elems i ≡ get_elem? e'.elems i
    at i h =
        sym (get_elem?-take 4 i e.elems h)
        ∙ ap (λ (x : Data). get_elem? x i) same
        ∙ get_elem?-take 4 i e'.elems h

module _ ⦃c : Crypto⦄ ⦃db : Storage⦄ where
  -- EntryExists gives two entries of one index the same result, whatever their values.
  pub entry_exists-ignores_value :
      (mt : MerkleTree) (e e' : Entry) (root_key : Option Hash)
      → index e ≡ index e'
      → entry_exists mt e root_key ≡ entry_exists mt e' root_key
  unfolding entry_exists index h_index entry_equal
  entry_exists-ignores_value mt e e' root_key same = λ i. do
    at ← at_root mt root_key
    hi ← hash_elems (same i)
    d ← get_data_by_index at hi
    equal ← data_equal-index d e e' same i
    if equal then ok tt else err entry_data_not_match
