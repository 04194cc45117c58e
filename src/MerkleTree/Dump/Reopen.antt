-- ===== src/MerkleTree/Dump/Reopen.antt =====
-- NewMerkleTree on a storage into which ImportTree has imported a tree.
use go_iden3_core.Prelude.{
  ℕ, suc, ◌≡◌, ◌≤◌, refl, sym, ap, ◌∙◌, true, [], ◌∷◌, arith, length, drop, bytes_eq,
}
use go_iden3_core.Result.{ok, >>=-eq-ok, ok-injective}
use go_iden3_core.Common.{Bytes}
use go_iden3_core.BigInt.{copy_into}
use go_iden3_core.Crypto.{Crypto}
use go_iden3_core.Db.{Storage, IsStorage}
use go_iden3_core.MerkleTree.Elem.{Hash, hash_zero}
use go_iden3_core.MerkleTree.{MerkleTree, root_node_value, db_get, db_value, new_merkle_tree}
use go_iden3_core.MerkleTree.Dump.{import_loop, import_root, import_tree}

module _ ⦃c : Crypto⦄ ⦃db : Storage⦄ where
  db_get-root :
      (s : db.State) (v : Bytes)
      → db.get s root_node_value ≡ ok v
      → 2 ≤ length v
      → (t : ℕ) × (db_get s root_node_value ≡ ok (t, drop 1 v))
  unfolding db_get db_value bytes_eq
  db_get-root s [] found long = absurd (omega arith)
  db_get-root s (a ∷ []) found long = absurd (omega arith)
  db_get-root s (a ∷ b ∷ v) found long = (a, rw found refl)

  new_merkle_tree-root :
      (s : db.State) (levels t : ℕ) (v : Bytes)
      → db_get s root_node_value ≡ ok (t, v)
      → new_merkle_tree s levels
        ≡ ok (record {
          storage = s;
          root_key = copy_into hash_zero v;
          max_levels = levels;
          writable = true;
        })
  unfolding new_merkle_tree
  new_merkle_tree-root s levels t v found = rw (found, new_merkle_tree) refl

  -- If the storage keeps its laws, ImportTree succeeds, and the storage then has at least two
  -- bytes as the root record, then the tree's root key is that record, while NewMerkleTree on the
  -- storage gives a tree whose root key is the record without its first byte.
  pub new_merkle_tree-import_tree :
      (laws : IsStorage db) (mt mt' : MerkleTree) (bs v : Bytes) (levels : ℕ)
      → import_tree mt bs ≡ ok mt'
      → db.get mt'.storage root_node_value ≡ ok v
      → 2 ≤ length v
      → (mt'.root_key ≡ copy_into hash_zero v)
        × (new_merkle_tree mt'.storage levels
            ≡ ok (record {
              storage = mt'.storage;
              root_key = copy_into hash_zero (drop 1 v);
              max_levels = levels;
              writable = true;
            }))
  unfolding import_tree import_root
  new_merkle_tree-import_tree laws mt mt' bs v levels h found long =
      let ((tx', k), rooted, h1) = >>=-eq-ok (import_root mt bs) _ h in
      let (s, done, h2) = >>=-eq-ok (db.commit mt.storage tx') _ h1 in
      let (tx, _, g1) = >>=-eq-ok (db.new_tx mt.storage) _ rooted in
      let (tx1, _, g2) = >>=-eq-ok (import_loop (suc (length bs)) mt.storage tx bs) _ g1 in
      let (w, read, g3) = >>=-eq-ok (db.tx_get mt.storage tx1 root_node_value) _ g2 in
      let pair = ok-injective g3 in
      let same_tx : tx1 ≡ tx' = ap (λ (x : db.Tx × Hash). x.0) pair in
      let root : copy_into hash_zero w ≡ k = ap (λ (x : db.Tx × Hash). x.1) pair in
      let state = ok-injective h2 in
      let stored : s ≡ mt'.storage = ap (λ (x : MerkleTree). x.storage) state in
      let key : k ≡ mt'.root_key = ap (λ (x : MerkleTree). x.root_key) state in
      let got : db.get s root_node_value ≡ ok w =
        laws.get-commit mt.storage s tx' root_node_value done
        ∙ ap (λ (x : db.Tx). db.tx_get mt.storage x root_node_value) (sym same_tx)
        ∙ read in
      let same : w ≡ v =
        ok-injective (sym got ∙ ap (λ (x : db.State). db.get x root_node_value) stored ∙ found) in
      let (t, read_root) = db_get-root mt'.storage v found long in
      (
        sym key ∙ sym root ∙ ap (copy_into hash_zero) same,
        new_merkle_tree-root mt'.storage levels t (drop 1 v) read_root,
      )
