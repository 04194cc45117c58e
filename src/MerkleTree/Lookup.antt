-- ===== src/MerkleTree/Lookup.antt =====
-- GetDataByIndex on the nodes of a tree is the look-up on the tree.
use go_iden3_core.Prelude.{
  ℕ, zero, suc, ◌≡◌, refl, inl, inr, Bool, true, false, List, [], ◌∷◌, arith, length, drop,
  drop-eq_cons, bytes_eq_refl,
}
use go_iden3_core.Result.{Result, ok, ◌>>=◌, Result-cases}
use go_iden3_core.Common.{Bytes}
use go_iden3_core.Crypto.{Crypto}
use go_iden3_core.Db.{Storage}
use go_iden3_core.MerkleTree.Elem.{Hash, hash_zero, get_path}
use go_iden3_core.MerkleTree.Elem.Path.{length-get_path}
use go_iden3_core.MerkleTree.{MerkleTree, get_node, child, get_data_loop, get_data_by_index}
use go_iden3_core.MerkleTree.Nodes as N
use go_iden3_core.MerkleTree.Spec.{Tree, empty, leaf, middle, Represents, side, find}

pub get_node-hash_zero : (read : Bytes → Result Bytes) → get_node read hash_zero ≡ ok N.empty
unfolding get_node
get_node-hash_zero read = rw bytes_eq_refl

module _ ⦃c : Crypto⦄ where
  pub side-Represents :
      (read : Bytes → Result Bytes) (b : Bool) (kl kr : Hash) (l r : Tree)
      → Represents read kl l
      → Represents read kr r
      → Represents read (child b kl kr) (side b l r)
  side-Represents read true kl kr l r hl hr = hr
  side-Represents read false kl kr l r hl hr = hl

module _ ⦃c : Crypto⦄ ⦃db : Storage⦄ where
  pub get_data_loop-find :
      (s : db.State) (hi : Hash) (rest lvl : ℕ) (path path' : List Bool) (k : Hash) (t : Tree)
      → Represents (db.get s) k t
      → drop lvl path ≡ path'
      → length path' ≡ rest
      → get_data_loop s hi rest lvl path k ≡ find hi path' t
  unfolding get_data_loop find
  get_data_loop-find s hi zero lvl path [] k t held dp len = refl
  get_data_loop-find s hi zero lvl path (b ∷ path') k t held dp len = absurd (omega arith)
  get_data_loop-find s hi (suc rest) lvl path [] k t held dp len = absurd (omega arith)
  get_data_loop-find s hi (suc rest) lvl path (b ∷ path') k empty held dp len =
      rw (held, get_node-hash_zero)
  get_data_loop-find s hi (suc rest) lvl path (b ∷ path') k (leaf e) held dp len = rw held.0
  get_data_loop-find s hi (suc rest) lvl path (b ∷ path') k (middle l r)
        (kl, kr, node, _, _, hl, hr) dp len =
      let (gp, dp') = drop-eq_cons lvl path dp in
      rw (node, gp)
        (get_data_loop-find s hi rest (suc lvl) path path' (child b kl kr) (side b l r)
          (side-Represents _ b kl kr l r hl hr) dp' (omega arith))

  -- If the nodes under the root key are those of an abstract tree, GetDataByIndex is the path of
  -- the index, or its failure, followed by the look-up along it in the tree.
  pub get_data_by_index-find :
      (mt : MerkleTree) (t : Tree) (hi : Hash)
      → Represents (db.get mt.storage) mt.root_key t
      → get_data_by_index mt hi ≡ (get_path mt.max_levels hi >>= λ path. find hi path t)
  unfolding get_data_by_index
  get_data_by_index-find mt t hi held = elim (Result-cases (get_path mt.max_levels hi)) [
    | inl (path, e) ↦ rw e (
        get_data_loop-find mt.storage hi mt.max_levels 0 path path mt.root_key t held refl
          (length-get_path mt.max_levels hi e))
    | inr (inl (x, e)) ↦ rw e
    | inr (inr e) ↦ rw e
  ]
