-- ===== src/MerkleTree/Spec.antt =====
-- The abstract tree that the nodes of a storage represent, with look-up and insertion on it. A path
-- is the list of the directions that are left, so its length is the number of levels left.
pub mod FindInsert
use go_iden3_core.Prelude.{
  ℕ, zero, suc, ◌≡◌, ◌≢◌, Bool, true, false, not, List, [], ◌∷◌, if◌then◌else◌, drop, bytes_eq,
}
use go_iden3_core.Result.{
  Result, ok, err, panic, entry_index_not_found, reached_max_level, entry_index_already_exists,
  ◌>>=◌,
}
use go_iden3_core.Common.{Bytes}
use go_iden3_core.Crypto.{Crypto}
use go_iden3_core.MerkleTree.Elem.{Hash, hash_zero, Data, Entry, get_path, h_index}
use go_iden3_core.MerkleTree.Nodes.{Node, IsNode, key}
use go_iden3_core.MerkleTree.Nodes as N
use go_iden3_core.MerkleTree.{get_node, same_bit}

pub data Tree : Type 0 where
  empty : Tree
  leaf : Entry → Tree
  middle : Tree → Tree → Tree

-- The subtree on the side of a direction.
abbrev pub side : Bool → Tree → Tree → Tree
side true l r = r
side false l r = l

abbrev pub middle_of : Bool → Tree → Tree → Tree
middle_of true t sibling = middle sibling t
middle_of false t sibling = middle t sibling

module _ ⦃c : Crypto⦄ where
  -- The node at a key, and the nodes below it, are those of a tree, each under its own key.
  abbrev pub Represents : (Bytes → Result Bytes) → Hash → Tree → Type 0
  Represents read k empty = k ≡ hash_zero
  Represents read k (leaf e) =
      (get_node read k ≡ ok (N.leaf e)) × (key (N.leaf e) ≡ ok k) × IsNode (N.leaf e)
  Represents read k (middle l r) =
      (kl : Hash) × (kr : Hash) × (get_node read k ≡ ok (N.middle kl kr))
      × (key (N.middle kl kr) ≡ ok k)
      × IsNode (N.middle kl kr)
      × Represents read kl l
      × Represents read kr r

  -- The data at an index, along its path.
  unfoldable pub find : Hash → List Bool → Tree → Result Data
  find hi [] t = err entry_index_not_found
  find hi (b ∷ path) empty = err entry_index_not_found
  find hi (b ∷ path) (leaf e) = do
    h ← h_index e
    if bytes_eq hi h then ok e.elems else err entry_index_not_found
  find hi (b ∷ path) (middle l r) = find hi path (side b l r)

  -- Two leaves are parted at the first direction in which their paths differ.
  unfoldable pub push :
      (new_leaf old_leaf : Entry) → (path_new_leaf path_old_leaf : List Bool) → Result Tree
  push e o (b ∷ b' ∷ pn) (a ∷ po) =
      let deeper = push e o (b' ∷ pn) po in
      if same_bit b a
      then (do t ← deeper; ok (middle_of b t empty))
      else ok (middle_of b (leaf e) (leaf o))
  push e o (b ∷ b' ∷ pn) [] = panic
  push e o (b ∷ []) po = err reached_max_level
  push e o [] po = err reached_max_level

  -- Insertion at depth `lvl` of a tree with `levels` levels.
  unfoldable pub insert : (levels : ℕ) → Entry → (lvl : ℕ) → List Bool → Tree → Result Tree
  insert levels e lvl [] t = err reached_max_level
  insert levels e lvl (b ∷ path) empty = ok (leaf e)
  insert levels e lvl (b ∷ path) (leaf o) = do
    hi ← h_index o
    new_hi ← h_index e
    if bytes_eq hi new_hi
        then err entry_index_already_exists
        else do old_path ← get_path levels hi; push e o (b ∷ path) (drop lvl old_path)
  insert levels e lvl (b ∷ path) (middle l r) = do
    t ← insert levels e (suc lvl) path (side b l r)
    ok (middle_of b t (side b r l))
