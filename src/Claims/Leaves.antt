-- ===== src/Claims/Leaves.antt =====
-- core/claims/revocationrootsleafs.go: the leaves of the roots tree and of the revocations tree.
use go_iden3_core.Prelude.{ℕ, ◌%◌, ◌/◌, ◌<◌, ◌^◌, ◌≡◌, ◌∙◌, refl, ◌∷◌, arith, take, replicate, set}
use go_iden3_core.Result.{Result, ok, ◌>>=◌}
use go_iden3_core.Common.{uint32_to_bytes, bytes_to_uint32}
use go_iden3_core.Common.Slices.{nth, copy_at, update_at}
use go_iden3_core.Common.Words.{bytes_to_uint32-uint32_to_bytes}
use go_iden3_core.BigInt.{replicate-IsBytes}
use go_iden3_core.Crypto.{Crypto, IsHash}
use go_iden3_core.Db.{Storage, IsStorage}
use go_iden3_core.MerkleTree.Elem.{Hash, Entry, IsElem, IsData, h_index, hash_zero, index}
use go_iden3_core.MerkleTree.{MerkleTree, add_entry, get_data_by_index}
use go_iden3_core.MerkleTree.Spec.{Tree}
use go_iden3_core.MerkleTree.AddEntry.{Holds, get_data_by_index-add_entry_self}
use go_iden3_core.Claims.{write}

-- `&merkletree.Entry{}`
abbrev pub zero_entry : Entry
zero_entry = record { elems = replicate 8 hash_zero }

-- LeafRootsTree.Entry
unfoldable pub leaf_roots_entry : Hash → Entry
leaf_roots_entry root = record { elems = set zero_entry.elems 0 root }

-- NewLeafRootsTreeFromEntry
unfoldable pub leaf_roots_from_entry : Entry → Hash
leaf_roots_from_entry e = nth e.elems 0

pub record LeafRevocationsTree : Type 0 where
  pub nonce : ℕ
  pub version : ℕ

-- LeafRevocationsTree.Entry
unfoldable pub leaf_revocations_entry : LeafRevocationsTree → Entry
leaf_revocations_entry l =
    write 4 0 (uint32_to_bytes l.version) (write 0 0 (uint32_to_bytes l.nonce) zero_entry)

-- NewLeafRevocationsTreeFromEntry
unfoldable pub leaf_revocations_from_entry : Entry → Result LeafRevocationsTree
leaf_revocations_from_entry e = do
  nonce ← bytes_to_uint32 (take 4 (nth e.elems 0))
  version ← bytes_to_uint32 (take 4 (nth e.elems 4))
  ok (record { nonce = nonce; version = version })

module _ ⦃c : Crypto⦄ ⦃db : Storage⦄ where
  -- AddLeafRootsTree
  unfoldable pub add_leaf_roots_tree : MerkleTree → Hash → MerkleTree × Result (Unit {0})
  add_leaf_roots_tree mt root = add_entry mt (leaf_roots_entry root)

  -- AddLeafRevocationsTree
  unfoldable pub add_leaf_revocations_tree : MerkleTree → ℕ → ℕ → MerkleTree × Result (Unit {0})
  add_leaf_revocations_tree mt nonce version =
      add_entry mt (leaf_revocations_entry (record { nonce = nonce; version = version }))

-- A nonce and a version of 32 bits that are written into the entry of a revocation leaf are read
-- back.
pub leaf_revocations_from_entry-leaf_revocations_entry :
    (l : LeafRevocationsTree)
    → l.nonce < 2 ^ 32
    → l.version < 2 ^ 32
    → leaf_revocations_from_entry (leaf_revocations_entry l) ≡ ok l
unfolding leaf_revocations_from_entry leaf_revocations_entry write copy_at update_at nth
    uint32_to_bytes
leaf_revocations_from_entry-leaf_revocations_entry l hn hv =
    rw (read l.nonce hn, read l.version hv) refl
  where
    read : (u : ℕ) → u < 2 ^ 32 → bytes_to_uint32 (uint32_to_bytes u) ≡ ok u
    read u h = bytes_to_uint32-uint32_to_bytes u h

-- An element that starts with the four bytes of a number.
padded_IsElem :
    (u : ℕ)
    → IsElem (u % 256 ∷ u / 256 % 256 ∷ u / 65536 % 256 ∷ u / 16777216 % 256 ∷ replicate 28 0)
padded_IsElem u =
    (refl, (omega arith, (omega arith, (omega arith, (omega arith, replicate-IsBytes 28)))))

hash_zero-IsElem : IsElem hash_zero
hash_zero-IsElem = (refl, replicate-IsBytes 32)

pub leaf_revocations_entry-IsData :
    (l : LeafRevocationsTree) → IsData (leaf_revocations_entry l).elems
unfolding leaf_revocations_entry write copy_at update_at uint32_to_bytes
leaf_revocations_entry-IsData l = (
  refl,
  (
    padded_IsElem l.nonce,
    (
      hash_zero-IsElem,
      (
        hash_zero-IsElem,
        (
          hash_zero-IsElem,
          (padded_IsElem l.version, (hash_zero-IsElem, (hash_zero-IsElem, (hash_zero-IsElem, tt)))),
        ),
      ),
    ),
  ),
)

module _ ⦃c : Crypto⦄ ⦃db : Storage⦄ where
  -- The version is no part of the index of a leaf.
  h_index-version :
      (nonce v w : ℕ)
      → h_index (leaf_revocations_entry (record { nonce = nonce; version = v }))
        ≡ h_index (leaf_revocations_entry (record { nonce = nonce; version = w }))
  unfolding leaf_revocations_entry write update_at h_index index
  h_index-version nonce v w = refl

  module _ (hashes : IsHash c) (laws : IsStorage db) where
    -- Once AddLeafRevocationsTree has added a nonce and a version to a tree whose nodes represent
    -- an abstract tree, GetDataByIndex finds that leaf at the index hash of the leaf of the nonce
    -- with any other version; the hash and the storage keep their laws.
    pub get_data_by_index-add_leaf_revocations_tree :
        (mt mt' : MerkleTree) (t : Tree) (nonce version any_version : ℕ) (hi : Hash)
        → Holds mt t
        → h_index (leaf_revocations_entry (record { nonce = nonce; version = any_version })) ≡ ok hi
        → add_leaf_revocations_tree mt nonce version ≡ (mt', ok tt)
        → get_data_by_index mt' hi
          ≡ ok (leaf_revocations_entry (record { nonce = nonce; version = version })).elems
    unfolding add_leaf_revocations_tree
    get_data_by_index-add_leaf_revocations_tree mt mt' t nonce version any_version hi held eh done =
        get_data_by_index-add_entry_self hashes laws mt mt'
          (leaf_revocations_entry (record { nonce = nonce; version = version })) t hi
          (leaf_revocations_entry-IsData (record { nonce = nonce; version = version })) held
          (h_index-version nonce version any_version ∙ eh) done
