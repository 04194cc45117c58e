-- ===== src/Public.antt =====
-- components/idenpuboffchain: the public data of an identity, which are its two public trees and the
-- three roots, and the bytes that it travels as.
pub mod Blobs
pub mod Local
pub mod Cache
pub mod Published
use go_iden3_core.Prelude.{ℕ, Bool, true, false, not, some, if◌then◌else◌, bytes_eq}
use go_iden3_core.Result.{
  Result, ok, err, ◌>>=◌, wrong_revocations_root, wrong_roots_root, wrong_iden_state,
}
use go_iden3_core.Common.{Bytes}
use go_iden3_core.Crypto.{Crypto}
use go_iden3_core.Db.{Storage}
use go_iden3_core.Db.Memory.{memory_storage, new_memory_storage}
use go_iden3_core.MerkleTree.Elem.{Hash}
use go_iden3_core.MerkleTree.{MerkleTree, new_merkle_tree}
use go_iden3_core.MerkleTree.Dump.{dump_tree, import_tree}
use go_iden3_core.Identifier.{iden_state}

pub record PublicDataBlobs : Type 0 where
  pub iden_state : Hash
  pub claims_tree_root : Hash
  pub revocations_tree_root : Hash
  pub revocations_tree : Bytes
  pub roots_tree_root : Hash
  pub roots_tree : Bytes

pub record PublicData ⦃db : Storage⦄ : Type 0 where
  pub iden_state : Hash
  pub claims_tree_root : Hash
  pub revocations_tree_root : Hash
  pub revocations_tree : MerkleTree
  pub roots_tree_root : Hash
  pub roots_tree : MerkleTree

module _ ⦃db : Storage⦄ ⦃c : Crypto⦄ where
  -- The two trees as Publish of writerhttp.go writes them.
  unfoldable pub dump_blobs : (fuel : ℕ) → PublicData → Result PublicDataBlobs
  dump_blobs fuel p = do
    rot_blob ← dump_tree fuel p.roots_tree (some p.roots_tree_root)
    ret_blob ← dump_tree fuel p.revocations_tree (some p.revocations_tree_root)
    ok (record {
      iden_state = p.iden_state;
      claims_tree_root = p.claims_tree_root;
      revocations_tree_root = p.revocations_tree_root;
      revocations_tree = ret_blob;
      roots_tree_root = p.roots_tree_root;
      roots_tree = rot_blob;
    })

  -- The rest of NewPublicDataFromBlobs, from the two empty trees on.
  unfoldable pub check_blobs : PublicDataBlobs → MerkleTree → MerkleTree → Result PublicData
  check_blobs b ret0 rot0 = do
    ret ← import_tree ret0 b.revocations_tree
    if not (bytes_eq ret.root_key b.revocations_tree_root) then err wrong_revocations_root else do
      rot ← import_tree rot0 b.roots_tree
      if not (bytes_eq rot.root_key b.roots_tree_root) then err wrong_roots_root else do
        s ← iden_state b.claims_tree_root b.revocations_tree_root b.roots_tree_root
        if not (bytes_eq s b.iden_state)
            then err wrong_iden_state
            else ok (record {
              iden_state = b.iden_state;
              claims_tree_root = b.claims_tree_root;
              revocations_tree_root = b.revocations_tree_root;
              revocations_tree = ret;
              roots_tree_root = b.roots_tree_root;
              roots_tree = rot;
            })

module _ (sha256 : Bytes → Bytes) ⦃c : Crypto⦄ where
  -- NewPublicDataFromBlobs
  unfoldable pub new_public_data_from_blobs :
      PublicDataBlobs → Result (PublicData ⦃db = memory_storage sha256⦄)
  new_public_data_from_blobs b = do
    ret0 ← new_merkle_tree ⦃db = memory_storage sha256⦄ new_memory_storage 140
    rot0 ← new_merkle_tree ⦃db = memory_storage sha256⦄ new_memory_storage 140
    check_blobs ⦃db = memory_storage sha256⦄ b ret0 rot0
