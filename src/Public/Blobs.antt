-- ===== src/Public/Blobs.antt =====
-- What NewPublicDataFromBlobs makes of the trees that Publish writes.
use go_iden3_core.Prelude.{
  ℕ, ◌<◌, ◌≡◌, refl, sym, ◌∙◌, true, none, some, length, bytes_eq, bytes_eq_refl,
}
use go_iden3_core.Result.{ok}
use go_iden3_core.Common.{Bytes}
use go_iden3_core.Crypto.{Crypto}
use go_iden3_core.Db.{Storage, IsStorage}
use go_iden3_core.MerkleTree.{MerkleTree}
use go_iden3_core.MerkleTree.Spec.{Tree}
use go_iden3_core.MerkleTree.AddEntry.{Holds}
use go_iden3_core.MerkleTree.Dump.{dump_tree, walk_from}
use go_iden3_core.MerkleTree.Dump.Walk.{height}
use go_iden3_core.MerkleTree.Dump.Import.{import_tree-dump_tree}
use go_iden3_core.Identifier.{iden_state}
use go_iden3_core.Public.{PublicData, PublicDataBlobs, dump_blobs, check_blobs}

module _ ⦃c : Crypto⦄ ⦃db : Storage⦄ where
  -- The two trees are at the two roots and have these nodes, and the state is the hash of the roots.
  pub record Consistent (p : PublicData) (revocations roots : Tree) : Type 0 where
    pub revocations_Holds : Holds p.revocations_tree revocations
    pub roots_Holds : Holds p.roots_tree roots
    pub revocations_root : p.revocations_tree.root_key ≡ p.revocations_tree_root
    pub roots_root : p.roots_tree.root_key ≡ p.roots_tree_root
    pub state :
        iden_state p.claims_tree_root p.revocations_tree_root p.roots_tree_root ≡ ok p.iden_state
    pub state_full : length p.iden_state ≡ 32
    pub claims_full : length p.claims_tree_root ≡ 32

  dump_tree-some :
      (fuel : ℕ) (mt : MerkleTree) (k : Bytes)
      → mt.root_key ≡ k
      → dump_tree fuel mt (some k) ≡ dump_tree fuel mt none
  unfolding dump_tree walk_from
  dump_tree-some fuel mt k e = rw (sym e) refl

  -- The bytes of some public data, and the data that they are read back as.
  pub record Copied (fuel : ℕ) (p : PublicData) (ret0 rot0 : MerkleTree) (revocations roots : Tree)
      : Type 0 where
    pub blobs : PublicDataBlobs
    pub copy : PublicData
    pub dumped : dump_blobs fuel p ≡ ok blobs
    pub checked : check_blobs blobs ret0 rot0 ≡ ok copy
    pub consistent : Consistent copy revocations roots
    pub same_state : blobs.iden_state ≡ p.iden_state
    pub same_claims : blobs.claims_tree_root ≡ p.claims_tree_root
    pub same_revocations : blobs.revocations_tree_root ≡ p.revocations_tree_root
    pub same_roots : blobs.roots_tree_root ≡ p.roots_tree_root

  module _ (laws : IsStorage db) (starts : (s : db.State) → (tx : db.Tx) × (db.new_tx s ≡ ok tx))
      (commits : (s : db.State) (tx : db.Tx) → (s' : db.State) × (db.commit s tx ≡ ok s')) where
    pub check_blobs-dump_blobs :
        (fuel : ℕ) (p : PublicData) (ret0 rot0 : MerkleTree) (revocations roots : Tree)
        → Consistent p revocations roots
        → height revocations < fuel
        → height roots < fuel
        → Copied fuel p ret0 rot0 revocations roots
    unfolding dump_blobs check_blobs
    check_blobs-dump_blobs fuel p ret0 rot0 revocations roots con low_ret low_rot =
        let (ret_blob, ret, ret_out, ret_in, ret_held, ret_root) =
          import_tree-dump_tree laws starts commits p.revocations_tree ret0 revocations fuel
            con.revocations_Holds low_ret in
        let (rot_blob, rot, rot_out, rot_in, rot_held, rot_root) =
          import_tree-dump_tree laws starts commits p.roots_tree rot0 roots fuel con.roots_Holds
            low_rot in
        let ret_key = ret_root ∙ con.revocations_root in
        let rot_key = rot_root ∙ con.roots_root in
        let ret_same : bytes_eq ret.root_key p.revocations_tree_root ≡ true =
          rw ret_key (bytes_eq_refl p.revocations_tree_root) in
        let rot_same : bytes_eq rot.root_key p.roots_tree_root ≡ true =
          rw rot_key (bytes_eq_refl p.roots_tree_root) in
        record {
          blobs = record {
            iden_state = p.iden_state;
            claims_tree_root = p.claims_tree_root;
            revocations_tree_root = p.revocations_tree_root;
            revocations_tree = ret_blob;
            roots_tree_root = p.roots_tree_root;
            roots_tree = rot_blob;
          };
          copy = record {
            iden_state = p.iden_state;
            claims_tree_root = p.claims_tree_root;
            revocations_tree_root = p.revocations_tree_root;
            revocations_tree = ret;
            roots_tree_root = p.roots_tree_root;
            roots_tree = rot;
          };
          dumped =
              rw
                (
                  dump_tree-some fuel p.roots_tree p.roots_tree_root con.roots_root ∙ rot_out,
                  dump_tree-some fuel p.revocations_tree p.revocations_tree_root
                        con.revocations_root
                      ∙ ret_out,
                )
                refl;
          checked =
              rw (ret_in, ret_same, rot_in, rot_same, con.state, bytes_eq_refl p.iden_state) refl;
          consistent = record {
            revocations_Holds = ret_held;
            roots_Holds = rot_held;
            revocations_root = ret_key;
            roots_root = rot_key;
            state = con.state;
            state_full = con.state_full;
            claims_full = con.claims_full;
          };
          same_state = refl;
          same_claims = refl;
          same_revocations = refl;
          same_roots = refl;
        }
