-- ===== src/Tests/Holding.antt =====
-- A holder that gets a credential of validity for a credential of existence.
use mathlib.Core.Path.{subst}
use go_iden3_core.Prelude.{◌≡◌, ◌≤◌, refl, none, some, false, [], ◌∷◌, arith, bytes_eq}
use go_iden3_core.Result.{ok, err, panic, ok-injective, entry_index_not_found}
use go_iden3_core.Common.{uint32_to_bytes, bytes_to_uint32}
use go_iden3_core.Common.Slices.{nth, copy_at, update_at}
use go_iden3_core.MerkleTree.Elem.{Hash, hash_zero, hi_hv}
use go_iden3_core.MerkleTree.{get_data_by_index}
use go_iden3_core.MerkleTree.Spec.{Tree, empty}
use go_iden3_core.MerkleTree.AddEntry.{Holds}
use go_iden3_core.MerkleTree.Proof.{generate_proof, generate_loop}
use go_iden3_core.Claims.{
  Metadata, write, metadata_unmarshal, header_unmarshal, unmarshal_subject, byte2bool,
}
use go_iden3_core.Claims.Leaves.{leaf_revocations_entry}
use go_iden3_core.Verifier.{verify_credential_validity, expired}
use go_iden3_core.Public.{PublicData}
use go_iden3_core.Holder.{
  Holder, queried_data, holder_get_credential_validity_data, holder_get_credential_validity,
}
use go_iden3_core.Holder.Validity.{verify_credential_validity-holder_get_credential_validity}
use go_iden3_core.Tests.Env.{mixing, in_memory, tree0, tree0-Holds}
use go_iden3_core.Tests.Trees.{tree2, hi_of}
use go_iden3_core.Tests.Verifying.{
  state1, data1, verifier1, credential1, credential1_accepted, credential2,
}
use go_iden3_core.Tests.Issuing.{accepting, sent}

abbrev public1 : PublicData
public1 = record {
  iden_state = state1;
  claims_tree_root = tree2.root_key;
  revocations_tree_root = hash_zero;
  revocations_tree = tree0;
  roots_tree_root = hash_zero;
  roots_tree = tree0;
}

abbrev holder1 : Holder in_memory
holder1 = record {
  issuer = record sent { iden_pub_on_chain = data1 };
  get_public_data = λ url id s. ok public1;
}

abbrev metadata1 : Metadata
metadata1 = record {
  header = record {
    claim_type = 1 ∷ 0 ∷ 0 ∷ 0 ∷ 0 ∷ 0 ∷ 0 ∷ 0 ∷ [];
    subject = 0;
    subject_pos = 0;
    expiration = false;
    version = false;
  };
  subject = none;
  expiration = 0;
  version = 0;
  rev_nonce = 7;
}

metadata1_eq : metadata_unmarshal credential1.claim ≡ ok metadata1
unfolding metadata_unmarshal header_unmarshal unmarshal_subject byte2bool nth bytes_to_uint32
metadata1_eq = refl

hi7_hv7 : Hash × Hash
unfolding hi_of leaf_revocations_entry write copy_at update_at uint32_to_bytes tree2
hi7_hv7 = elim (hi_hv (leaf_revocations_entry (record { nonce = 7; version = 0xffffffff }))) [
  | ok p ↦ p
  | err _ ↦ ([], [])
  | panic ↦ ([], [])
]

hi7_hv7_eq :
    hi_hv (leaf_revocations_entry (record { nonce = 7; version = 0xffffffff })) ≡ ok hi7_hv7
unfolding hi7_hv7
hi7_hv7_eq = refl

got : holder_get_credential_validity holder1 credential1 ≡ ok credential2
unfolding holder_get_credential_validity holder_get_credential_validity_data queried_data
    metadata_unmarshal header_unmarshal unmarshal_subject byte2bool nth bytes_to_uint32 bytes_eq
    hi7_hv7 state1 generate_proof generate_loop leaf_revocations_entry write update_at copy_at
    uint32_to_bytes
got = refl

tree0_held :
    (p : PublicData)
    → holder1.get_public_data [] [] none ≡ ok p
    → (t : Tree) × Holds p.revocations_tree t × (p.revocations_tree.max_levels ≤ 240)
tree0_held p e =
    subst
      (λ (x : PublicData).
        (t : Tree) × Holds x.revocations_tree t × (x.revocations_tree.max_levels ≤ 240))
      (ok-injective e) (empty, tree0-Holds, omega arith)

verify_credential_validity-holder_get_credential_validity_example :
    (verify_credential_validity verifier1 credential2 100 ≡ ok tt)
    × (p : PublicData) × (holder1.get_public_data credential1.iden_pub_url credential1.id
          (some credential2.iden_state_data.iden_state)
        ≡ ok p)
    × (get_data_by_index p.revocations_tree hi7_hv7.0 ≡ err entry_index_not_found)
unfolding expired
verify_credential_validity-holder_get_credential_validity_example =
    verify_credential_validity-holder_get_credential_validity holder1 credential1 credential2
      metadata1 hi7_hv7.0 hi7_hv7.1 verifier1 100 (λ id. refl) (λ id d e. e)
      (λ url id s p e. tree0_held p e) metadata1_eq refl hi7_hv7_eq credential1_accepted got
