-- ===== src/Tests/Verifying.antt =====
-- A credential that is accepted, and one whose nonce is revoked.
use go_iden3_core.Prelude.{◌≡◌, ◌≢◌, ◌↔◌, ◌∙◌, refl, false, none, [], arith, replicate, bytes_eq}
use go_iden3_core.Result.{ok, err, panic}
use go_iden3_core.Common.{uint32_to_bytes, bytes_to_uint32, test_bit_big_endian}
use go_iden3_core.Common.Slices.{nth, copy_at, update_at}
use go_iden3_core.MerkleTree.Elem.{Hash, hash_zero, h_index}
use go_iden3_core.MerkleTree.{MerkleTree, get_data_by_index}
use go_iden3_core.MerkleTree.Spec.{empty}
use go_iden3_core.MerkleTree.Proof.{
  Proof, generate_proof, root_from_proof, climb, next_sibling, start_key,
}
use go_iden3_core.Identifier.{iden_state}
use go_iden3_core.Claims.{
  write, metadata_unmarshal, header_unmarshal, unmarshal_subject, get_revocation_nonce, byte2bool,
}
use go_iden3_core.Claims.Leaves.{
  leaf_revocations_entry, leaf_revocations_from_entry, add_leaf_revocations_tree,
  leaf_revocations_from_entry-leaf_revocations_entry, get_data_by_index-add_leaf_revocations_tree,
}
use go_iden3_core.Verifier.{
  IdenStateData, CredentialExistence, CredentialValidity, Verifier, verify_credential_existence,
  verify_credential_validity, validate_freshness, check_not_revoked, expired, check_state,
  same_data,
}
use go_iden3_core.Verifier.Credential.{IsIssued, IsValid, verify_credential_existence-ok_iff}
use go_iden3_core.Verifier.Valid.{verify_credential_validity-ok_iff}
use go_iden3_core.Verifier.Issued.{
  verify_credential_existence-generate_proof, verify_credential_validity-revoked,
}
use go_iden3_core.Tests.Env.{
  mixing, mixing-IsHash, in_memory, in_memory-IsStorage, entry, tree0, tree0-Holds,
}
use go_iden3_core.Tests.Trees.{
  tree1, tree2, hi_of, hi_of_1, found_1, tree2_Inserted, get_data_by_index_kept,
}
use go_iden3_core.Tests.Proofs.{proof1, proof1_eq, tree2_levels}

-- The state of an identity with the two claims, no revocations and no roots.
unfoldable pub state1 : Hash
unfolding tree2 iden_state
state1 = elim (iden_state tree2.root_key hash_zero hash_zero) [
  | ok s ↦ s
  | err _ ↦ hash_zero
  | panic ↦ hash_zero
]

state1_eq : iden_state tree2.root_key hash_zero hash_zero ≡ ok state1
unfolding state1
state1_eq = refl

abbrev pub data1 : IdenStateData
data1 = record { block_ts = 10; block_n = 3; iden_state = state1 }

abbrev pub verifier1 : Verifier
verifier1 = record {
  get_state = λ id. ok data1;
  get_state_by_block = λ id n. ok data1;
  time_now = 5;
}

abbrev pub credential1 : CredentialExistence
credential1 = record {
  id = [];
  iden_pub_url = [];
  iden_state_data = data1;
  mtp_claim = proof1;
  claim = entry 1 7;
  revocations_tree_root = hash_zero;
  roots_tree_root = hash_zero;
}

pub credential1_accepted : verify_credential_existence verifier1 credential1 ≡ ok tt
credential1_accepted =
    verify_credential_existence-generate_proof tree2 tree2_Inserted.0 (hi_of 1) verifier1
      credential1 tree2_Inserted.1.holds (omega (arith, tree2_levels)) hi_of_1
      (get_data_by_index_kept ∙ found_1) proof1_eq state1_eq refl

verify_credential_existence-generate_proof_example :
    verify_credential_existence verifier1 credential1 ≡ ok tt
verify_credential_existence-generate_proof_example =
    verify_credential_existence-generate_proof tree2 tree2_Inserted.0 (hi_of 1) verifier1
      credential1 tree2_Inserted.1.holds (omega (arith, tree2_levels)) hi_of_1
      (get_data_by_index_kept ∙ found_1) proof1_eq state1_eq refl

verify_credential_existence-ok_iff_example :
    (verify_credential_existence verifier1 credential1 ≡ ok tt) ↔ IsIssued verifier1 credential1
verify_credential_existence-ok_iff_example =
    verify_credential_existence-ok_iff verifier1 credential1

-- The proof that an empty tree does not have a nonce.
abbrev pub credential2 : CredentialValidity
credential2 = record {
  credential_existence = credential1;
  iden_state_data = data1;
  mtp_not_nonce = record {
    existence = false;
    depth = 0;
    notempties = replicate 30 0;
    siblings = [];
    node_aux = none;
  };
  claims_tree_root = tree2.root_key;
  roots_tree_root = hash_zero;
}

accepted : verify_credential_validity verifier1 credential2 100 ≡ ok tt
unfolding state1 proof1 verify_credential_validity verify_credential_existence validate_freshness
    check_not_revoked expired check_state same_data bytes_eq metadata_unmarshal header_unmarshal
    unmarshal_subject get_revocation_nonce byte2bool nth copy_at update_at write uint32_to_bytes
    bytes_to_uint32 leaf_revocations_entry root_from_proof climb next_sibling start_key
    test_bit_big_endian
accepted = refl

verify_credential_validity-ok_iff_example :
    (verify_credential_validity verifier1 credential2 100 ≡ ok tt)
    ↔ IsValid verifier1 credential2 100
verify_credential_validity-ok_iff_example =
    verify_credential_validity-ok_iff verifier1 credential2 100

credential2-IsValid : IsValid verifier1 credential2 100
credential2-IsValid = (verify_credential_validity-ok_iff verifier1 credential2 100).0 accepted

leaf_revocations_from_entry-leaf_revocations_entry_example :
    leaf_revocations_from_entry (leaf_revocations_entry (record { nonce = 7; version = 2 }))
    ≡ ok (record { nonce = 7; version = 2 })
leaf_revocations_from_entry-leaf_revocations_entry_example =
    leaf_revocations_from_entry-leaf_revocations_entry (record { nonce = 7; version = 2 })
      (omega arith) (omega arith)

-- A revocations tree with the nonce 7.
revoked : MerkleTree
unfolding tree1 add_leaf_revocations_tree leaf_revocations_entry write copy_at update_at
    uint32_to_bytes
revoked = (add_leaf_revocations_tree tree0 7 0).0

revoked_eq : add_leaf_revocations_tree tree0 7 0 ≡ (revoked, ok tt)
unfolding revoked
revoked_eq = refl

hi_of_7 :
    h_index (leaf_revocations_entry (record { nonce = 7; version = 0xffffffff })) ≡ ok (hi_of 7)
unfolding hi_of revoked
hi_of_7 = refl

get_data_by_index-add_leaf_revocations_tree_example :
    get_data_by_index revoked (hi_of 7)
    ≡ ok (leaf_revocations_entry (record { nonce = 7; version = 0 })).elems
get_data_by_index-add_leaf_revocations_tree_example =
    get_data_by_index-add_leaf_revocations_tree mixing-IsHash in_memory-IsStorage tree0 revoked
      empty 7 0 0xffffffff (hi_of 7) tree0-Holds hi_of_7 revoked_eq

proof7 : Proof
unfolding revoked hi_of proof1
proof7 = elim (generate_proof revoked (hi_of 7) none) [ ok p ↦ p | err _ ↦ proof1 | panic ↦ proof1 ]

proof7_eq : generate_proof revoked (hi_of 7) none ≡ ok proof7
unfolding proof7
proof7_eq = refl

verify_credential_validity-revoked_example :
    verify_credential_validity verifier1 (record credential2 { mtp_not_nonce = proof7 }) 100 ≢ ok tt
verify_credential_validity-revoked_example =
    verify_credential_validity-revoked mixing-IsHash in_memory-IsStorage tree0 revoked empty 7 0
      (hi_of 7) verifier1 (record credential2 { mtp_not_nonce = proof7 }) 100 tree0-Holds
      (omega arith) hi_of_7 revoked_eq proof7_eq
