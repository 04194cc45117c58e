-- ===== src/Holder/ZkProof.antt =====
-- HolderGetCredentialProofInputs and HolderGenZkProofCredential of identity/holder/holder.go. The files
-- of the circuit, the map of its inputs, the calculation of the witness, the prover and its verifier
-- are parameters.
use go_iden3_core.Prelude.{
  ℕ, ◌+◌, Bool, not, Option, none, some, List, map, ◌==◌, if◌then◌else◌, length,
}
use go_iden3_core.Result.{
  Result, ok, err, ◌>>=◌, root_not_found, too_many_siblings, failed_verify_credential,
}
use go_iden3_core.Common.{Bytes}
use go_iden3_core.Crypto.{Crypto}
use go_iden3_core.Db.{Storage}
use go_iden3_core.MerkleTree.Elem.{h_index, h_value, big_int}
use go_iden3_core.MerkleTree.Proof.{
  Proof, NodeAux, generate_proof, root_from_proof, all_siblings_circom,
}
use go_iden3_core.Claims.Leaves.{leaf_roots_entry}
use go_iden3_core.Chain.{IdenPubOnChainer}
use go_iden3_core.Verifier.{CredentialExistence}
use go_iden3_core.Issuer.{IssuerJson}
use go_iden3_core.Issuer.Publish.{
  Services, IdOwnershipGenesisInputs, gen_id_ownership_genesis_inputs,
}
use go_iden3_core.Holder.{Holder, CredentialValidityAux, holder_get_credential_validity_data}

pub record CredentialProofInputs : Type 0 where
  pub claim : List ℕ
  pub private_key : ℕ
  pub claim_kop_mtp : List ℕ
  pub claim_kop_claims_tree_root : ℕ
  pub cred_exist_mtp : List ℕ
  pub cred_exist_claims_tree_root : ℕ
  pub cred_valid_not_rev_mtp : List ℕ
  pub cred_valid_not_rev_mtp_no_aux : ℕ
  pub cred_valid_not_rev_mtp_aux_hi : ℕ
  pub cred_valid_not_rev_mtp_aux_hv : ℕ
  pub cred_valid_claims_tree_root : ℕ
  pub cred_valid_rev_tree_root : ℕ
  pub cred_valid_roots_tree_root : ℕ
  pub cred_valid_root_mtp : List ℕ
  pub iden_state : ℕ

pub record ZkProofCredOut (ZkProof : Type 0) : Type 0 where
  pub proof : ZkProof
  pub pub_signals : List ℕ
  pub issuer_id : Bytes
  pub iden_state_block_n : ℕ

-- The three inputs on the node beside the path: whether there is none, its index, its value.
unfoldable pub aux_inputs : Option NodeAux → ℕ × ℕ × ℕ
aux_inputs none = (1, 0, 0)
aux_inputs (some aux) = (0, big_int aux.h_index, big_int aux.h_value)

-- The siblings of a proof, if they are as many as the circuit has.
unfoldable pub circom_siblings : Proof → ℕ → Result (List ℕ)
circom_siblings p levels = do
  siblings ← all_siblings_circom p levels
  if not (length siblings == levels + 1) then err too_many_siblings else ok siblings

-- What HolderGenZkProofCredential calls that is not in the repository.
pub record Circuit (ZkProof : Type 0) : Type 1 where
  pub Pk : Type 0
  pub Vk : Type 0
  pub Wasm : Type 0
  pub Inputs : Type 0
  pub Witness : Type 0
  pub proving_key : Result Pk
  pub verification_key : Result Vk
  pub witness_calc_wasm : Result Wasm
  pub decode : CredentialProofInputs → Result Inputs
  pub delete_claim : Inputs → Inputs
  pub calculate_witness : Wasm → Inputs → Result Witness
  pub generate_zk_proof : Pk → Witness → Result (ZkProof × List ℕ)
  pub verify : Vk → ZkProof → List ℕ → Bool

module _ ⦃db : Storage⦄ ⦃c : Crypto⦄ where
  -- HolderGetCredentialProofInputs
  unfoldable pub holder_get_credential_proof_inputs :
      IdOwnershipGenesisInputs
      → CredentialExistence
      → CredentialValidityAux
      → (issuer_levels : ℕ) → Result CredentialProofInputs
  holder_get_credential_proof_inputs own_inputs cred aux issuer_levels = do
    hi ← h_index cred.claim
    hv ← h_value cred.claim
    exist_root ← root_from_proof cred.mtp_claim hi hv
    root_hi ← h_index (leaf_roots_entry exist_root)
    mtp_root ← generate_proof aux.public_data.roots_tree root_hi none
    if not mtp_root.existence then err root_not_found else do
      let (no_aux, aux_hi, aux_hv) = aux_inputs aux.mtp_not_nonce.node_aux
      cred_exist_mtp ← circom_siblings cred.mtp_claim issuer_levels
      cred_valid_not_rev_mtp ← circom_siblings aux.mtp_not_nonce issuer_levels
      cred_valid_root_mtp ← circom_siblings mtp_root issuer_levels
      ok (record {
        claim = map big_int cred.claim.elems;
        private_key = own_inputs.private_key;
        claim_kop_mtp = own_inputs.mtp_siblings;
        claim_kop_claims_tree_root = own_inputs.claims_tree_root;
        cred_exist_mtp = cred_exist_mtp;
        cred_exist_claims_tree_root = big_int exist_root;
        cred_valid_not_rev_mtp = cred_valid_not_rev_mtp;
        cred_valid_not_rev_mtp_no_aux = no_aux;
        cred_valid_not_rev_mtp_aux_hi = aux_hi;
        cred_valid_not_rev_mtp_aux_hv = aux_hv;
        cred_valid_claims_tree_root = big_int aux.claims_tree_root;
        cred_valid_rev_tree_root = big_int aux.rev_tree_root;
        cred_valid_roots_tree_root = big_int aux.roots_tree_root;
        cred_valid_root_mtp = cred_valid_root_mtp;
        iden_state = big_int aux.iden_state_data.iden_state;
      })

module _ {own : Storage} ⦃db : Storage⦄ ⦃chain : IdenPubOnChainer⦄
    ⦃json : IssuerJson chain.Transaction⦄ ⦃c : Crypto⦄ (services : Services own chain)
    {ZkProof : Type 0} (circuit : Circuit ZkProof) where
  -- HolderGenZkProofCredential; what the issuer's method leaves of its issuer is the issuer itself.
  unfoldable pub holder_gen_zk_proof_credential :
      Holder own
      → CredentialExistence
      → (add_inputs : circuit.Inputs → Result circuit.Inputs)
      → (id_ownership_levels issuer_levels : ℕ) → Result (ZkProofCredOut ZkProof)
  holder_gen_zk_proof_credential h cred add_inputs id_ownership_levels issuer_levels = do
    pk ← circuit.proving_key
    vk ← circuit.verification_key
    wasm ← circuit.witness_calc_wasm
    own_inputs ←
        (gen_id_ownership_genesis_inputs ⦃db = own⦄ services id_ownership_levels h.issuer).1
    aux ← holder_get_credential_validity_data h cred
    proof_inputs ← holder_get_credential_proof_inputs own_inputs cred aux issuer_levels
    all_inputs ← circuit.decode proof_inputs
    inputs ← add_inputs (circuit.delete_claim all_inputs)
    wit ← circuit.calculate_witness wasm inputs
    (zk_proof, pub_signals) ← circuit.generate_zk_proof pk wit
    if not (circuit.verify vk zk_proof pub_signals)
        then err failed_verify_credential
        else ok (record {
          proof = zk_proof;
          pub_signals = pub_signals;
          issuer_id = cred.id;
          iden_state_block_n = aux.iden_state_data.block_n;
        })
