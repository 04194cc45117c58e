-- ===== src/Issuer/Credential.antt =====
-- identity/issuer/issuer.go: GenCredentialExistence. The URL of the public data is not modelled.
pub mod Accepted
use go_iden3_core.Prelude.{Bool, true, false, not, none, some, if◌then◌else◌}
use go_iden3_core.Result.{
  Result, ok, err, panic, ◌>>=◌, iden_genesis_only, iden_state_on_chain_zero,
  claim_not_found_state_on_chain, claim_not_found_claims_tree, claim_not_yet_in_on_chain_state,
}
use go_iden3_core.Crypto.{Crypto}
use go_iden3_core.Db.{Storage}
use go_iden3_core.MerkleTree.Elem.{Hash, Entry, h_index}
use go_iden3_core.MerkleTree.{MerkleTree, entry_exists}
use go_iden3_core.MerkleTree.Proof.{Proof, generate_proof}
use go_iden3_core.Verifier.{CredentialExistence}
use go_iden3_core.Chain.{IdenPubOnChainer}
use go_iden3_core.Issuer.{Issuer, IssuerJson, is_zero, iden_state_on_chain}
use go_iden3_core.Issuer.Lookups.{get_iden_state_tree_roots}

-- An error of EntryExists is replaced by one of the issuer's.
not_in_tree : Result (Unit {0}) → Result (Unit {0})
not_in_tree (ok _) = ok tt
not_in_tree (err _) = err claim_not_found_claims_tree
not_in_tree panic = panic

module _ ⦃db : Storage⦄ ⦃c : Crypto⦄ where
  -- generateExistenceMTProof
  unfoldable pub generate_existence_mt_proof : MerkleTree → (hi root : Hash) → Result Proof
  generate_existence_mt_proof mt hi root = do
    mtp ← generate_proof mt hi (some root)
    if not mtp.existence then err claim_not_found_state_on_chain else ok mtp

  -- The proof of a claim under a root of the claims tree, or why there is none.
  unfoldable pub claim_proof : MerkleTree → Entry → (hi root : Hash) → Result Proof
  unfolding not_in_tree
  claim_proof mt e hi root = elim (generate_existence_mt_proof mt hi root) [
    | ok mtp ↦ do _ ← not_in_tree (entry_exists mt e (some root)); ok mtp
    | err _ ↦ do _ ← not_in_tree (entry_exists mt e none); err claim_not_yet_in_on_chain_state
    | panic ↦ panic
  ]

module _ ⦃db : Storage⦄ ⦃chain : IdenPubOnChainer⦄ ⦃json : IssuerJson chain.Transaction⦄
    ⦃c : Crypto⦄ where
  -- GenCredentialExistence, which changes nothing.
  unfoldable pub gen_credential_existence : Issuer → Entry → Result CredentialExistence
  gen_credential_existence is e = if is.cfg.genesis_only then err iden_genesis_only else do
    tx ← db.new_tx is.storage
    if is_zero (iden_state_on_chain is) then err iden_state_on_chain_zero else do
      roots ← get_iden_state_tree_roots is tx (iden_state_on_chain is)
      hi ← h_index e
      mtp ← claim_proof is.claims_tree e hi roots.claims_tree_root
      ok (record {
        id = is.id;
        iden_pub_url = is.iden_pub_url;
        iden_state_data = is.iden_state_data_on_chain;
        mtp_claim = mtp;
        claim = e;
        revocations_tree_root = roots.revocations_tree_root;
        roots_tree_root = roots.roots_tree_root;
      })
