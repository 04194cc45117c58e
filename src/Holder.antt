-- ===== src/Holder.antt =====
-- identity/holder/holder.go: a Holder is an Issuer that reads the public data of others. The reader,
-- which is an interface, is a field; the chain is the one that Load gives to the issuer too. Public
-- data stands in a storage of its own.
pub mod Validity
pub mod ZkProof
use go_iden3_core.Prelude.{Bool, true, false, not, Option, none, some, if◌then◌else◌, bytes_eq}
use go_iden3_core.Result.{Result, ok, err, ◌>>=◌, calculated_state_mismatch, revoked_claim}
use go_iden3_core.Common.{Bytes}
use go_iden3_core.Crypto.{Crypto}
use go_iden3_core.Db.{Storage}
use go_iden3_core.MerkleTree.Elem.{Hash, h_index}
use go_iden3_core.MerkleTree.Proof.{Proof, generate_proof}
use go_iden3_core.Identifier.{iden_state}
use go_iden3_core.Claims.{Metadata, metadata_unmarshal}
use go_iden3_core.Claims.Leaves.{leaf_revocations_entry}
use go_iden3_core.Chain.{IdenPubOnChainer}
use go_iden3_core.Verifier.{IdenStateData, CredentialExistence, CredentialValidity}
use go_iden3_core.Public.{PublicData}
use go_iden3_core.Issuer.{Issuer}

module _ (own : Storage) ⦃db : Storage⦄ ⦃chain : IdenPubOnChainer⦄ where
  pub record Holder : Type 0 where
    pub issuer : Issuer ⦃db = own⦄
    pub get_public_data : Bytes → Bytes → Option Hash → Result PublicData

module _ ⦃db : Storage⦄ where
  pub record CredentialValidityAux : Type 0 where
    pub iden_state_data : IdenStateData
    pub mtp_not_nonce : Proof
    pub claims_tree_root : Hash
    pub rev_tree_root : Hash
    pub roots_tree_root : Hash
    pub public_data : PublicData

module _ {own : Storage} ⦃db : Storage⦄ ⦃chain : IdenPubOnChainer⦄ ⦃c : Crypto⦄ where
  -- The part of HolderGetCredentialValidityData that asks for the public data.
  unfoldable pub queried_data :
      Holder own → CredentialExistence → Result (IdenStateData × PublicData)
  queried_data h cred = do
    published ← chain.get_state h.issuer.iden_pub_on_chain cred.id
    p ← h.get_public_data cred.iden_pub_url cred.id (some published.iden_state)
    s ← iden_state p.claims_tree_root p.revocations_tree.root_key p.roots_tree.root_key
    if not (bytes_eq s published.iden_state)
        then err calculated_state_mismatch
        else ok (published, p)

  -- HolderGetCredentialValidityData
  unfoldable pub holder_get_credential_validity_data :
      Holder own → CredentialExistence → Result CredentialValidityAux
  holder_get_credential_validity_data h cred = do
    (published, p) ← queried_data h cred
    m ← metadata_unmarshal cred.claim
    hi ← h_index (leaf_revocations_entry (record { nonce = m.rev_nonce; version = 0xffffffff }))
    mtp ← generate_proof p.revocations_tree hi none
    if mtp.existence
        then err revoked_claim
        else ok (record {
          iden_state_data = published;
          mtp_not_nonce = mtp;
          claims_tree_root = p.claims_tree_root;
          rev_tree_root = p.revocations_tree.root_key;
          roots_tree_root = p.roots_tree.root_key;
          public_data = p;
        })

  -- HolderGetCredentialValidity
  unfoldable pub holder_get_credential_validity :
      Holder own → CredentialExistence → Result CredentialValidity
  holder_get_credential_validity h cred = do
    aux ← holder_get_credential_validity_data h cred
    ok (record {
      credential_existence = cred;
      iden_state_data = aux.iden_state_data;
      mtp_not_nonce = aux.mtp_not_nonce;
      claims_tree_root = aux.claims_tree_root;
      roots_tree_root = aux.roots_tree_root;
    })
