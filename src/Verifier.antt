-- ===== src/Verifier.antt =====
-- components/verifier/verifier.go and core/proof/proof.go: credentials and their verification
-- against the states that are published on the chain. The chain, the clock and the check of a
-- zero-knowledge proof are parameters. Times are nanoseconds since 1970, and a duration is not
-- negative; the clock does not move during a call; a block's time is a number of seconds that `time.Unix` can represent.
pub mod Credential
pub mod Issued
pub mod Valid
use go_iden3_core.Prelude.{
  ℕ, ◌+◌, ◌*◌, ◌-◌, ◌^◌, ◌≡◌, Bool, true, false, not, ◌&&◌, List, [], ◌∷◌, ltb, ◌==◌, if◌then◌else◌,
  get_elem?, bytes_eq,
}
use go_iden3_core.Result.{
  Result, ok, err, panic, ◌>>=◌, or_panic, iden_state_on_chain_doesnt_match, mtp_non_existence,
  mtp_existence, claim_expired, calculated_iden_state_doesnt_match, outdated_credential,
  failed_verify_zk_proof,
}
use go_iden3_core.Common.{Bytes}
use go_iden3_core.Crypto.{Crypto}
use go_iden3_core.MerkleTree.Elem.{Hash, Entry, hi_hv, new_elem_bytes_from_big_int}
use go_iden3_core.MerkleTree.Proof.{Proof, root_from_proof}
use go_iden3_core.Identifier.{iden_state}
use go_iden3_core.Claims.{Metadata, metadata_unmarshal, get_revocation_nonce}
use go_iden3_core.Claims.Leaves.{leaf_revocations_entry}

pub record IdenStateData : Type 0 where
  pub block_ts : ℕ
  pub block_n : ℕ
  pub iden_state : Hash

pub record CredentialExistence : Type 0 where
  pub id : Bytes
  pub iden_pub_url : Bytes
  pub iden_state_data : IdenStateData
  pub mtp_claim : Proof
  pub claim : Entry
  pub revocations_tree_root : Hash
  pub roots_tree_root : Hash

pub record CredentialValidity : Type 0 where
  pub credential_existence : CredentialExistence
  pub iden_state_data : IdenStateData
  pub mtp_not_nonce : Proof
  pub claims_tree_root : Hash
  pub roots_tree_root : Hash

-- The part of IdenPubOnChainer that the verifier calls, and the clock.
pub record Verifier : Type 0 where
  pub get_state : Bytes → Result IdenStateData
  pub get_state_by_block : Bytes → ℕ → Result IdenStateData
  pub time_now : ℕ

abbrev pub second : ℕ
second = 10 ^ 9

-- `reflect.DeepEqual` of two IdenStateData.
unfoldable pub same_data : IdenStateData → IdenStateData → Bool
same_data a b =
    a.block_ts == b.block_ts && a.block_n == b.block_n && bytes_eq a.iden_state b.iden_state

-- `time.Unix(e, 0).Before(now)` for the 64-bit pattern `e` of an `int64`: `time.Unix` adds the
-- seconds from the year 1 to 1970, and a sum beyond 2^63 wraps around into the past.
unfoldable pub before_now : ℕ → ℕ → Bool
before_now e now = if ltb e (2 ^ 63 - 62135596800) then ltb (e * second) now else true

-- The checks of a calculated state that both verifications end with.
unfoldable pub check_state : Verifier → Bytes → Hash → IdenStateData → Result (Unit {0})
check_state v id calculated published =
    if not (bytes_eq calculated published.iden_state)
    then err calculated_iden_state_doesnt_match
    else do
      on_chain ← v.get_state_by_block id published.block_n
      if not (same_data on_chain published) then err iden_state_on_chain_doesnt_match else ok tt

-- validateFreshness
unfoldable pub validate_freshness : Verifier → Bytes → Hash → ℕ → ℕ → Result (Unit {0})
validate_freshness v id state block_ts freshness =
    if ltb v.time_now (block_ts * second + freshness) then ok tt else do
      last ← v.get_state id
      if not (bytes_eq last.iden_state state) then err outdated_credential else ok tt

module _ ⦃c : Crypto⦄ where
  -- VerifyCredentialExistence
  unfoldable pub verify_credential_existence : Verifier → CredentialExistence → Result (Unit {0})
  verify_credential_existence v cred =
      if not cred.mtp_claim.existence then err mtp_non_existence else do
        (hi, hv) ← hi_hv cred.claim
        claims_root ← root_from_proof cred.mtp_claim hi hv
        state ← iden_state claims_root cred.revocations_tree_root cred.roots_tree_root
        check_state v cred.id state cred.iden_state_data

  -- The proof that the nonce is not revoked, and the state that it is part of.
  unfoldable pub check_not_revoked : Verifier → CredentialValidity → Result (Unit {0})
  check_not_revoked v cred = do
    nonce ← get_revocation_nonce cred.credential_existence.claim
    (hi, hv) ← hi_hv (leaf_revocations_entry (record { nonce = nonce; version = 0xffffffff }))
    revocations_root ← root_from_proof cred.mtp_not_nonce hi hv
    state ← iden_state cred.claims_tree_root revocations_root cred.roots_tree_root
    check_state v cred.credential_existence.id state cred.iden_state_data

  -- The test of the expiration.
  unfoldable pub expired : Metadata → ℕ → Bool
  expired m now = m.header.expiration && before_now m.expiration now

  -- VerifyCredentialValidity
  unfoldable pub verify_credential_validity :
      Verifier → CredentialValidity → (freshness : ℕ) → Result (Unit {0})
  verify_credential_validity v cred freshness = do
    m ← metadata_unmarshal cred.credential_existence.claim
    if expired m v.time_now then err claim_expired else do
      _ ← verify_credential_existence v cred.credential_existence
      if cred.mtp_not_nonce.existence then err mtp_existence else do
        _ ←
            validate_freshness v cred.credential_existence.id cred.iden_state_data.iden_state
              cred.iden_state_data.block_ts freshness
        check_not_revoked v cred

-- The zero-knowledge verifier and the verification key of the files, which are not in the repository.
module _ {Vk ZkProof : Type 0} (verification_key : Result Vk)
    (verify : Vk → ZkProof → List ℕ → Bool) where
  -- VerifyZkProofCredential
  unfoldable pub verify_zk_proof_credential :
      Verifier → ZkProof → List ℕ → Bytes → ℕ → (freshness : ℕ) → Result (Unit {0})
  verify_zk_proof_credential v zk_proof pub_signals issuer_id block_n freshness = do
    vk ← verification_key
    if not (verify vk zk_proof pub_signals) then err failed_verify_zk_proof else do
      signal ← or_panic (get_elem? pub_signals 0)
      let state = new_elem_bytes_from_big_int signal
      on_chain ← v.get_state_by_block issuer_id block_n
      if not (on_chain.block_n == block_n && bytes_eq on_chain.iden_state state)
          then err iden_state_on_chain_doesnt_match
          else validate_freshness v issuer_id state on_chain.block_ts freshness
