-- ===== src/Verifier/Valid.antt =====
-- VerifyCredentialValidity accepts what is valid.
use go_iden3_core.Prelude.{
  ℕ, ◌+◌, ◌*◌, ◌<◌, ◌≡◌, ◌⊎◌, ◌↔◌, inl, inr, refl, ap, ◌∙◌, true, Bool-cases, ltb, lt→ltb, bytes_eq,
  bytes_eq_refl,
}
use go_iden3_core.Result.{ok}
use go_iden3_core.Common.{Bytes}
use go_iden3_core.Crypto.{Crypto}
use go_iden3_core.MerkleTree.Elem.{Hash}
use go_iden3_core.Verifier.{
  IdenStateData, CredentialValidity, Verifier, second, validate_freshness, check_not_revoked,
  verify_credential_validity,
}
use go_iden3_core.Verifier.Credential.{
  IsValid, check_state-Published, verify_credential_existence-ok_iff,
  verify_credential_validity-IsValid,
}

fresh-validate_freshness :
    (v : Verifier) (id : Bytes) (state : Hash) (block_ts freshness : ℕ)
    → (v.time_now < block_ts * second + freshness)
      ⊎ ((last : IdenStateData) × (v.get_state id ≡ ok last) × (last.iden_state ≡ state))
    → validate_freshness v id state block_ts freshness ≡ ok tt
unfolding validate_freshness
fresh-validate_freshness v id state block_ts freshness (inl recent) = rw (lt→ltb _ _ recent) refl
fresh-validate_freshness v id state block_ts freshness (inr (last, found, same)) =
    elim (Bool-cases (ltb v.time_now (block_ts * second + freshness))) [
      | inl recent ↦ rw recent refl
      | inr old ↦
          let equal : bytes_eq last.iden_state state ≡ true =
            ap (λ x. bytes_eq x state) same ∙ bytes_eq_refl state in
          simp (old, found, equal)
    ]

module _ ⦃c : Crypto⦄ where
  pub IsValid-verify_credential_validity :
      (v : Verifier) (cred : CredentialValidity) (freshness : ℕ)
      → IsValid v cred freshness
      → verify_credential_validity v cred freshness ≡ ok tt
  unfolding verify_credential_validity check_not_revoked
  IsValid-verify_credential_validity v cred freshness i =
      let (hi, hv, root, hashed, climbed, stated) = i.not_revoked in
      simp
        (
          i.metadata_eq,
          i.not_expired,
          (verify_credential_existence-ok_iff v cred.credential_existence).1 i.issued,
          i.absent,
          fresh-validate_freshness v cred.credential_existence.id cred.iden_state_data.iden_state
              cred.iden_state_data.block_ts freshness i.fresh,
          i.nonce_eq,
          hashed,
          climbed,
          stated,
        )
        (check_state-Published v cred.credential_existence.id cred.iden_state_data i.published)

  -- VerifyCredentialValidity accepts a credential exactly if its claim has not expired and its
  -- credential of existence is issued, its second proof is one of non-existence, which leads from
  -- the revocation leaf of the claim's nonce to a root that hashes, with the two other roots, to a
  -- state published in its block, and that state is younger than the freshness or the last one of
  -- the identity.
  pub verify_credential_validity-ok_iff :
      (v : Verifier) (cred : CredentialValidity) (freshness : ℕ)
      → (verify_credential_validity v cred freshness ≡ ok tt) ↔ IsValid v cred freshness
  verify_credential_validity-ok_iff v cred freshness = (
    verify_credential_validity-IsValid v cred freshness,
    IsValid-verify_credential_validity v cred freshness,
  )
