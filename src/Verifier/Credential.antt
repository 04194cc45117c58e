-- ===== src/Verifier/Credential.antt =====
-- What VerifyCredentialExistence and VerifyCredentialValidity accept.
use go_iden3_core.Prelude.{
  ℕ, ◌+◌, ◌*◌, ◌≡◌, ◌<◌, ◌↔◌, ◌⊎◌, inl, inr, refl, ap, ◌∙◌, true, false, arith, ltb, ==_iff,
  bytes_eq, bytes_eq→eq, bytes_eq_refl, bytes_eq_iff, Bool-cases,
}
use go_iden3_core.Result.{Result, ok, >>=-eq-ok}
use go_iden3_core.Common.{Bytes}
use go_iden3_core.Crypto.{Crypto}
use go_iden3_core.MerkleTree.Elem.{Hash, Entry, hi_hv}
use go_iden3_core.MerkleTree.Proof.{Proof, root_from_proof}
use go_iden3_core.Identifier.{iden_state}
use go_iden3_core.Claims.{Metadata, metadata_unmarshal, get_revocation_nonce}
use go_iden3_core.Claims.Leaves.{leaf_revocations_entry}
use go_iden3_core.Verifier.{
  IdenStateData, CredentialExistence, CredentialValidity, Verifier, second, same_data, check_state,
  validate_freshness, verify_credential_existence, check_not_revoked, expired,
  verify_credential_validity,
}

same_data_sound : (a b : IdenStateData) → same_data a b ≡ true → a ≡ b
unfolding same_data
same_data_sound a b h =
    let ts : a.block_ts ≡ b.block_ts = ground (arith, ==_iff a.block_ts b.block_ts) in
    let n : a.block_n ≡ b.block_n = ground (arith, ==_iff a.block_n b.block_n) in
    let s : a.iden_state ≡ b.iden_state = ground (arith, bytes_eq_iff a.iden_state b.iden_state) in
    λ i. record { block_ts = ts i; block_n = n i; iden_state = s i }

same_data_refl : (a : IdenStateData) → same_data a a ≡ true
unfolding same_data
same_data_refl a = ground (arith, bytes_eq_refl a.iden_state)

-- The state was published on the chain, in its block.
abbrev pub Published : Verifier → Bytes → IdenStateData → Type 0
Published v id published = v.get_state_by_block id published.block_n ≡ ok published

pub check_state-ok :
    (v : Verifier) (id : Bytes) (calculated : Hash) (published : IdenStateData)
    → check_state v id calculated published ≡ ok tt
    → (calculated ≡ published.iden_state) × Published v id published
unfolding check_state
check_state-ok v id calculated published h =
    elim (Bool-cases (bytes_eq calculated published.iden_state)) [
      | inr other ↦ cc (rw other at h)
      | inl same ↦
          let (on_chain, found, h1) =
            >>=-eq-ok (v.get_state_by_block id published.block_n) _ (rw same at h) in
          elim (Bool-cases (same_data on_chain published)) [
            | inr other ↦ cc (rw other at h1)
            | inl equal ↦
                (bytes_eq→eq _ _ same, found ∙ ap ok (same_data_sound on_chain published equal))
          ]
    ]

pub check_state-Published :
    (v : Verifier) (id : Bytes) (published : IdenStateData)
    → Published v id published
    → check_state v id published.iden_state published ≡ ok tt
unfolding check_state
check_state-Published v id published h =
    rw (bytes_eq_refl published.iden_state, h, same_data_refl published) refl

pub validate_freshness-ok :
    (v : Verifier) (id : Bytes) (state : Hash) (block_ts freshness : ℕ)
    → validate_freshness v id state block_ts freshness ≡ ok tt
    → (v.time_now < block_ts * second + freshness)
      ⊎ ((last : IdenStateData) × (v.get_state id ≡ ok last) × (last.iden_state ≡ state))
unfolding validate_freshness
validate_freshness-ok v id state block_ts freshness h =
    elim (Bool-cases (ltb v.time_now (block_ts * second + freshness))) [
      | inl recent ↦ inl (ground arith)
      | inr old ↦
          let (last, found, h1) = >>=-eq-ok (v.get_state id) _ (rw old at h) in
          elim (Bool-cases (bytes_eq last.iden_state state)) [
            | inr other ↦ cc (rw other at h1)
            | inl same ↦ inr (last, found, bytes_eq→eq _ _ same)
          ]
    ]

module _ ⦃c : Crypto⦄ where
  -- The proof leads from an entry to a root which, hashed with two others, gives a state.
  abbrev pub LeadsTo : Proof → Entry → (Hash → Result Hash) → Hash → Type 0
  LeadsTo p e state_of state =
      (hi : Hash) × (hv : Hash) × (root : Hash) × (hi_hv e ≡ ok (hi, hv))
      × (root_from_proof p hi hv ≡ ok root)
      × (state_of root ≡ ok state)

  -- The claim was in the claims tree of a published state.
  abbrev pub IsIssued : Verifier → CredentialExistence → Type 0
  IsIssued v cred =
      (cred.mtp_claim.existence ≡ true)
      × LeadsTo cred.mtp_claim cred.claim
          (λ root. iden_state root cred.revocations_tree_root cred.roots_tree_root)
          cred.iden_state_data.iden_state
      × Published v cred.id cred.iden_state_data

  existence-IsIssued :
      (v : Verifier) (cred : CredentialExistence)
      → verify_credential_existence v cred ≡ ok tt
      → IsIssued v cred
  unfolding verify_credential_existence
  existence-IsIssued v cred h = elim (Bool-cases cred.mtp_claim.existence) [
    | inr absent ↦ cc (simp absent at h)
    | inl present ↦
        let ((hi, hv), hashed, h1) = >>=-eq-ok (hi_hv cred.claim) _ (simp present at h) in
        let (root, climbed, h2) = >>=-eq-ok (root_from_proof cred.mtp_claim hi hv) _ h1 in
        let (state, stated, h3) =
          >>=-eq-ok (iden_state root cred.revocations_tree_root cred.roots_tree_root) _ h2 in
        let (same, published) = check_state-ok v cred.id state cred.iden_state_data h3 in
        (present, (hi, hv, root, hashed, climbed, stated ∙ ap ok same), published)
  ]

  IsIssued-existence :
      (v : Verifier) (cred : CredentialExistence)
      → IsIssued v cred
      → verify_credential_existence v cred ≡ ok tt
  unfolding verify_credential_existence
  IsIssued-existence v cred (present, (hi, hv, root, hashed, climbed, stated), published) =
      simp (present, hashed, climbed, stated)
        (check_state-Published v cred.id cred.iden_state_data published)

  -- VerifyCredentialExistence accepts a credential exactly if its proof is one of existence that
  -- leads from its claim to a root which hashes, with the other two roots, to its state, and the
  -- chain gives that state data for its block.
  pub verify_credential_existence-ok_iff :
      (v : Verifier) (cred : CredentialExistence)
      → (verify_credential_existence v cred ≡ ok tt) ↔ IsIssued v cred
  verify_credential_existence-ok_iff v cred = (existence-IsIssued v cred, IsIssued-existence v cred)

  -- The claim has not expired and was issued, and a fresh published state does not revoke it.
  pub record IsValid (v : Verifier) (cred : CredentialValidity) (freshness : ℕ) : Type 0 where
    pub metadata : Metadata
    pub metadata_eq : metadata_unmarshal cred.credential_existence.claim ≡ ok metadata
    pub not_expired : expired metadata v.time_now ≡ false
    pub issued : IsIssued v cred.credential_existence
    pub absent : cred.mtp_not_nonce.existence ≡ false
    pub nonce : ℕ
    pub nonce_eq : get_revocation_nonce cred.credential_existence.claim ≡ ok nonce
    pub not_revoked :
        LeadsTo cred.mtp_not_nonce
          (leaf_revocations_entry (record { nonce = nonce; version = 0xffffffff }))
          (λ root. iden_state cred.claims_tree_root root cred.roots_tree_root)
          cred.iden_state_data.iden_state
    pub published : Published v cred.credential_existence.id cred.iden_state_data
    pub fresh :
        (v.time_now < cred.iden_state_data.block_ts * second + freshness)
        ⊎ ((last : IdenStateData) × (v.get_state cred.credential_existence.id ≡ ok last)
            × (last.iden_state ≡ cred.iden_state_data.iden_state))

  check_not_revoked-ok :
      (v : Verifier) (cred : CredentialValidity)
      → check_not_revoked v cred ≡ ok tt
      → (nonce : ℕ) × (get_revocation_nonce cred.credential_existence.claim ≡ ok nonce)
        × LeadsTo cred.mtp_not_nonce
            (leaf_revocations_entry (record { nonce = nonce; version = 0xffffffff }))
            (λ root. iden_state cred.claims_tree_root root cred.roots_tree_root)
            cred.iden_state_data.iden_state
        × Published v cred.credential_existence.id cred.iden_state_data
  unfolding check_not_revoked
  check_not_revoked-ok v cred h =
      let (nonce, read, h1) =
        >>=-eq-ok (get_revocation_nonce cred.credential_existence.claim) _ h in
      let ((hi, hv), hashed, h2) = >>=-eq-ok (hi_hv _) _ h1 in
      let (root, climbed, h3) = >>=-eq-ok (root_from_proof cred.mtp_not_nonce hi hv) _ h2 in
      let (state, stated, h4) =
        >>=-eq-ok (iden_state cred.claims_tree_root root cred.roots_tree_root) _ h3 in
      let (same, published) =
        check_state-ok v cred.credential_existence.id state cred.iden_state_data h4 in
      (nonce, read, (hi, hv, root, hashed, climbed, stated ∙ ap ok same), published)

  -- What VerifyCredentialValidity accepts is a claim that has not expired and whose credential of
  -- existence is issued; its second proof is one of non-existence, which leads from the revocation
  -- leaf of the claim's nonce to a root that hashes to a state published in its block, and that
  -- state is younger than the freshness or the last one of the identity.
  pub verify_credential_validity-IsValid :
      (v : Verifier) (cred : CredentialValidity) (freshness : ℕ)
      → verify_credential_validity v cred freshness ≡ ok tt
      → IsValid v cred freshness
  unfolding verify_credential_validity
  verify_credential_validity-IsValid v cred freshness h =
      let (m, read, h1) = >>=-eq-ok (metadata_unmarshal cred.credential_existence.claim) _ h in
      elim (Bool-cases (expired m v.time_now)) [
        | inl over ↦ cc (rw over at h1)
        | inr valid ↦
            let (_, issued, h2) =
              >>=-eq-ok (verify_credential_existence v cred.credential_existence) _
                (rw valid at h1) in
            elim (Bool-cases cred.mtp_not_nonce.existence) [
              | inl revoked ↦ cc (simp revoked at h2)
              | inr absent ↦
                  let (_, fresh, h3) =
                    >>=-eq-ok (validate_freshness v _ _ _ freshness) _ (simp absent at h2) in
                  let (nonce, nonce_read, leads, published) = check_not_revoked-ok v cred h3 in
                  record {
                    metadata = m;
                    metadata_eq = read;
                    not_expired = valid;
                    issued = existence-IsIssued v cred.credential_existence issued;
                    absent = absent;
                    nonce = nonce;
                    nonce_eq = nonce_read;
                    not_revoked = leads;
                    published = published;
                    fresh = validate_freshness-ok v _ _ _ freshness fresh;
                  }
            ]
      ]
