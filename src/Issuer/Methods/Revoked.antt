-- ===== src/Issuer/Methods/Revoked.antt =====
-- RevokeClaim, and the credentials of the revoked claim; IssueClaim, and the claim it adds.
use go_iden3_core.Prelude.{ℕ, ◌≡◌, ◌≢◌, ◌≤◌, sym, ap, ◌∙◌, none}
use go_iden3_core.Result.{ok, ok-injective}
use go_iden3_core.Action.{lift-eq-ok, current-eq-ok, within-eq-ok, guard-eq-ok}
use go_iden3_core.Crypto.{Crypto, IsHash}
use go_iden3_core.Db.{Storage, IsStorage}
use go_iden3_core.MerkleTree.Elem.{Hash, Entry, h_index}
use go_iden3_core.MerkleTree.{MerkleTree, get_data_by_index}
use go_iden3_core.MerkleTree.Spec.{Tree}
use go_iden3_core.MerkleTree.AddEntry.{Holds}
use go_iden3_core.MerkleTree.Proof.{generate_proof}
use go_iden3_core.Claims.{get_revocation_nonce}
use go_iden3_core.Claims.Leaves.{leaf_revocations_entry, add_leaf_revocations_tree}
use go_iden3_core.Verifier.{Verifier, CredentialValidity, verify_credential_validity}
use go_iden3_core.Verifier.Issued.{verify_credential_validity-revoked}
use go_iden3_core.Chain.{IdenPubOnChainer}
use go_iden3_core.Issuer.{Issuer}
use go_iden3_core.Issuer.Methods.{revoke_claim, in_revocations_tree}

module _ ⦃db : Storage⦄ ⦃chain : IdenPubOnChainer⦄ ⦃c : Crypto⦄ where
  -- A revocation that succeeds adds the nonce of the claim that the claims tree has at the index.
  pub revoke_claim-ok :
      (is is' : Issuer) (e : Entry)
      → revoke_claim e is ≡ (is', ok tt)
      → (hi : Hash) × (h_index e ≡ ok hi)
        × (claim : Entry) × (get_data_by_index is.claims_tree hi ≡ ok claim.elems)
        × (nonce : ℕ) × (get_revocation_nonce claim ≡ ok nonce)
        × (add_leaf_revocations_tree is.revocations_tree nonce 0xffffffff
            ≡ (is'.revocations_tree, ok tt))
  unfolding revoke_claim in_revocations_tree
  revoke_claim-ok is is' e h =
      let h0 = guard-eq-ok is.cfg.genesis_only _ _ is is' (current-eq-ok _ is is' h) in
      let (hi, hashed, h1) = lift-eq-ok (h_index e) _ is is' h0.1 in
      let (d, found, h2) = lift-eq-ok (get_data_by_index is.claims_tree hi) _ is is' h1 in
      let (nonce, read, h3) =
        lift-eq-ok (get_revocation_nonce (record { elems = d })) _ is is' h2 in
      let (mt, added, same) =
        within-eq-ok (λ x. x.revocations_tree) _
          (λ (mt : MerkleTree). add_leaf_revocations_tree mt nonce 0xffffffff) is is' h3 in
      (
        hi,
        hashed,
        record { elems = d },
        found,
        nonce,
        read,
        added ∙ ap (λ (x : Issuer). (x.revocations_tree, ok tt)) same,
      )

  module _ (hashes : IsHash c) (laws : IsStorage db) where
    -- If the hash and the storage keep their laws, the nodes of the revocations tree are those of
    -- an abstract tree of at most 240 levels, the claims tree gives the claim at its index, and
    -- RevokeClaim of the claim succeeds, then VerifyCredentialValidity does not accept a
    -- credential of the claim whose second proof is the one that GenerateProof then returns for
    -- the claim's nonce.
    pub verify_credential_validity-revoke_claim :
        (is is' : Issuer) (t : Tree) (hi hi_nonce : Hash) (nonce : ℕ) (v : Verifier)
        (cred : CredentialValidity) (freshness : ℕ)
        → Holds is.revocations_tree t
        → is.revocations_tree.max_levels ≤ 240
        → h_index cred.credential_existence.claim ≡ ok hi
        → get_data_by_index is.claims_tree hi ≡ ok cred.credential_existence.claim.elems
        → revoke_claim cred.credential_existence.claim is ≡ (is', ok tt)
        → get_revocation_nonce cred.credential_existence.claim ≡ ok nonce
        → h_index (leaf_revocations_entry (record { nonce = nonce; version = 0xffffffff }))
          ≡ ok hi_nonce
        → generate_proof is'.revocations_tree hi_nonce none ≡ ok cred.mtp_not_nonce
        → verify_credential_validity v cred freshness ≢ ok tt
    verify_credential_validity-revoke_claim is is' t hi hi_nonce nonce v cred freshness held low
          hashed found done read nonce_hashed made =
        let claim = cred.credential_existence.claim in
        let (hi1, hashed1, e1, found1, nonce1, read1, added) = revoke_claim-ok is is' claim done in
        let same_hi : hi1 ≡ hi = ok-injective (sym hashed1 ∙ hashed) in
        let same_data : e1.elems ≡ claim.elems =
          ok-injective (sym found1 ∙ ap (get_data_by_index is.claims_tree) same_hi ∙ found) in
        let same_entry : e1 ≡ claim = λ i. record { elems = same_data i } in
        let same_nonce : nonce1 ≡ nonce =
          ok-injective (sym read1 ∙ ap get_revocation_nonce same_entry ∙ read) in
        verify_credential_validity-revoked hashes laws is.revocations_tree is'.revocations_tree t
          nonce 0xffffffff hi_nonce v cred freshness held low nonce_hashed
          (ap (λ n. add_leaf_revocations_tree is.revocations_tree n 0xffffffff) (sym same_nonce)
            ∙ added)
          made
