-- ===== src/Verifier/Issued.antt =====
-- The credentials that the trees of an issuer give: accepted for a claim in the claims tree, and
-- refused once the nonce is in the revocations tree.
use go_iden3_core.Prelude.{ℕ, ◌≡◌, ◌≢◌, ◌≤◌, refl, sym, ap, ◌∙◌, true, none, inl, inr, arith}
use go_iden3_core.Result.{ok, ok-injective}
use go_iden3_core.Crypto.{Crypto, IsHash}
use go_iden3_core.Db.{Storage, IsStorage}
use go_iden3_core.MerkleTree.Elem.{Hash, Entry, h_index, h_value, hi_hv}
use go_iden3_core.MerkleTree.{MerkleTree, get_data_by_index}
use go_iden3_core.MerkleTree.Spec.{Tree}
use go_iden3_core.MerkleTree.AddEntry.{Holds, add_entry-insert}
use go_iden3_core.MerkleTree.Proof.{Proof, generate_proof, root_from_proof}
use go_iden3_core.MerkleTree.Proof.Verifies.{Correct, generate_proof-Correct, verify_proof-ok}
use go_iden3_core.Identifier.{iden_state}
use go_iden3_core.Claims.Leaves.{
  leaf_revocations_entry, leaf_revocations_entry-IsData, add_leaf_revocations_tree,
  get_data_by_index-add_leaf_revocations_tree,
}
use go_iden3_core.Verifier.{
  CredentialExistence, CredentialValidity, Verifier, verify_credential_existence,
  verify_credential_validity,
}
use go_iden3_core.Verifier.Credential.{
  Published, verify_credential_existence-ok_iff, verify_credential_validity-IsValid,
}

module _ ⦃c : Crypto⦄ ⦃db : Storage⦄ where
  same_entry : (e e' : Entry) → e.elems ≡ e'.elems → e ≡ e'
  same_entry e e' same = λ i. record { elems = same i }

  -- A proof for an index that is found is one of existence, and leads from the entry to the root.
  found_leads :
      (mt : MerkleTree) (hi : Hash) (p : Proof) (e : Entry)
      → Correct mt hi p
      → get_data_by_index mt hi ≡ ok e.elems
      → (p.existence ≡ true)
        × (hv : Hash) × (h_value e ≡ ok hv)
        × (root_from_proof p hi hv ≡ ok mt.root_key)
  found_leads mt hi p e (inl (present, e', hv, found', value, verified)) found = (
    present,
    hv,
    ap h_value (same_entry e e' (ok-injective (sym found ∙ found'))) ∙ value,
    verify_proof-ok mt.root_key p hi hv verified,
  )
  found_leads mt hi p e (inr (absent, missing, _)) found = cc

  -- On a claims tree of at most 240 levels whose nodes represent an abstract tree and in which
  -- GetDataByIndex finds the claim, a credential with the proof that GenerateProof returns for the
  -- claim's index is accepted by VerifyCredentialExistence, if the hash of the three roots is the
  -- state of the credential and that state is what the chain gives for its block.
  pub verify_credential_existence-generate_proof :
      (mt : MerkleTree) (t : Tree) (hi : Hash) (v : Verifier) (cred : CredentialExistence)
      → Holds mt t
      → mt.max_levels ≤ 240
      → h_index cred.claim ≡ ok hi
      → get_data_by_index mt hi ≡ ok cred.claim.elems
      → generate_proof mt hi none ≡ ok cred.mtp_claim
      → iden_state mt.root_key cred.revocations_tree_root cred.roots_tree_root
        ≡ ok cred.iden_state_data.iden_state
      → Published v cred.id cred.iden_state_data
      → verify_credential_existence v cred ≡ ok tt
  verify_credential_existence-generate_proof mt t hi v cred held low eh found made stated
        published =
      let (present, hv, value, climbed) =
        found_leads mt hi cred.mtp_claim cred.claim
          (generate_proof-Correct mt t hi cred.mtp_claim held low made) found in
      let hashed : hi_hv cred.claim ≡ ok (hi, hv) = unfold hi_hv in rw (eh, value) refl in
      (verify_credential_existence-ok_iff v cred).1
        (present, (hi, hv, mt.root_key, hashed, climbed, stated), published)

  module _ (hashes : IsHash c) (laws : IsStorage db) where
    -- Once AddLeafRevocationsTree has added a nonce, with any version, to a revocations tree of at
    -- most 240 levels whose nodes represent an abstract tree, VerifyCredentialValidity does not
    -- accept a credential with the proof that GenerateProof returns for the nonce on the new tree;
    -- the hash and the storage keep their laws.
    pub verify_credential_validity-revoked :
        (mt mt' : MerkleTree) (t : Tree) (nonce version : ℕ) (hi : Hash) (v : Verifier)
        (cred : CredentialValidity) (freshness : ℕ)
        → Holds mt t
        → mt.max_levels ≤ 240
        → h_index (leaf_revocations_entry (record { nonce = nonce; version = 0xffffffff })) ≡ ok hi
        → add_leaf_revocations_tree mt nonce version ≡ (mt', ok tt)
        → generate_proof mt' hi none ≡ ok cred.mtp_not_nonce
        → verify_credential_validity v cred freshness ≢ ok tt
    unfolding add_leaf_revocations_tree
    verify_credential_validity-revoked mt mt' t nonce version hi v cred freshness held low eh done
          made accepted =
        let leaf = leaf_revocations_entry (record { nonce = nonce; version = version }) in
        let (t', at) =
          add_entry-insert hashes laws mt mt' leaf t (leaf_revocations_entry-IsData _) held done in
        let found =
          get_data_by_index-add_leaf_revocations_tree hashes laws mt mt' t nonce version 0xffffffff
            hi held eh done in
        let lead =
          found_leads mt' hi cred.mtp_not_nonce leaf
            (generate_proof-Correct mt' t' hi cred.mtp_not_nonce at.holds (omega (arith, at.levels))
              made)
            found in
        let valid = verify_credential_validity-IsValid v cred freshness accepted in
        cc (lead.0, valid.absent)
