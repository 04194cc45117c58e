-- ===== src/Holder/Validity.antt =====
-- HolderGetCredentialValidity, and what the verifier says of its credential.
use mathlib.Core.Path.{subst}
use go_iden3_core.Prelude.{
  ℕ, ◌≤◌, ◌≡◌, refl, sym, ap, ◌∙◌, Bool, true, false, not, none, some, Option, inl, inr, bytes_eq,
  bytes_eq→eq, drop, if◌then◌else◌,
}
use go_iden3_core.Result.{Result, Error, ok, err, >>=-eq-ok, ok-injective, entry_index_not_found}
use go_iden3_core.Common.{Bytes, bytes_to_uint32}
use go_iden3_core.Common.Words.{bytes_to_uint32-take}
use go_iden3_core.Common.Slices.{nth}
use go_iden3_core.Crypto.{Crypto}
use go_iden3_core.Db.{Storage}
use go_iden3_core.MerkleTree.Elem.{Hash, Entry, h_index, h_value, hi_hv}
use go_iden3_core.MerkleTree.{MerkleTree, get_data_by_index}
use go_iden3_core.MerkleTree.Spec.{Tree}
use go_iden3_core.MerkleTree.AddEntry.{Holds}
use go_iden3_core.MerkleTree.Proof.{Proof, generate_proof, root_from_proof}
use go_iden3_core.MerkleTree.Proof.Verifies.{generate_proof-Correct, verify_proof-ok}
use go_iden3_core.Identifier.{iden_state}
use go_iden3_core.Claims.{
  Metadata, metadata_unmarshal, get_revocation_nonce, header_unmarshal, unmarshal_subject,
  bytes_to_uint64, claim_rev_nonce_len,
}
use go_iden3_core.Claims.Leaves.{leaf_revocations_entry}
use go_iden3_core.Chain.{IdenPubOnChainer}
use go_iden3_core.Verifier.{
  IdenStateData, CredentialExistence, CredentialValidity, Verifier, verify_credential_existence,
  expired, verify_credential_validity,
}
use go_iden3_core.Verifier.Credential.{Published, verify_credential_existence-ok_iff}
use go_iden3_core.Verifier.Valid.{IsValid-verify_credential_validity}
use go_iden3_core.Public.{PublicData}
use go_iden3_core.Holder.{
  Holder, CredentialValidityAux, queried_data, holder_get_credential_validity_data,
  holder_get_credential_validity,
}

-- GetRevocationNonce reads the nonce of the metadata.
get_revocation_nonce-metadata_unmarshal :
    (e : Entry) (m : Metadata)
    → metadata_unmarshal e ≡ ok m
    → get_revocation_nonce e ≡ ok m.rev_nonce
unfolding metadata_unmarshal get_revocation_nonce
get_revocation_nonce-metadata_unmarshal e m h =
    let (hd, _, h1) = >>=-eq-ok (header_unmarshal e) _ h in
    let (id, _, h2) = >>=-eq-ok (unmarshal_subject hd e) _ h1 in
    let (version, _, h3) =
      >>=-eq-ok (if hd.version then bytes_to_uint32 (drop 12 (nth e.elems 0)) else ok 0) _ h2 in
    let (expiration, _, h4) =
      >>=-eq-ok
        (if hd.expiration then bytes_to_uint64 (drop claim_rev_nonce_len (nth e.elems 4)) else ok 0)
        _ h3 in
    let (nonce, read, h5) = >>=-eq-ok (bytes_to_uint32 (nth e.elems 4)) _ h4 in
    bytes_to_uint32-take (nth e.elems 4)
    ∙ read
    ∙ ap (λ (x : Metadata). ok x.rev_nonce) (ok-injective h5)

guard-eq-ok {ℓ} :
    {A : Type ℓ} (b : Bool) (reason : Error) (r : Result A) {a : A}
    → (if b then err reason else r) ≡ ok a
    → (b ≡ false) × (r ≡ ok a)
guard-eq-ok true reason r h = cc
guard-eq-ok false reason r h = (refl, h)

not-false : (b : Bool) → not b ≡ false → b ≡ true
not-false true h = refl
not-false false h = cc

module _ {own : Storage} ⦃db : Storage⦄ ⦃chain : IdenPubOnChainer⦄ ⦃c : Crypto⦄ where
  -- What a credential of validity that the holder gets consists of.
  record Obtained (h : Holder own) (cred : CredentialExistence) (cv : CredentialValidity)
      : Type 0 where
    pub p : PublicData
    pub m : Metadata
    pub hi : Hash
    pub same_credential : cv.credential_existence ≡ cred
    pub on_chain : chain.get_state h.issuer.iden_pub_on_chain cred.id ≡ ok cv.iden_state_data
    pub read :
        h.get_public_data cred.iden_pub_url cred.id (some cv.iden_state_data.iden_state) ≡ ok p
    pub stated :
        iden_state cv.claims_tree_root p.revocations_tree.root_key cv.roots_tree_root
        ≡ ok cv.iden_state_data.iden_state
    pub metadata : metadata_unmarshal cred.claim ≡ ok m
    pub hashed :
        h_index (leaf_revocations_entry (record { nonce = m.rev_nonce; version = 0xffffffff }))
        ≡ ok hi
    pub proved : generate_proof p.revocations_tree hi none ≡ ok cv.mtp_not_nonce
    pub absent : cv.mtp_not_nonce.existence ≡ false

  holder_get_credential_validity-Obtained :
      (h : Holder own) (cred : CredentialExistence) (cv : CredentialValidity)
      → holder_get_credential_validity h cred ≡ ok cv
      → Obtained h cred cv
  unfolding holder_get_credential_validity holder_get_credential_validity_data queried_data
  holder_get_credential_validity-Obtained h cred cv made =
      let (aux, got, h1) = >>=-eq-ok (holder_get_credential_validity_data h cred) _ made in
      let ((published, p), queried, h2) = >>=-eq-ok (queried_data h cred) _ got in
      let (d, on_chain, q1) =
        >>=-eq-ok (chain.get_state h.issuer.iden_pub_on_chain cred.id) _ queried in
      let (p', read, q2) =
        >>=-eq-ok (h.get_public_data cred.iden_pub_url cred.id (some d.iden_state)) _ q1 in
      let (s, stated, q3) =
        >>=-eq-ok
          (iden_state p'.claims_tree_root p'.revocations_tree.root_key p'.roots_tree.root_key) _
          q2 in
      let (same, q4) = guard-eq-ok (not (bytes_eq s d.iden_state)) _ (ok (d, p')) q3 in
      let s_eq : s ≡ d.iden_state = bytes_eq→eq s d.iden_state (not-false _ same) in
      let d_eq : d ≡ published = ap (λ (x : IdenStateData × PublicData). x.0) (ok-injective q4) in
      let p_eq : p' ≡ p = ap (λ (x : IdenStateData × PublicData). x.1) (ok-injective q4) in
      let (m, metadata, h3) = >>=-eq-ok (metadata_unmarshal cred.claim) _ h2 in
      let (hi, hashed, h4) = >>=-eq-ok (h_index _) _ h3 in
      let (mtp, proved, h5) = >>=-eq-ok (generate_proof p.revocations_tree hi none) _ h4 in
      let (absent, h6) = guard-eq-ok mtp.existence _ _ h5 in
      subst (λ (x : CredentialValidity). Obtained h cred x)
        (ap
            (λ (a : CredentialValidityAux). record {
              credential_existence = cred;
              iden_state_data = a.iden_state_data;
              mtp_not_nonce = a.mtp_not_nonce;
              claims_tree_root = a.claims_tree_root;
              roots_tree_root = a.roots_tree_root;
            })
            (ok-injective h6)
          ∙ ok-injective h1)
        (record {
          p = p;
          m = m;
          hi = hi;
          same_credential = refl;
          on_chain = on_chain ∙ ap ok d_eq;
          read =
              ap
                (λ (x : IdenStateData).
                  h.get_public_data cred.iden_pub_url cred.id (some x.iden_state))
                (sym d_eq)
              ∙ read
              ∙ ap ok p_eq;
          stated =
              ap
                (λ (x : PublicData).
                  iden_state x.claims_tree_root x.revocations_tree.root_key x.roots_tree.root_key)
                (sym p_eq)
              ∙ stated
              ∙ ap ok s_eq
              ∙ ap (λ (x : IdenStateData). ok x.iden_state) d_eq;
          metadata = metadata;
          hashed = hashed;
          proved = proved;
          absent = absent;
        })

-- The proof that is obtained leads from any value to the root of the revocations, and the index is
-- not in the tree.
module _ ⦃db : Storage⦄ ⦃c : Crypto⦄ where
  absent_leads :
      (mt : MerkleTree) (t : Tree) (hi : Hash) (p : Proof)
      → Holds mt t
      → mt.max_levels ≤ 240
      → generate_proof mt hi none ≡ ok p
      → p.existence ≡ false
      → (get_data_by_index mt hi ≡ err entry_index_not_found)
        × ((hv : Hash) → root_from_proof p hi hv ≡ ok mt.root_key)
  absent_leads mt t hi p held low made absent =
      elim (generate_proof-Correct mt t hi p held low made) [
        | inl (present, e, hv, found, value, verified) ↦ cc (absent, present)
        | inr (not_it, missing, verified) ↦
            (missing, λ hv. verify_proof-ok mt.root_key p hi hv (verified hv))
      ]

  hi_hv-h_index : (e : Entry) (hi hv : Hash) → hi_hv e ≡ ok (hi, hv) → h_index e ≡ ok hi
  unfolding hi_hv
  hi_hv-h_index e hi hv h =
      let (hi', index, h1) = >>=-eq-ok (h_index e) _ h in
      let (hv', value, h2) = >>=-eq-ok (h_value e) _ h1 in
      index ∙ ap (λ (x : Hash × Hash). ok x.0) (ok-injective h2)

module _ {own : Storage} ⦃db : Storage⦄ ⦃chain : IdenPubOnChainer⦄ ⦃c : Crypto⦄ where
  -- A credential that HolderGetCredentialValidity returns for a credential of existence that the
  -- verifier accepts, whose claim has not expired, is accepted by VerifyCredentialValidity with
  -- any freshness, and the nonce of the claim is not in the revocations tree of the public data
  -- that was read. The holder and the verifier see the same last states, which the chain also
  -- gives for their blocks; every revocations tree that the reader gives has at most 240 levels
  -- and the nodes of an abstract tree; and the hashes of the nonce's leaf are defined.
  pub verify_credential_validity-holder_get_credential_validity :
      (h : Holder own) (cred : CredentialExistence) (cv : CredentialValidity) (m : Metadata)
      (hi hv : Hash) (v : Verifier) (freshness : ℕ)
      → ((id : Bytes) → v.get_state id ≡ chain.get_state h.issuer.iden_pub_on_chain id)
      → ((id : Bytes) (d : IdenStateData) → v.get_state id ≡ ok d → Published v id d)
      → ((url id : Bytes) (s : Option Hash) (p : PublicData)
          → h.get_public_data url id s ≡ ok p
          → (t : Tree) × Holds p.revocations_tree t × (p.revocations_tree.max_levels ≤ 240))
      → metadata_unmarshal cred.claim ≡ ok m
      → expired m v.time_now ≡ false
      → hi_hv (leaf_revocations_entry (record { nonce = m.rev_nonce; version = 0xffffffff }))
        ≡ ok (hi, hv)
      → verify_credential_existence v cred ≡ ok tt
      → holder_get_credential_validity h cred ≡ ok cv
      → (verify_credential_validity v cv freshness ≡ ok tt)
        × (p : PublicData) × (h.get_public_data cred.iden_pub_url cred.id
              (some cv.iden_state_data.iden_state)
            ≡ ok p)
        × (get_data_by_index p.revocations_tree hi ≡ err entry_index_not_found)
  verify_credential_validity-holder_get_credential_validity h cred cv m hi hv v freshness same_chain
        in_block trees metadata valid hashed issued made =
      let o = holder_get_credential_validity-Obtained h cred cv made in
      let (t, held, low) = trees _ _ _ o.p o.read in
      let e = o.same_credential in
      let leaf_of = λ (x : Metadata).
        leaf_revocations_entry (record { nonce = x.rev_nonce; version = 0xffffffff }) in
      let same_m : o.m ≡ m = ok-injective (sym o.metadata ∙ metadata) in
      let same_hi : o.hi ≡ hi = ok-injective (
        sym o.hashed
        ∙ ap (λ (x : Metadata). h_index (leaf_of x)) same_m
        ∙ hi_hv-h_index (leaf_of m) hi hv hashed) in
      let made_hi = ap (λ x. generate_proof o.p.revocations_tree x none) (sym same_hi) ∙ o.proved in
      let (missing, leads) =
        absent_leads o.p.revocations_tree t hi cv.mtp_not_nonce held low made_hi o.absent in
      let found : v.get_state cv.credential_existence.id ≡ ok cv.iden_state_data =
        ap (λ (x : CredentialExistence). v.get_state x.id) e ∙ same_chain cred.id ∙ o.on_chain in
      (
        IsValid-verify_credential_validity v cv freshness (record {
          metadata = m;
          metadata_eq = ap (λ (x : CredentialExistence). metadata_unmarshal x.claim) e ∙ metadata;
          not_expired = valid;
          issued =
              (verify_credential_existence-ok_iff v cv.credential_existence).0
                (ap (verify_credential_existence v) e ∙ issued);
          absent = o.absent;
          nonce = m.rev_nonce;
          nonce_eq =
              ap (λ (x : CredentialExistence). get_revocation_nonce x.claim) e
              ∙ get_revocation_nonce-metadata_unmarshal cred.claim m metadata;
          not_revoked = (hi, hv, o.p.revocations_tree.root_key, hashed, leads hv, o.stated);
          published = in_block _ _ found;
          fresh = inr (cv.iden_state_data, found, refl);
        }),
        o.p,
        o.read,
        missing,
      )
