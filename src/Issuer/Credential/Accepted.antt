-- ===== src/Issuer/Credential/Accepted.antt =====
-- The credential that GenCredentialExistence gives is accepted by the verifier.
use mathlib.Core.Path.{subst}
use go_iden3_core.Prelude.{
  ◌≡◌, ◌≤◌, refl, ap, ◌∙◌, true, false, not, Bool, if◌then◌else◌, none, some,
}
use go_iden3_core.Result.{Result, Error, ok, err, panic, ◌>>=◌, >>=-eq-ok, >>=-step, ok-injective}
use go_iden3_core.Crypto.{Crypto}
use go_iden3_core.Db.{Storage}
use go_iden3_core.MerkleTree.Elem.{Hash, Entry, h_index}
use go_iden3_core.MerkleTree.{MerkleTree, get_data_by_index, entry_exists}
use go_iden3_core.MerkleTree.Spec.{Tree}
use go_iden3_core.MerkleTree.AddEntry.{Holds}
use go_iden3_core.MerkleTree.Proof.{Proof, generate_proof}
use go_iden3_core.Identifier.{iden_state}
use go_iden3_core.Verifier.{CredentialExistence, Verifier, verify_credential_existence}
use go_iden3_core.Verifier.Credential.{Published}
use go_iden3_core.Verifier.Issued.{verify_credential_existence-generate_proof}
use go_iden3_core.Chain.{IdenPubOnChainer}
use go_iden3_core.Issuer.{Issuer, IssuerJson, IdenStateTreeRoots, is_zero, iden_state_on_chain}
use go_iden3_core.Issuer.Lookups.{get_iden_state_tree_roots}
use go_iden3_core.Issuer.Credential.{
  gen_credential_existence, claim_proof, not_in_tree, generate_existence_mt_proof,
}

-- A guard that was passed.
guard-eq-ok {ℓ} :
    {A : Type ℓ} (b : Bool) (reason : Error) (r : Result A) {a : A}
    → (if b then err reason else r) ≡ ok a
    → r ≡ ok a
guard-eq-ok true reason r h = cc
guard-eq-ok false reason r h = h

-- A call whose error leads to another error.
or_else-eq-ok {ℓ κ μ} :
    {A : Type ℓ} {B : Type κ} {C : Type μ} (call : Result A) (f : A → Result B) (g : Result C)
    (x : Error) {b : B}
    → (elim call [ ok a ↦ f a | err _ ↦ (g >>= λ _. err x) | panic ↦ panic ]) ≡ ok b
    → (a : A) × (call ≡ ok a) × (f a ≡ ok b)
or_else-eq-ok (ok a) f g x h = (a, refl, h)
or_else-eq-ok (err y) f (ok a) x h = cc
or_else-eq-ok (err y) f (err z) x h = cc
or_else-eq-ok (err y) f panic x h = cc
or_else-eq-ok panic f g x h = cc

module _ ⦃db : Storage⦄ ⦃c : Crypto⦄ where
  -- The tree as it was at a root.
  abbrev pub rooted_at : MerkleTree → Hash → MerkleTree
  rooted_at mt root = record mt { root_key = root }

  claim_proof-ok :
      (mt : MerkleTree) (e : Entry) (hi root : Hash) (p : Proof)
      → claim_proof mt e hi root ≡ ok p
      → generate_proof (rooted_at mt root) hi none ≡ ok p
  unfolding claim_proof generate_existence_mt_proof generate_proof
  claim_proof-ok mt e hi root p h =
      let (mtp, shown, h1) = or_else-eq-ok (generate_existence_mt_proof mt hi root) _ _ _ h in
      let (_, _, h2) = >>=-eq-ok (not_in_tree (entry_exists mt e (some root))) _ h1 in
      let (q, made, h3) = >>=-eq-ok (generate_proof mt hi (some root)) _ shown in
      let same : q ≡ p = ok-injective (guard-eq-ok (not q.existence) _ (ok q) h3 ∙ h2) in
      made ∙ ap ok same

module _ ⦃db : Storage⦄ ⦃chain : IdenPubOnChainer⦄ ⦃json : IssuerJson chain.Transaction⦄
    ⦃c : Crypto⦄ where
  pub verify_credential_existence-gen_credential_existence :
      (is : Issuer) (tx : db.Tx) (roots : IdenStateTreeRoots) (t : Tree) (hi : Hash) (v : Verifier)
      (cred : CredentialExistence)
      → db.new_tx is.storage ≡ ok tx
      → get_iden_state_tree_roots is tx (iden_state_on_chain is) ≡ ok roots
      → iden_state roots.claims_tree_root roots.revocations_tree_root roots.roots_tree_root
        ≡ ok (iden_state_on_chain is)
      → Holds (rooted_at is.claims_tree roots.claims_tree_root) t
      → is.claims_tree.max_levels ≤ 240
      → h_index cred.claim ≡ ok hi
      → get_data_by_index (rooted_at is.claims_tree roots.claims_tree_root) hi ≡ ok cred.claim.elems
      → Published v is.id is.iden_state_data_on_chain
      → gen_credential_existence is cred.claim ≡ ok cred
      → verify_credential_existence v cred ≡ ok tt
  unfolding gen_credential_existence
  verify_credential_existence-gen_credential_existence is tx roots t hi v cred opened recorded
        stated held low hashed found published made =
      let h0 = guard-eq-ok is.cfg.genesis_only _ _ made in
      let h1 = guard-eq-ok (is_zero (iden_state_on_chain is)) _ _ (>>=-step _ opened h0) in
      let h2 = >>=-step _ hashed (>>=-step _ recorded h1) in
      let (mtp, shown, h3) =
        >>=-eq-ok (claim_proof is.claims_tree cred.claim hi roots.claims_tree_root) _ h2 in
      subst (λ (x : CredentialExistence). verify_credential_existence v x ≡ ok tt) (ok-injective h3)
        (verify_credential_existence-generate_proof
          (rooted_at is.claims_tree roots.claims_tree_root) t hi v
          (record {
            id = is.id;
            iden_pub_url = is.iden_pub_url;
            iden_state_data = is.iden_state_data_on_chain;
            mtp_claim = mtp;
            claim = cred.claim;
            revocations_tree_root = roots.revocations_tree_root;
            roots_tree_root = roots.roots_tree_root;
          })
          held low hashed found
          (claim_proof-ok is.claims_tree cred.claim hi roots.claims_tree_root mtp shown) stated
          published)
