-- ===== src/Issuer/Methods.antt =====
-- identity/issuer/issuer.go: SyncIdenStatePublic, IssueClaim, RevokeClaim.
pub mod Revoked
use go_iden3_core.Prelude.{ℕ, Bool, true, false, not, ◌&&◌, Option, ltb, if◌then◌else◌, bytes_eq}
use go_iden3_core.Result.{
  Error, Result, ok, err, panic, or_panic, iden_genesis_only, state_mismatch, receipt_not_received,
  iden_not_on_chain,
}
use go_iden3_core.Action.{Action, ◌>>=◌, return, fail, current, become, lift, within}
use go_iden3_core.Crypto.{Crypto}
use go_iden3_core.Db.{Storage}
use go_iden3_core.Db.Utils.{StorageValue}
use go_iden3_core.MerkleTree.Elem.{Hash, Entry, hash_zero, h_index}
use go_iden3_core.MerkleTree.{MerkleTree, add_entry, get_data_by_index}
use go_iden3_core.Claims.{Metadata, get_revocation_nonce}
use go_iden3_core.Claims.Leaves.{add_leaf_revocations_tree}
use go_iden3_core.Verifier.{IdenStateData}
use go_iden3_core.Chain.{ℤ, pos, negsuc, IdenPubOnChainer}
use go_iden3_core.Issuer.{
  Issuer, IssuerJson, is_zero, iden_state_on_chain, new_tx, commit, set_iden_state_pending,
  set_iden_state_data_on_chain, db_key_nonce_idx,
}
use go_iden3_core.Issuer.Nonce.{nonce_next}

-- `confirmBlocks.Cmp(..) == -1`
unfoldable pub too_few : ℤ → ℕ → Bool
too_few (pos n) wanted = ltb n wanted
too_few (negsuc n) wanted = true

-- The two errors that SyncIdenStatePublic does not return.
unfoldable pub not_yet : Result ℤ → (wanted : ℕ) → Result Bool
not_yet (ok n) wanted = ok (too_few n wanted)
not_yet (err receipt_not_received) wanted = ok true
not_yet (err x) wanted = err x
not_yet panic wanted = panic

unfoldable pub or_zero : Result IdenStateData → Result IdenStateData
or_zero (ok d) = ok d
or_zero (err iden_not_on_chain) = ok (record { block_ts = 0; block_n = 0; iden_state = hash_zero })
or_zero (err x) = err x
or_zero panic = panic

-- A claim: Metadata, and Entry, which writes it.
pub record Claimer : Type 0 where
  pub metadata : Metadata
  pub entry : Metadata → Result Entry

module _ ⦃db : Storage⦄ ⦃chain : IdenPubOnChainer⦄ where
  -- The pending state is being published: `!idenStatePending.Equals(&HashZero) && transacted`.
  abbrev pub is_transacted : Issuer → Bool
  is_transacted is = not (is_zero is.iden_state_pending) && is.iden_state_pending_transacted

  -- Nothing is pending.
  abbrev pub is_idle : Issuer → Bool
  is_idle is = is_zero is.iden_state_pending && not is.iden_state_pending_transacted

  -- The transaction of the pending state has too few confirmations.
  unfoldable pub unconfirmed : Issuer → Result Bool
  unconfirmed is =
      if not (is_transacted is)
      then ok false
      else elim (or_panic (
          if is_zero (iden_state_on_chain is) then is.eth_tx_init_state else is.eth_tx_set_state)) [
            | ok tx ↦
                not_yet (chain.tx_confirm_blocks is.iden_pub_on_chain tx) is.cfg.confirm_blocks
            | err x ↦ err x
            | panic ↦ panic
          ]

  module _ ⦃json : IssuerJson chain.Transaction⦄ where
    -- The pending state has become the one on the chain.
    unfoldable pub settle : IdenStateData → Action Issuer (Unit {0})
    settle d = do
      tx ← new_tx
      tx1 ← set_iden_state_pending tx hash_zero false
      tx2 ← set_iden_state_data_on_chain tx1 d
      commit tx2

    -- SyncIdenStatePublic once the state of the contract is known.
    unfoldable pub compare_states : IdenStateData → Action Issuer (Unit {0})
    compare_states d = do
      is ← current
      let same = bytes_eq d.iden_state (iden_state_on_chain is)
      if is_idle is
          then (if same then return tt else fail state_mismatch)
          else if same
          then return tt
          else if bytes_eq d.iden_state is.iden_state_pending
          then settle d
          else fail state_mismatch

    -- SyncIdenStatePublic
    unfoldable pub sync_iden_state_public : Action Issuer (Unit {0})
    sync_iden_state_public = do
      is ← current
      if is.cfg.genesis_only then fail iden_genesis_only else do
        wait ← lift (unconfirmed is)
        if wait then return tt else do
          d ← lift (or_zero (chain.get_state is.iden_pub_on_chain is.id))
          compare_states d

  -- A change of one tree of the issuer.
  unfoldable pub in_claims_tree : Action MerkleTree (Unit {0}) → Action Issuer (Unit {0})
  in_claims_tree = within (λ is. is.claims_tree) (λ mt is. record is { claims_tree = mt })

  unfoldable pub in_revocations_tree : Action MerkleTree (Unit {0}) → Action Issuer (Unit {0})
  in_revocations_tree =
      within (λ is. is.revocations_tree) (λ mt is. record is { revocations_tree = mt })

  unfoldable pub in_roots_tree : Action MerkleTree (Unit {0}) → Action Issuer (Unit {0})
  in_roots_tree = within (λ is. is.roots_tree) (λ mt is. record is { roots_tree = mt })

  -- The nonce of a new claim, which is committed at once.
  unfoldable pub next_nonce : Action Issuer ℕ
  next_nonce = do
    tx ← new_tx
    is ← current
    (tx1, nonce) ← lift (nonce_next (record { db_key = db_key_nonce_idx }) is.storage tx)
    _ ← commit tx1
    return nonce

  module _ ⦃c : Crypto⦄ where
    -- IssueClaim: the metadata of the claim, which is the caller's, gets the nonce.
    unfoldable pub issue_claim : Action (Issuer × Claimer) (Unit {0})
    issue_claim = do
      (is, claim) ← current
      if is.cfg.genesis_only then fail iden_genesis_only else do
        nonce ← within (λ x. x.0) (λ i x. (i, x.1)) next_nonce
        let m = record claim.metadata { rev_nonce = nonce }
        _ ← within (λ x. x.1) (λ y x. (x.0, y)) (become (record claim { metadata = m }))
        e ← lift (claim.entry m)
        within (λ x. x.0) (λ i x. (i, x.1)) (in_claims_tree (λ mt. add_entry mt e))

    -- RevokeClaim
    unfoldable pub revoke_claim : Entry → Action Issuer (Unit {0})
    revoke_claim e = do
      is ← current
      if is.cfg.genesis_only then fail iden_genesis_only else do
        hi ← lift (h_index e)
        d ← lift (get_data_by_index is.claims_tree hi)
        nonce ← lift (get_revocation_nonce (record { elems = d }))
        in_revocations_tree (λ mt. add_leaf_revocations_tree mt nonce 0xffffffff)
