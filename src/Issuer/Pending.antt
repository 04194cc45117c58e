-- ===== src/Issuer/Pending.antt =====
-- SyncIdenStatePublic: what is known of the pending state and of the state on the chain, in memory and
-- in the storage.
use mathlib.Core.Path.{subst}
use go_iden3_core.Prelude.{
  ◌≡◌, ◌⊎◌, refl, sym, ap, ◌∙◌, true, false, inl, inr, [], ◌∷◌, bytes_eq, bytes_eq→eq,
}
use go_iden3_core.Result.{Result, ok, err, panic, ◌>>=◌, ok-injective, >>=-eq-ok}
use go_iden3_core.Action.{followed, lift-eq-ok, current-eq-ok, guard-eq-ok, branch-eq, return-eq-ok}
use go_iden3_core.Common.{Bytes}
use go_iden3_core.Claims.{bool2byte}
use go_iden3_core.Db.{Storage, IsStorage}
use go_iden3_core.Db.Utils.{IsJson, load_json, store_json}
use go_iden3_core.Db.Utils.Number.{tx_get-tx_put_same, tx_get-tx_put_other}
use go_iden3_core.MerkleTree.Elem.{hash_zero}
use go_iden3_core.Verifier.{IdenStateData}
use go_iden3_core.Chain.{IdenPubOnChainer}
use go_iden3_core.Issuer.{
  Issuer, IssuerJson, iden_state_on_chain, new_tx, commit, set_iden_state_pending,
  set_iden_state_data_on_chain, put_storage, db_key_iden_state_pending,
  db_key_iden_state_pending_transacted, db_key_iden_state_data_on_chain,
}
use go_iden3_core.Issuer.Methods.{
  settle, compare_states, sync_iden_state_public, unconfirmed, or_zero, is_idle,
}

module _ ⦃db : Storage⦄ ⦃chain : IdenPubOnChainer⦄ where
  pub commit-eq-ok :
      (tx : db.Tx) (is is' : Issuer)
      → commit tx is ≡ (is', ok tt)
      → (s : db.State) × (db.commit is.storage tx ≡ ok s) × (record is { storage = s } ≡ is')
  unfolding commit put_storage
  commit-eq-ok tx is is' h = by_result (db.commit is.storage tx) refl h
    where
      by_result :
          (r : Result db.State)
          → db.commit is.storage tx ≡ r
          → put_storage is r ≡ (is', ok tt)
          → (s : db.State) × (db.commit is.storage tx ≡ ok s) × (record is { storage = s } ≡ is')
      by_result (ok s) e g = (s, e, ap (λ (x : Issuer × Result (Unit {0})). x.0) g)
      by_result (err x) e g = cc
      by_result panic e g = cc

  module _ ⦃json : IssuerJson chain.Transaction⦄ where
    -- The pending state was found on the chain: it is the known one, and nothing is pending.
    pub record Settled (is is' : Issuer) (d : IdenStateData) : Type 0 where
      pub was_pending : d.iden_state ≡ is.iden_state_pending
      pub known : is'.iden_state_data_on_chain ≡ d
      pub idle : is_idle is' ≡ true
      pub stored_pending : db.get is'.storage db_key_iden_state_pending ≡ ok hash_zero
      pub stored_transacted : db.get is'.storage db_key_iden_state_pending_transacted ≡ ok (0 ∷ [])
      pub stored_known :
          load_json ⦃json = json.state_data⦄ is'.storage db_key_iden_state_data_on_chain ≡ ok d
      pub same_trees :
          (is'.claims_tree ≡ is.claims_tree)
          × (is'.revocations_tree ≡ is.revocations_tree)
          × (is'.roots_tree ≡ is.roots_tree)

    module _ (laws : IsStorage db) (json_laws : IsJson json.state_data) where
      -- The three writes of a pending state that was found, in memory and in the storage.
      settle-Settled :
          (d : IdenStateData) (is is' : Issuer)
          → d.iden_state ≡ is.iden_state_pending
          → settle d is ≡ (is', ok tt)
          → Settled is is' d
      unfolding settle new_tx set_iden_state_pending set_iden_state_data_on_chain store_json
          followed bytes_eq load_json commit bool2byte
      settle-Settled d is is' pending h =
          let st = is.storage in
          let (tx, _, h1) = lift-eq-ok (db.new_tx st) _ is is' h in
          let s2 : Issuer = record is {
            iden_state_pending = hash_zero;
            iden_state_pending_transacted = false;
            iden_state_data_on_chain = d;
          } in
          let tx0 = db.tx_put st tx db_key_iden_state_pending hash_zero in
          let tx1 = db.tx_put st tx0 db_key_iden_state_pending_transacted (0 ∷ []) in
          let (tx2, stored, h2) =
            lift-eq-ok
              (store_json ⦃json = json.state_data⦄ st tx1 db_key_iden_state_data_on_chain d)
              (λ t. commit t) s2 is' h1 in
          let (bs, made, put) = >>=-eq-ok (json.state_data.marshal d) _ stored in
          let (s, done, same) = commit-eq-ok tx2 s2 is' h2 in
          let written : (k : Bytes)
              → db.get s k ≡ db.tx_get st (db.tx_put st tx1 db_key_iden_state_data_on_chain bs) k =
            λ k.
              laws.get-commit st s tx2 k done
              ∙ ap (λ (t : db.Tx). db.tx_get st t k) (sym (ok-injective put)) in
          subst (λ (x : Issuer). Settled is x d) same
            (record {
              was_pending = pending;
              known = refl;
              idle = refl;
              stored_pending =
                  written db_key_iden_state_pending
                  ∙ tx_get-tx_put_other laws st tx1 db_key_iden_state_data_on_chain bs _ refl
                  ∙ tx_get-tx_put_other laws st tx0 db_key_iden_state_pending_transacted (0 ∷ []) _
                      refl
                  ∙ tx_get-tx_put_same laws st tx db_key_iden_state_pending hash_zero;
              stored_transacted =
                  written db_key_iden_state_pending_transacted
                  ∙ tx_get-tx_put_other laws st tx1 db_key_iden_state_data_on_chain bs _ refl
                  ∙ tx_get-tx_put_same laws st tx0 db_key_iden_state_pending_transacted (0 ∷ []);
              stored_known =
                  ap (λ r. r >>= json.state_data.unmarshal)
                    (written db_key_iden_state_data_on_chain
                      ∙ tx_get-tx_put_same laws st tx1 db_key_iden_state_data_on_chain bs)
                  ∙ json_laws.unmarshal-marshal d bs made;
              same_trees = (refl, refl, refl);
            })

      compare_states-cases :
          (d : IdenStateData) (is is' : Issuer)
          → compare_states d is ≡ (is', ok tt)
          → ((is' ≡ is) × (d.iden_state ≡ iden_state_on_chain is)) ⊎ Settled is is' d
      unfolding compare_states
      compare_states-cases d is is' h =
          elim (branch-eq (is_idle is) _ _ is (current-eq-ok _ is is' h)) [
            | inl (_, h1) ↦
                elim (branch-eq (bytes_eq d.iden_state (iden_state_on_chain is)) _ _ is h1) [
                  | inl (same, h2) ↦ inl (return-eq-ok tt is is' h2, bytes_eq→eq _ _ same)
                  | inr (_, h2) ↦ cc
                ]
            | inr (_, h1) ↦
                elim (branch-eq (bytes_eq d.iden_state (iden_state_on_chain is)) _ _ is h1) [
                  | inl (same, h2) ↦ inl (return-eq-ok tt is is' h2, bytes_eq→eq _ _ same)
                  | inr (_, h2) ↦
                      elim (branch-eq (bytes_eq d.iden_state is.iden_state_pending) _ _ is h2) [
                        | inl (same, h3) ↦ inr (settle-Settled d is is' (bytes_eq→eq _ _ same) h3)
                        | inr (_, h3) ↦ cc
                      ]
                ]
          ]

      -- If the storage and the JSON of a state keep their laws and SyncIdenStatePublic succeeds,
      -- then either the issuer is as it was; or no transaction waited for blocks, the chain gave
      -- the pending state, which is now the known one while nothing is pending, the trees are as
      -- they were, and the storage has the same.
      pub sync_iden_state_public-Settled :
          (is is' : Issuer)
          → sync_iden_state_public is ≡ (is', ok tt)
          → (is' ≡ is)
            ⊎ ((d : IdenStateData) × (unconfirmed is ≡ ok false)
                × (or_zero (chain.get_state is.iden_pub_on_chain is.id) ≡ ok d)
                × Settled is is' d)
      unfolding sync_iden_state_public
      sync_iden_state_public-Settled is is' h =
          let h0 = guard-eq-ok is.cfg.genesis_only _ _ is is' (current-eq-ok _ is is' h) in
          let (wait, asked, h1) = lift-eq-ok (unconfirmed is) _ is is' h0.1 in
          elim (branch-eq wait _ _ is h1) [
            | inl (_, h2) ↦ inl (return-eq-ok tt is is' h2)
            | inr (settled, h2) ↦
                let (d, read, h3) =
                  lift-eq-ok (or_zero (chain.get_state is.iden_pub_on_chain is.id)) _ is is' h2 in
                elim (compare_states-cases d is is' h3) [
                  | inl (same, _) ↦ inl same
                  | inr moved ↦ inr (d, asked ∙ ap ok settled, read, moved)
                ]
          ]
