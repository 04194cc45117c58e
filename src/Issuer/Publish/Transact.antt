-- ===== src/Issuer/Publish/Transact.antt =====
-- PublishState from `(B)` on: what becomes pending, and what stays.
use mathlib.Core.Path.{subst}
use go_iden3_core.Prelude.{
  ℕ, ◌≡◌, refl, sym, ap, ◌∙◌, true, false, not, if◌then◌else◌, inl, inr, some, [], ◌∷◌, ◌++◌, ◌==◌,
  ◌+◌, length, bytes_eq,
}
use go_iden3_core.Result.{Result, ok, ok-injective, >>=-eq-ok}
use go_iden3_core.Action as A
use go_iden3_core.Action.{
  Action, followed, lift, lift-eq-ok, current-eq-ok, become-eq-ok, guard-eq-ok, branch-eq,
  return-eq-ok, keeps-eq-ok,
}
use go_iden3_core.Common.{Bytes}
use go_iden3_core.Db.{Storage, IsStorage}
use go_iden3_core.Db.Utils.{Json, store_json, load_json}
use go_iden3_core.Db.Utils.Number.{tx_get-tx_put_other}
use go_iden3_core.MerkleTree.Elem.{Hash}
use go_iden3_core.MerkleTree.Proof.{all_siblings_circom}
use go_iden3_core.Claims.{bool2byte}
use go_iden3_core.Chain.{IdenPubOnChainer}
use go_iden3_core.Issuer.{
  Issuer, IssuerJson, IdenStateTreeRoots, is_zero, iden_state_on_chain, new_tx, commit,
  set_iden_state_pending, set_eth_tx_set_state, set_eth_tx_init_state, db_prefix_iden_state_list,
  db_key_iden_state_pending, db_key_iden_state_pending_transacted, db_key_eth_tx_set_state,
  db_key_eth_tx_init_state,
}
use go_iden3_core.Issuer.Pending.{commit-eq-ok}
use go_iden3_core.Issuer.Publish.{
  Services, IdOwnershipGenesisInputs, gen_id_ownership_genesis_inputs,
  gen_zk_proof_iden_state_update, send, send_init, send_set, transact, db_key_genesis_claim_kop_mtp,
  db_key_genesis_claim_tree_root,
}

module _ ⦃db : Storage⦄ where
  -- A transaction reads the list of the states as another one does.
  abbrev pub SameList : db.State → (tx tx1 : db.Tx) → Type 0
  SameList st tx tx1 =
      (k : Bytes)
      → db.tx_get st tx1 (db_prefix_iden_state_list ++ k)
        ≡ db.tx_get st tx (db_prefix_iden_state_list ++ k)

module _ ⦃db : Storage⦄ ⦃chain : IdenPubOnChainer⦄ where
  -- The trees stay.
  pub record SameTrees (is is' : Issuer) : Type 0 where
    pub claims_tree : is'.claims_tree ≡ is.claims_tree
    pub revocations_tree : is'.revocations_tree ≡ is.revocations_tree
    pub roots_tree : is'.roots_tree ≡ is.roots_tree

  -- What the call of the chain depends on stays.
  pub record SameChain (is is' : Issuer) : Type 0 where
    pub chain_state : is'.iden_pub_on_chain ≡ is.iden_pub_on_chain
    pub id : is'.id ≡ is.id
    pub known : is'.iden_state_data_on_chain ≡ is.iden_state_data_on_chain

  -- InitState for the first state of an identity, SetState for a later one.
  abbrev pub chain_call :
      Issuer → (last s : Hash) → chain.ZkProof → Result (chain.State × chain.Transaction)
  chain_call is last s zk_proof =
      if is_zero (iden_state_on_chain is)
      then chain.init_state is.iden_pub_on_chain is.id last s zk_proof
      else chain.set_state is.iden_pub_on_chain is.id s zk_proof

  -- The chain has taken the state.
  pub record Accepted (is is' : Issuer) (last s : Hash) : Type 0 where
    pub zk_proof : chain.ZkProof
    pub eth_tx : chain.Transaction
    pub called : chain_call is last s zk_proof ≡ ok (is'.iden_pub_on_chain, eth_tx)

  pub Accepted-SameChain :
      (is i1 is' : Issuer) (last s : Hash)
      → SameChain is i1
      → Accepted i1 is' last s
      → Accepted is is' last s
  Accepted-SameChain is i1 is' last s same a = record {
    zk_proof = a.zk_proof;
    eth_tx = a.eth_tx;
    called =
        sym (λ j.
          chain_call
            (record i1 {
              iden_pub_on_chain = same.chain_state j;
              id = same.id j;
              iden_state_data_on_chain = same.known j;
            })
            last s a.zk_proof)
        ∙ a.called;
  }

  -- The chain has taken a new state, which is pending and marked as sent; the storage has the same list of states.
  pub record Transacted (is is' : Issuer) (last s : Hash) : Type 0 where
    pub accepted : Accepted is is' last s
    pub pending : is'.iden_state_pending ≡ s
    pub transacted : is'.iden_state_pending_transacted ≡ true
    pub trees : SameTrees is is'
    pub same_list :
        (k : Bytes)
        → db.get is'.storage (db_prefix_iden_state_list ++ k)
          ≡ db.get is.storage (db_prefix_iden_state_list ++ k)

module _ ⦃db : Storage⦄ (laws : IsStorage db) (st : db.State) where
  store_json-SameList :
      {X : Type 0} ⦃json : Json X⦄ (tx tx1 : db.Tx) (key : Bytes) (x : X)
      → ((k : Bytes) → bytes_eq key (db_prefix_iden_state_list ++ k) ≡ false)
      → store_json st tx key x ≡ ok tx1
      → SameList st tx tx1
  unfolding store_json
  store_json-SameList ⦃json⦄ tx tx1 key x apart h k =
      let (bs, _, put) = >>=-eq-ok (json.marshal x) _ h in
      ap (λ (t : db.Tx). db.tx_get st t (db_prefix_iden_state_list ++ k)) (sym (ok-injective put))
      ∙ tx_get-tx_put_other laws st tx key bs _ (apart k)

  pub pending_put-SameList :
      (tx : db.Tx) (v w : Bytes)
      → SameList st tx (
          db.tx_put st
            (db.tx_put st tx db_key_iden_state_pending v)
            db_key_iden_state_pending_transacted
            w)
  unfolding bytes_eq
  pending_put-SameList tx v w k =
      tx_get-tx_put_other laws st _ db_key_iden_state_pending_transacted w _ refl
      ∙ tx_get-tx_put_other laws st tx db_key_iden_state_pending v _ refl

module _ ⦃db : Storage⦄ ⦃chain : IdenPubOnChainer⦄ ⦃json : IssuerJson chain.Transaction⦄
    (services : Services db chain) where
  gen_id_ownership_genesis_inputs-keeps :
      (levels : ℕ) (is s1 : Issuer) (a : IdOwnershipGenesisInputs)
      → gen_id_ownership_genesis_inputs services levels is ≡ (s1, ok a)
      → s1 ≡ is
  unfolding gen_id_ownership_genesis_inputs
  gen_id_ownership_genesis_inputs-keeps levels is s1 a h =
      let (sk, _, h1) = lift-eq-ok services.private_key _ is s1 (current-eq-ok _ is s1 h) in
      let (mtp, _, h2) =
        lift-eq-ok (load_json ⦃json = json.proof⦄ is.storage db_key_genesis_claim_kop_mtp) _ is s1
          h1 in
      let (sibs, _, h3) = lift-eq-ok (all_siblings_circom mtp levels) _ is s1 h2 in
      let (_, h4) = guard-eq-ok (not (length sibs == levels + 1)) _ _ is s1 h3 in
      let (root, _, h5) =
        lift-eq-ok (load_json ⦃json = json.hash⦄ is.storage db_key_genesis_claim_tree_root) _ is s1
          h4 in
      return-eq-ok _ is s1 h5

  gen_zk_proof_iden_state_update-keeps :
      (old_state new_state : Hash) (is s1 : Issuer) (a : chain.ZkProof)
      → gen_zk_proof_iden_state_update services old_state new_state is ≡ (s1, ok a)
      → s1 ≡ is
  unfolding gen_zk_proof_iden_state_update
  gen_zk_proof_iden_state_update-keeps old_state new_state is s1 a h =
      let (pk, _, h1) = lift-eq-ok services.proving_key _ is s1 h in
      let (vk, _, h2) = lift-eq-ok services.verification_key _ is s1 h1 in
      let (inputs, h3) =
        keeps-eq-ok (gen_id_ownership_genesis_inputs services services.levels) _ is s1
          (gen_id_ownership_genesis_inputs-keeps services.levels is) h2 in
      let (wasm, _, h4) = lift-eq-ok services.witness_calc_wasm _ is s1 h3 in
      let (wit, _, h5) = lift-eq-ok (services.calculate_witness wasm _) _ is s1 h4 in
      let ((zk_proof, signals), _, h6) =
        lift-eq-ok (services.generate_zk_proof pk wit) _ is s1 h5 in
      let (_, h7) = guard-eq-ok (not (services.verify vk zk_proof signals)) _ _ is s1 h6 in
      return-eq-ok zk_proof is s1 h7

  module _ (laws : IsStorage db) where
    send-SameList :
        (tx tx1 : db.Tx) (last s : Hash) (zk_proof : chain.ZkProof) (is s1 : Issuer)
        → send services tx last s zk_proof is ≡ (s1, ok tx1)
        → SameList is.storage tx tx1
          × SameTrees is s1
          × (s1.storage ≡ is.storage)
          × Accepted is s1 last s
    unfolding send send_init send_set set_eth_tx_set_state set_eth_tx_init_state bytes_eq
    send-SameList tx tx1 last s zk_proof is s1 h =
        let h0 = current-eq-ok _ is s1 h in
        elim (branch-eq (is_zero (iden_state_on_chain is)) (send_init services tx last s zk_proof)
          (send_set services tx s zk_proof) is h0) [
            | inl (first, h1) ↦
                let ((cs, eth_tx), called, h2) =
                  lift-eq-ok (chain.init_state is.iden_pub_on_chain is.id last s zk_proof) _ is s1
                    (current-eq-ok _ is s1 h1) in
                let h3 = become-eq-ok (record is { iden_pub_on_chain = cs }) _ is s1 h2 in
                (
                  store_json-SameList laws is.storage ⦃json = json.tx⦄ tx tx1
                      db_key_eth_tx_init_state (some eth_tx) (λ k. refl)
                      (ap (λ (x : Issuer × Result db.Tx). x.1) h3),
                  record {
                    claims_tree = sym (ap (λ (z : Issuer × Result db.Tx). z.0.claims_tree) h3);
                    revocations_tree =
                        sym (ap (λ (z : Issuer × Result db.Tx). z.0.revocations_tree) h3);
                    roots_tree = sym (ap (λ (z : Issuer × Result db.Tx). z.0.roots_tree) h3);
                  },
                  sym (ap (λ (x : Issuer × Result db.Tx). x.0.storage) h3),
                  record {
                    zk_proof = zk_proof;
                    eth_tx = eth_tx;
                    called = rw first (
                        called
                        ∙ ap (λ (x : Issuer × Result db.Tx). ok (x.0.iden_pub_on_chain, eth_tx))
                            h3);
                  },
                )
            | inr (later, h1) ↦
                let ((cs, eth_tx), called, h2) =
                  lift-eq-ok (chain.set_state is.iden_pub_on_chain is.id s zk_proof) _ is s1
                    (current-eq-ok _ is s1 h1) in
                let h3 = become-eq-ok (record is { iden_pub_on_chain = cs }) _ is s1 h2 in
                (
                  store_json-SameList laws is.storage ⦃json = json.tx⦄ tx tx1
                      db_key_eth_tx_set_state (some eth_tx) (λ k. refl)
                      (ap (λ (x : Issuer × Result db.Tx). x.1) h3),
                  record {
                    claims_tree = sym (ap (λ (z : Issuer × Result db.Tx). z.0.claims_tree) h3);
                    revocations_tree =
                        sym (ap (λ (z : Issuer × Result db.Tx). z.0.revocations_tree) h3);
                    roots_tree = sym (ap (λ (z : Issuer × Result db.Tx). z.0.roots_tree) h3);
                  },
                  sym (ap (λ (x : Issuer × Result db.Tx). x.0.storage) h3),
                  record {
                    zk_proof = zk_proof;
                    eth_tx = eth_tx;
                    called = rw later (
                        called
                        ∙ ap (λ (x : Issuer × Result db.Tx). ok (x.0.iden_pub_on_chain, eth_tx))
                            h3);
                  },
                )
          ]

    -- What a committed transaction reads of the list is what the storage has.
    pub commit-SameList :
        (st st' : db.State) (tx tx' : db.Tx)
        → db.new_tx st ≡ ok tx
        → db.commit st tx' ≡ ok st'
        → SameList st tx tx'
        → (k : Bytes)
        → db.get st' (db_prefix_iden_state_list ++ k) ≡ db.get st (db_prefix_iden_state_list ++ k)
    commit-SameList st st' tx tx' opened done same k =
        laws.get-commit st st' tx' _ done ∙ same k ∙ laws.tx_get-new_tx st tx _ opened

    pub transact-Transacted :
        (last s : Hash) (roots : IdenStateTreeRoots) (is is' : Issuer)
        → transact services last s roots is ≡ (is', ok tt)
        → Transacted is is' last s
    unfolding transact new_tx set_iden_state_pending followed
    transact-Transacted last s roots is is' h =
        let (zk_proof, h1) =
          keeps-eq-ok (gen_zk_proof_iden_state_update services last s) _ is is'
            (gen_zk_proof_iden_state_update-keeps last s is) h in
        let (tx, opened, h2) = lift-eq-ok (db.new_tx is.storage) _ is is' h1 in
        let (i2, tx1, sent, h3) = A.>>=-eq-ok (send services tx last s zk_proof) _ is is' h2 in
        let (listed, trees, stored, accepted) = send-SameList tx tx1 last s zk_proof is i2 sent in
        let i3 : Issuer = record i2 {
          iden_state_pending = s;
          iden_state_pending_transacted = true;
        } in
        let tx2 =
          db.tx_put i2.storage (db.tx_put i2.storage tx1 db_key_iden_state_pending s)
            db_key_iden_state_pending_transacted (bool2byte true ∷ []) in
        let (i4, _, committed, h4) = A.>>=-eq-ok (commit tx2) _ i3 is' h3 in
        let (st, done, same) = commit-eq-ok tx2 i3 i4 committed in
        let last_step : i4 ≡ is' = ap (λ (x : Issuer × Result (Unit {0})). x.0) h4 in
        let pending_listed : SameList is.storage tx1 tx2 =
          subst (λ (z : db.State). SameList z tx1 tx2) stored
            (pending_put-SameList laws i2.storage tx1 s _) in
        subst (λ (x : Issuer). Transacted is x last s) (same ∙ last_step)
          (record {
            accepted = record {
              zk_proof = accepted.zk_proof;
              eth_tx = accepted.eth_tx;
              called = accepted.called;
            };
            pending = refl;
            transacted = refl;
            trees = record {
              claims_tree = trees.claims_tree;
              revocations_tree = trees.revocations_tree;
              roots_tree = trees.roots_tree;
            };
            same_list =
                commit-SameList is.storage st tx tx2 opened
                  (ap (λ (z : db.State). db.commit z tx2) (sym stored) ∙ done)
                  (λ k. pending_listed k ∙ listed k);
          })
