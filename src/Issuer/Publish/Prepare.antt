-- ===== src/Issuer/Publish/Prepare.antt =====
-- PublishState up to `(B)`: what becomes pending, and what is stored with it.
use mathlib.Core.Path.{subst}
use go_iden3_core.Prelude.{◌≡◌, sym, ap, ◌∙◌, false, inl, inr, [], ◌∷◌, ◌++◌, bytes_eq}
use go_iden3_core.Result.{Result, ok, ok-injective, no_err, no_err-eq-ok}
use go_iden3_core.Result as R
use go_iden3_core.Action as A
use go_iden3_core.Action.{
  Action, followed, lift, return, lift-eq-ok, current-eq-ok, guard-eq-ok, branch-eq, within-eq-ok,
  return-eq-ok,
}
use go_iden3_core.Crypto.{Crypto}
use go_iden3_core.Db.{Storage, IsStorage}
use go_iden3_core.Common.{Bytes}
use go_iden3_core.Db.Utils.{list_append, list_get, new_storage_list, list_text, IsJson}
use go_iden3_core.Db.Utils.Append.{list_append-stored}
use go_iden3_core.MerkleTree.Elem.{Hash}
use go_iden3_core.Claims.{bool2byte}
use go_iden3_core.Chain.{IdenPubOnChainer}
use go_iden3_core.Issuer.{
  Issuer, IssuerJson, IdenStateTreeRoots, new_tx, commit, set_iden_state_pending, iden_state_list,
  db_prefix_iden_state_list, db_key_iden_state_pending, db_key_iden_state_pending_transacted,
}
use go_iden3_core.Issuer.Lookups.{state, get_iden_state_tree_roots}
use go_iden3_core.Issuer.Methods.{in_roots_tree}
use go_iden3_core.Issuer.Pending.{commit-eq-ok}
use go_iden3_core.Issuer.Publish.{Services, record_root, prepare}
use go_iden3_core.Issuer.Publish.Transact.{SameTrees, SameChain, pending_put-SameList}

module _ ⦃db : Storage⦄ ⦃chain : IdenPubOnChainer⦄ ⦃json : IssuerJson chain.Transaction⦄
    ⦃c : Crypto⦄ where
  pub state-SameTrees : (is is' : Issuer) → SameTrees is is' → state is' ≡ state is
  unfolding state
  state-SameTrees is is' trees = λ i. state (record is {
    claims_tree = trees.claims_tree i;
    revocations_tree = trees.revocations_tree i;
    roots_tree = trees.roots_tree i;
  })

  -- The list of the states has the roots of a state.
  pub record Recorded (st : db.State) (s : Hash) (roots : IdenStateTreeRoots) : Type 0 where
    pub bs : Bytes
    pub stored : db.get st ((db_prefix_iden_state_list ++ list_text) ++ s) ≡ ok bs
    pub read : json.tree_roots.unmarshal bs ≡ ok roots

  pub Recorded-same_list :
      (st st' : db.State) (s : Hash) (roots : IdenStateTreeRoots)
      → ((k : Bytes)
          → db.get st' (db_prefix_iden_state_list ++ k)
            ≡ db.get st (db_prefix_iden_state_list ++ k))
      → Recorded st s roots
      → Recorded st' s roots
  Recorded-same_list st st' s roots same r = record {
    bs = r.bs;
    stored = same (list_text ++ s) ∙ r.stored;
    read = r.read;
  }

  pub get_iden_state_tree_roots-Recorded :
      (laws : IsStorage db) (is : Issuer) (tx : db.Tx) (s : Hash) (roots : IdenStateTreeRoots)
      → Recorded is.storage s roots
      → db.new_tx is.storage ≡ ok tx
      → get_iden_state_tree_roots is tx s ≡ ok roots
  unfolding get_iden_state_tree_roots list_get new_storage_list
  get_iden_state_tree_roots-Recorded laws is tx s roots r opened =
      ap (λ x. R.◌>>=◌ x json.tree_roots.unmarshal)
        (laws.tx_get-new_tx is.storage tx _ opened ∙ r.stored)
      ∙ r.read

  module _ (services : Services db chain) (laws : IsStorage db)
      (json_laws : IsJson json.tree_roots) where
    record_root-SameChain :
        (present last : IdenStateTreeRoots) (is i1 : Issuer)
        → record_root services present last is ≡ (i1, ok tt)
        → SameChain is i1
    unfolding record_root in_roots_tree
    record_root-SameChain present last is i1 h =
        elim (branch-eq (bytes_eq present.claims_tree_root last.claims_tree_root) _ _ is h) [
          | inl (_, h1) ↦
              let same = return-eq-ok tt is i1 h1 in
              record {
                chain_state = ap (λ (x : Issuer). x.iden_pub_on_chain) same;
                id = ap (λ (x : Issuer). x.id) same;
                known = ap (λ (x : Issuer). x.iden_state_data_on_chain) same;
              }
          | inr (_, h1) ↦
              let (mt, _, moved) = within-eq-ok _ _ _ is i1 h1 in
              record {
                chain_state = ap (λ (x : Issuer). x.iden_pub_on_chain) (sym moved);
                id = ap (λ (x : Issuer). x.id) (sym moved);
                known = ap (λ (x : Issuer). x.iden_state_data_on_chain) (sym moved);
              }
        ]

    -- The trees that are recorded are those that `record_root` leaves.
    pub record Prepared (present last : IdenStateTreeRoots) (is i2 : Issuer) (s : Hash)
        (roots : IdenStateTreeRoots) : Type 0 where
      pub added : Issuer
      pub roots_added : record_root services present last is ≡ (added, ok tt)
      pub trees : SameTrees added i2
      pub same_chain : SameChain is i2
      pub stated : state i2 ≡ ok (s, roots)
      pub recorded : Recorded i2.storage s roots

    pub prepare-state :
        (present last : IdenStateTreeRoots) (is i2 : Issuer) (s : Hash) (roots : IdenStateTreeRoots)
        → prepare services present last is ≡ (i2, ok (s, roots))
        → Prepared present last is i2 s roots
    unfolding prepare new_tx set_iden_state_pending followed
    prepare-state present last is i2 s roots h =
        let (i1, _, root_kept, h1) = A.>>=-eq-ok (record_root services present last) _ is i2 h in
        let ((s1, roots1), stated, h2) = lift-eq-ok (state i1) _ i1 i2 h1 in
        let (tx, _, h3) = lift-eq-ok (db.new_tx i1.storage) _ i1 i2 h2 in
        let (tx1, listed, h4) =
          lift-eq-ok (list_append ⦃json = json.tree_roots⦄ iden_state_list i1.storage tx s1 roots1)
            _ i1 i2 h3 in
        let j : Issuer = record i1 {
          iden_state_pending = s1;
          iden_state_pending_transacted = false;
        } in
        let tx2 =
          db.tx_put i1.storage (db.tx_put i1.storage tx1 db_key_iden_state_pending s1)
            db_key_iden_state_pending_transacted (bool2byte false ∷ []) in
        let (i3, _, committed, h5) = A.>>=-eq-ok (commit tx2) _ j i2 h4 in
        let (st, done, same) = commit-eq-ok tx2 j i3 committed in
        let moved : record j { storage = st } ≡ i2 =
          same ∙ ap (λ (x : Issuer × Result (Hash × IdenStateTreeRoots)). x.0) h5 in
        let given = ap (λ (x : Issuer × Result (Hash × IdenStateTreeRoots)). x.1) h5 in
        let same_pair = ok-injective given in
        let (bs, written, read) =
          list_append-stored ⦃json = json.tree_roots⦄ laws db_prefix_iden_state_list i1.storage tx
            tx1 s1 roots1 listed in
        let kept : Recorded st s1 roots1 = record {
          bs = bs;
          stored =
              laws.get-commit i1.storage st tx2 _ done
              ∙ pending_put-SameList laws i1.storage tx1 s1 _ (list_text ++ s1)
              ∙ read;
          read = json_laws.unmarshal-marshal roots1 bs written;
        } in
        let root_chain = record_root-SameChain present last is i1 root_kept in
        let trees : SameTrees i1 i2 = record {
          claims_tree = sym (ap (λ (x : Issuer). x.claims_tree) moved);
          revocations_tree = sym (ap (λ (x : Issuer). x.revocations_tree) moved);
          roots_tree = sym (ap (λ (x : Issuer). x.roots_tree) moved);
        } in
        record {
          added = i1;
          roots_added = root_kept;
          trees = trees;
          same_chain = record {
            chain_state =
                sym (ap (λ (x : Issuer). x.iden_pub_on_chain) moved) ∙ root_chain.chain_state;
            id = sym (ap (λ (x : Issuer). x.id) moved) ∙ root_chain.id;
            known = sym (ap (λ (x : Issuer). x.iden_state_data_on_chain) moved) ∙ root_chain.known;
          };
          stated = state-SameTrees i1 i2 trees ∙ stated ∙ given;
          recorded =
              subst (λ (x : db.State × (Hash × IdenStateTreeRoots)). Recorded x.0 x.1.0 x.1.1)
                (λ i. ((moved i).storage, same_pair i)) kept;
        }
