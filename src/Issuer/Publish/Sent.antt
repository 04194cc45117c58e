-- ===== src/Issuer/Publish/Sent.antt =====
-- PublishState: after a success the state of the present trees is pending and sent, or nothing was to
-- be done.
use go_iden3_core.Prelude.{◌≡◌, true}
use go_iden3_core.Result.{ok}
use go_iden3_core.Action as A
use go_iden3_core.Action.{Action, followed, lift, return, within-eq-ok}
use go_iden3_core.Crypto.{Crypto}
use go_iden3_core.Db.{Storage, IsStorage}
use go_iden3_core.Db.Utils.{IsJson}
use go_iden3_core.MerkleTree.Elem.{Hash}
use go_iden3_core.Chain.{IdenPubOnChainer, negsuc}
use go_iden3_core.Issuer.{Issuer, IssuerJson, IdenStateTreeRoots}
use go_iden3_core.Issuer.Lookups.{state, get_iden_state_by_idx}
use go_iden3_core.Issuer.Publish.{Services, record_root}
use go_iden3_core.Issuer.Publish.Transact.{SameTrees, Accepted}
use go_iden3_core.Issuer.Publish.Prepare.{Recorded}

module _ ⦃db : Storage⦄ ⦃chain : IdenPubOnChainer⦄ ⦃json : IssuerJson chain.Transaction⦄
    ⦃c : Crypto⦄ where
  module _ (services : Services db chain) (laws : IsStorage db)
      (json_laws : IsJson json.tree_roots) where
    -- What PublishState compares: the state of the present trees, and the last one of the list.
    pub record Compared (is : Issuer) : Type 0 where
      pub s : Hash
      pub roots : IdenStateTreeRoots
      pub stated : state is ≡ ok (s, roots)
      pub tx0 : db.Tx
      pub opened : db.new_tx is.storage ≡ ok tx0
      pub last : Hash
      pub roots_last : IdenStateTreeRoots
      pub listed : get_iden_state_by_idx is tx0 (negsuc 0) ≡ ok (last, roots_last)

    -- The trees are those that `record_root` leaves; their state was taken by the
    -- chain, is pending, is marked as sent, and
    -- is in the stored list with the roots of these trees.
    pub record Published (is is' : Issuer) (x : Compared is) : Type 0 where
      pub added : Issuer
      pub roots_added : record_root services x.roots x.roots_last is ≡ (added, ok tt)
      pub trees : SameTrees added is'
      pub roots : IdenStateTreeRoots
      pub stated : state is' ≡ ok (is'.iden_state_pending, roots)
      pub accepted : Accepted is is' x.last is'.iden_state_pending
      pub transacted : is'.iden_state_pending_transacted ≡ true
      pub recorded : Recorded is'.storage is'.iden_state_pending roots
