-- ===== src/Issuer/Lookups.antt =====
-- identity/issuer/issuer.go: the present state, and the states that are kept: state, getIdenStateByIdx,
-- getIdenStateTreeRoots.
use go_iden3_core.Prelude.{ℕ, ◌+◌, ◌-◌, ◌%◌, ◌^◌, ltb, if◌then◌else◌}
use go_iden3_core.Result.{Result, ok, err, ◌>>=◌, list_too_short}
use go_iden3_core.BigInt.{copy_into}
use go_iden3_core.Crypto.{Crypto}
use go_iden3_core.Db.{Storage}
use go_iden3_core.Db.Utils.{list_length, list_get, list_get_by_idx}
use go_iden3_core.MerkleTree.Elem.{Hash, hash_zero}
use go_iden3_core.Identifier.{iden_state}
use go_iden3_core.Chain.{ℤ, pos, negsuc, IdenPubOnChainer}
use go_iden3_core.Issuer.{Issuer, IssuerJson, IdenStateTreeRoots, iden_state_list}

module _ ⦃db : Storage⦄ ⦃chain : IdenPubOnChainer⦄ where
  -- The index from the start; a negative one counts from the end.
  unfoldable pub idx_abs : Issuer → db.Tx → ℤ → Result ℕ
  idx_abs is tx (pos n) = ok (n % 2 ^ 32)
  idx_abs is tx (negsuc n) = do
    len ← list_length iden_state_list is.storage tx
    if ltb len (n + 1) then err list_too_short else ok (len - (n + 1))

  module _ ⦃json : IssuerJson chain.Transaction⦄ where
    -- getIdenStateByIdx
    unfoldable pub get_iden_state_by_idx : Issuer → db.Tx → ℤ → Result (Hash × IdenStateTreeRoots)
    get_iden_state_by_idx is tx idx = do
      i ← idx_abs is tx idx
      (bs, roots) ← list_get_by_idx ⦃json = json.tree_roots⦄ iden_state_list is.storage tx i
      ok (copy_into hash_zero bs, roots)

    -- getIdenStateTreeRoots
    unfoldable pub get_iden_state_tree_roots : Issuer → db.Tx → Hash → Result IdenStateTreeRoots
    get_iden_state_tree_roots is tx s =
        list_get ⦃json = json.tree_roots⦄ iden_state_list is.storage tx s

  module _ ⦃c : Crypto⦄ where
    -- state
    unfoldable pub state : Issuer → Result (Hash × IdenStateTreeRoots)
    state is = do
      s ← iden_state is.claims_tree.root_key is.revocations_tree.root_key is.roots_tree.root_key
      ok (
        s,
        record {
          claims_tree_root = is.claims_tree.root_key;
          revocations_tree_root = is.revocations_tree.root_key;
          roots_tree_root = is.roots_tree.root_key;
        },
      )
