-- ===== src/Issuer/Publish.antt =====
-- identity/issuer/issuer.go: GenIdOwnershipGenesisInputs, GenZkProofIdenStateUpdate, PublishState.
-- The key store, the files of the circuit, the calculation of the witness, the prover, its verifier,
-- and the writer of the public data are parameters.
pub mod Transact
pub mod Prepare
pub mod Sent
use go_iden3_core.Prelude.{
  ℕ, ◌+◌, Bool, true, false, not, ◌&&◌, none, some, List, [], ◌∷◌, ◌==◌, if◌then◌else◌, length,
  bytes_eq,
}
use go_iden3_core.Result.{
  Result, ok, err, panic, too_many_siblings, zk_proof_invalid, iden_genesis_only,
  iden_state_pending_not_nil, no_err,
}
use go_iden3_core.Result as R
use go_iden3_core.Action.{Action, ◌>>=◌, return, fail, current, become, lift}
use go_iden3_core.Common.{Bytes}
use go_iden3_core.BigInt.{copy_into}
use go_iden3_core.Crypto.{Crypto}
use go_iden3_core.Db.{Storage}
use go_iden3_core.Db.Utils.{list_append, load_json}
use go_iden3_core.MerkleTree.Elem.{Hash, hash_zero, big_int}
use go_iden3_core.MerkleTree.{MerkleTree}
use go_iden3_core.MerkleTree.Proof.{Proof, all_siblings_circom}
use go_iden3_core.Claims.Leaves.{add_leaf_roots_tree}
use go_iden3_core.Chain.{ℤ, negsuc, IdenPubOnChainer}
use go_iden3_core.Public.{PublicData}
use go_iden3_core.Issuer.{
  Issuer, IssuerJson, IdenStateTreeRoots, is_zero, iden_state_on_chain, new_tx, commit,
  iden_state_list, set_iden_state_pending, set_eth_tx_set_state, set_eth_tx_init_state,
}
use go_iden3_core.Issuer.Lookups.{state, get_iden_state_by_idx}
use go_iden3_core.Issuer.Methods.{in_roots_tree, is_idle, is_transacted}

-- "genclaimkopmtp" and "genclr"
abbrev pub db_key_genesis_claim_kop_mtp : Bytes
db_key_genesis_claim_kop_mtp =
    103 ∷ 101 ∷ 110 ∷ 99 ∷ 108 ∷ 97 ∷ 105 ∷ 109 ∷ 107 ∷ 111 ∷ 112 ∷ 109 ∷ 116 ∷ 112 ∷ []

abbrev pub db_key_genesis_claim_tree_root : Bytes
db_key_genesis_claim_tree_root = 103 ∷ 101 ∷ 110 ∷ 99 ∷ 108 ∷ 114 ∷ []

pub record IdOwnershipGenesisInputs : Type 0 where
  pub id : ℕ
  pub private_key : ℕ
  pub mtp_siblings : List ℕ
  pub claims_tree_root : ℕ

-- The inputs of the witness.
pub record ZkInputs : Type 0 where
  pub id : ℕ
  pub old_id_state : ℕ
  pub user_private_key : ℕ
  pub siblings : List ℕ
  pub claims_tree_root : ℕ
  pub new_id_state : ℕ

-- What PublishState calls that is not in the repository.
pub record Services (db : Storage) (chain : IdenPubOnChainer) : Type 1 where
  pub Pk : Type 0
  pub Vk : Type 0
  pub Wasm : Type 0
  pub Witness : Type 0
  pub private_key : Result ℕ
  pub levels : ℕ
  pub proving_key : Result Pk
  pub verification_key : Result Vk
  pub witness_calc_wasm : Result Wasm
  pub calculate_witness : Wasm → ZkInputs → Result Witness
  pub generate_zk_proof : Pk → Witness → Result (chain.ZkProof × List ℕ)
  pub verify : Vk → chain.ZkProof → List ℕ → Bool
  pub publish : Bytes → PublicData ⦃db = db⦄ → Result (Unit {0})

module _ ⦃db : Storage⦄ ⦃chain : IdenPubOnChainer⦄ ⦃json : IssuerJson chain.Transaction⦄
    (services : Services db chain) where
  -- GenIdOwnershipGenesisInputs
  unfoldable pub gen_id_ownership_genesis_inputs :
      (levels : ℕ) → Action Issuer IdOwnershipGenesisInputs
  gen_id_ownership_genesis_inputs levels = do
    is ← current
    sk ← lift services.private_key
    mtp ← lift (load_json ⦃json = json.proof⦄ is.storage db_key_genesis_claim_kop_mtp)
    siblings ← lift (all_siblings_circom mtp levels)
    if not (length siblings == levels + 1) then fail too_many_siblings else do
      root ← lift (load_json ⦃json = json.hash⦄ is.storage db_key_genesis_claim_tree_root)
      return (record {
        id = big_int (copy_into hash_zero is.id);
        private_key = sk;
        mtp_siblings = siblings;
        claims_tree_root = big_int root;
      })

  -- GenZkProofIdenStateUpdate; the public signals are not used afterwards.
  unfoldable pub gen_zk_proof_iden_state_update :
      (old_state new_state : Hash) → Action Issuer chain.ZkProof
  gen_zk_proof_iden_state_update old_state new_state = do
    pk ← lift services.proving_key
    vk ← lift services.verification_key
    inputs ← gen_id_ownership_genesis_inputs services.levels
    wasm ← lift services.witness_calc_wasm
    wit ← lift (
        services.calculate_witness wasm (record {
          id = inputs.id;
          old_id_state = big_int old_state;
          user_private_key = inputs.private_key;
          siblings = inputs.mtp_siblings;
          claims_tree_root = inputs.claims_tree_root;
          new_id_state = big_int new_state;
        }))
    (zk_proof, signals) ← lift (services.generate_zk_proof pk wit)
    if not (services.verify vk zk_proof signals) then fail zk_proof_invalid else return zk_proof

  -- The first publication, and an update.
  unfoldable pub send_init : db.Tx → (last new_state : Hash) → chain.ZkProof → Action Issuer db.Tx
  send_init tx last new_state zk_proof = do
    is ← current
    (s, eth_tx) ← lift (chain.init_state is.iden_pub_on_chain is.id last new_state zk_proof)
    _ ← become (record is { iden_pub_on_chain = s })
    set_eth_tx_init_state tx (some eth_tx)

  unfoldable pub send_set : db.Tx → (new_state : Hash) → chain.ZkProof → Action Issuer db.Tx
  send_set tx new_state zk_proof = do
    is ← current
    (s, eth_tx) ← lift (chain.set_state is.iden_pub_on_chain is.id new_state zk_proof)
    _ ← become (record is { iden_pub_on_chain = s })
    set_eth_tx_set_state tx (some eth_tx)

  unfoldable pub send : db.Tx → (last new_state : Hash) → chain.ZkProof → Action Issuer db.Tx
  send tx last new_state zk_proof = do
    is ← current
    if is_zero (iden_state_on_chain is)
        then send_init tx last new_state zk_proof
        else send_set tx new_state zk_proof

  -- PublishState from `(B)` on.
  unfoldable pub transact : (last new_state : Hash) → IdenStateTreeRoots → Action Issuer (Unit {0})
  transact last new_state roots = do
    zk_proof ← gen_zk_proof_iden_state_update last new_state
    tx ← new_tx
    tx1 ← send tx last new_state zk_proof
    tx2 ← set_iden_state_pending tx1 new_state true
    _ ← commit tx2
    is ← current
    lift (
        services.publish is.id (record {
          iden_state = new_state;
          claims_tree_root = roots.claims_tree_root;
          revocations_tree_root = roots.revocations_tree_root;
          revocations_tree = is.revocations_tree;
          roots_tree_root = roots.roots_tree_root;
          roots_tree = is.roots_tree;
        }))

  module _ ⦃c : Crypto⦄ where
    -- The root of the claims is added to the roots tree if it has changed.
    unfoldable pub record_root : (present last : IdenStateTreeRoots) → Action Issuer (Unit {0})
    record_root present last =
        if bytes_eq present.claims_tree_root last.claims_tree_root
        then return tt
        else in_roots_tree (λ mt. add_leaf_roots_tree mt present.claims_tree_root)

    -- The new state becomes the pending one. It is calculated again also if no root was added, which
    -- gives the same state.
    unfoldable pub prepare :
        (present last : IdenStateTreeRoots) → Action Issuer (Hash × IdenStateTreeRoots)
    prepare present last = do
      _ ← record_root present last
      is ← current
      (s, roots) ← lift (state is)
      tx ← new_tx
      tx1 ← lift (list_append ⦃json = json.tree_roots⦄ iden_state_list is.storage tx s roots)
      tx2 ← set_iden_state_pending tx1 s false
      _ ← commit tx2
      return (s, roots)

    -- PublishState with nothing pending.
    unfoldable pub publish_idle :
        (s last : Hash) → (roots roots_last : IdenStateTreeRoots) → Action Issuer (Unit {0})
    publish_idle s last roots roots_last =
        if bytes_eq s last
        then return tt
        else do (s', roots') ← prepare roots roots_last; transact last s' roots'

    -- PublishState with a pending state that was not sent.
    unfoldable pub publish_again : db.Tx → Hash → IdenStateTreeRoots → Action Issuer (Unit {0})
    publish_again tx0 s roots = do
      is ← current
      (last, roots_last) ← lift (get_iden_state_by_idx is tx0 (negsuc 1))
      transact last s roots

    -- PublishState; `tx0.Close` is deferred before the error of `NewTx` is looked at.
    unfoldable pub publish_state : Action Issuer (Unit {0})
    publish_state = do
      is ← current
      if is.cfg.genesis_only
          then fail iden_genesis_only
          else if is_transacted is
          then fail iden_state_pending_not_nil
          else do
            (s, roots) ← lift (state is)
            tx0 ← lift (no_err (db.new_tx is.storage))
            (last, roots_last) ← lift (get_iden_state_by_idx is tx0 (negsuc 0))
            if is_idle is then publish_idle s last roots roots_last else publish_again tx0 s roots
