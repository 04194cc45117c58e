-- ===== src/Issuer.antt =====
-- identity/issuer/issuer.go: an identity that issues claims, its three trees and its last known and
-- pending states. The storages of the trees, which WithPrefix gives, share no key with each other or
-- with the issuer's own, so each is a state of its own. The contract's state, which others see too, is
-- a field. `encoding/json`, the keys, the witness calculation, the prover and the writer of the public
-- data are parameters. The mutex makes a method one step, so an Action; a mutable field is set before
-- a commit that may fail.
pub mod Nonce
pub mod Lookups
pub mod Methods
pub mod Publish
pub mod Credential
pub mod Pending
use go_iden3_core.Prelude.{
  ℕ, ◌+◌, ◌-◌, ◌%◌, ◌^◌, Bool, true, false, not, ◌&&◌, Option, none, some, List, [], ◌∷◌, ltb, ◌==◌,
  if◌then◌else◌, bytes_eq, get_elem?,
}
use go_iden3_core.Result.{Error, Result, ok, err, panic, list_too_short, or_panic}
use go_iden3_core.Action.{Action, ◌>>=◌, return, current, become, lift}
use go_iden3_core.Common.{Bytes}
use go_iden3_core.BigInt.{copy_into}
use go_iden3_core.Crypto.{Crypto}
use go_iden3_core.Db.{Storage}
use go_iden3_core.Db.Utils.{
  Json, StorageValue, StorageList, new_storage_list, list_length, list_get, list_get_by_idx,
  store_json, load_json,
}
use go_iden3_core.MerkleTree.Elem.{Hash, hash_zero}
use go_iden3_core.MerkleTree.{MerkleTree}
use go_iden3_core.MerkleTree.Proof.{Proof}
use go_iden3_core.Identifier.{iden_state}
use go_iden3_core.Claims.{bool2byte, byte2bool}
use go_iden3_core.Verifier.{IdenStateData}
use go_iden3_core.Chain.{ℤ, pos, negsuc, IdenPubOnChainer}

-- "idenstates:", "nonceidx", "idenstatedataonchain", "idenstatepending", "idenstatependingtxed",
-- "ethtxsetstate", "ethtxinitstate"
abbrev pub db_prefix_iden_state_list : Bytes
db_prefix_iden_state_list = 105 ∷ 100 ∷ 101 ∷ 110 ∷ 115 ∷ 116 ∷ 97 ∷ 116 ∷ 101 ∷ 115 ∷ 58 ∷ []

abbrev pub db_key_nonce_idx : Bytes
db_key_nonce_idx = 110 ∷ 111 ∷ 110 ∷ 99 ∷ 101 ∷ 105 ∷ 100 ∷ 120 ∷ []

abbrev pub db_key_iden_state_data_on_chain : Bytes
db_key_iden_state_data_on_chain =
    105 ∷ 100 ∷ 101 ∷ 110 ∷ 115 ∷ 116 ∷ 97 ∷ 116 ∷ 101 ∷ 100 ∷ 97 ∷ 116 ∷ 97 ∷ 111 ∷ 110 ∷ 99 ∷ 104
    ∷ 97 ∷ 105 ∷ 110 ∷ []

abbrev pub db_key_iden_state_pending : Bytes
db_key_iden_state_pending =
    105 ∷ 100 ∷ 101 ∷ 110 ∷ 115 ∷ 116 ∷ 97 ∷ 116 ∷ 101 ∷ 112 ∷ 101 ∷ 110 ∷ 100 ∷ 105 ∷ 110 ∷ 103
    ∷ []

abbrev pub db_key_iden_state_pending_transacted : Bytes
db_key_iden_state_pending_transacted =
    105 ∷ 100 ∷ 101 ∷ 110 ∷ 115 ∷ 116 ∷ 97 ∷ 116 ∷ 101 ∷ 112 ∷ 101 ∷ 110 ∷ 100 ∷ 105 ∷ 110 ∷ 103
    ∷ 116 ∷ 120 ∷ 101 ∷ 100 ∷ []

abbrev pub db_key_eth_tx_set_state : Bytes
db_key_eth_tx_set_state =
    101 ∷ 116 ∷ 104 ∷ 116 ∷ 120 ∷ 115 ∷ 101 ∷ 116 ∷ 115 ∷ 116 ∷ 97 ∷ 116 ∷ 101 ∷ []

abbrev pub db_key_eth_tx_init_state : Bytes
db_key_eth_tx_init_state =
    101 ∷ 116 ∷ 104 ∷ 116 ∷ 120 ∷ 105 ∷ 110 ∷ 105 ∷ 116 ∷ 115 ∷ 116 ∷ 97 ∷ 116 ∷ 101 ∷ []

-- The fields of Config that a method reads; the numbers of levels are in the trees.
pub record Config : Type 0 where
  pub genesis_only : Bool
  pub confirm_blocks : ℕ

pub record IdenStateTreeRoots : Type 0 where
  pub claims_tree_root : Hash
  pub revocations_tree_root : Hash
  pub roots_tree_root : Hash

-- The types that are kept as JSON; a transaction may be nil.
pub record IssuerJson (Transaction : Type 0) : Type 0 where
  pub state_data : Json IdenStateData
  pub tree_roots : Json IdenStateTreeRoots
  pub tx : Json (Option Transaction)
  pub proof : Json Proof
  pub hash : Json Hash

abbrev pub is_zero : Hash → Bool
is_zero h = bytes_eq h hash_zero

module _ ⦃db : Storage⦄ ⦃chain : IdenPubOnChainer⦄ where
  pub record Issuer : Type 0 where
    pub storage : db.State
    pub id : Bytes
    pub claims_tree : MerkleTree
    pub revocations_tree : MerkleTree
    pub roots_tree : MerkleTree
    pub iden_pub_on_chain : chain.State
    -- the Url of the writer of the public data
    pub iden_pub_url : Bytes
    pub iden_state_data_on_chain : IdenStateData
    pub iden_state_pending : Hash
    pub iden_state_pending_transacted : Bool
    pub eth_tx_set_state : Option chain.Transaction
    pub eth_tx_init_state : Option chain.Transaction
    pub cfg : Config

  -- IdenStateOnChain
  abbrev pub iden_state_on_chain : Issuer → Hash
  iden_state_on_chain is = is.iden_state_data_on_chain.iden_state

  abbrev pub iden_state_list : StorageList
  iden_state_list = new_storage_list db_prefix_iden_state_list

  -- `storage.NewTx` and `tx.Commit`
  unfoldable pub new_tx : Action Issuer db.Tx
  new_tx is = (is, db.new_tx is.storage)

  put_storage : Issuer → Result db.State → Issuer × Result (Unit {0})
  put_storage is (ok s) = (record is { storage = s }, ok tt)
  put_storage is (err x) = (is, err x)
  put_storage is panic = (is, panic)

  unfoldable pub commit : db.Tx → Action Issuer (Unit {0})
  unfolding put_storage
  commit tx is = put_storage is (db.commit is.storage tx)

  -- setIdenStatePending
  unfoldable pub set_iden_state_pending : db.Tx → Hash → Bool → Action Issuer db.Tx
  set_iden_state_pending tx v transacted is = (
    record is { iden_state_pending = v; iden_state_pending_transacted = transacted },
    ok (
        db.tx_put is.storage (db.tx_put is.storage tx db_key_iden_state_pending v)
          db_key_iden_state_pending_transacted (bool2byte transacted ∷ [])),
  )

  -- loadIdenStatePending: the second field is set after its read, which may fail.
  unfoldable pub load_iden_state_pending : Action Issuer (Unit {0})
  load_iden_state_pending = do
    is ← current
    b ← lift (db.get is.storage db_key_iden_state_pending)
    _ ← become (record is { iden_state_pending = copy_into hash_zero b })
    now ← current
    bs ← lift (db.get is.storage db_key_iden_state_pending_transacted)
    t ← lift (or_panic (get_elem? bs 0))
    become (record now { iden_state_pending_transacted = byte2bool t })

  module _ ⦃json : IssuerJson chain.Transaction⦄ where
    -- setIdenStateDataOnChain, setEthTxSetState, setEthTxInitState
    unfoldable pub set_iden_state_data_on_chain : db.Tx → IdenStateData → Action Issuer db.Tx
    set_iden_state_data_on_chain tx v is = (
      record is { iden_state_data_on_chain = v },
      store_json ⦃json = json.state_data⦄ is.storage tx db_key_iden_state_data_on_chain v,
    )

    unfoldable pub set_eth_tx_set_state : db.Tx → Option chain.Transaction → Action Issuer db.Tx
    set_eth_tx_set_state tx v is = (
      record is { eth_tx_set_state = v },
      store_json ⦃json = json.tx⦄ is.storage tx db_key_eth_tx_set_state v,
    )

    unfoldable pub set_eth_tx_init_state : db.Tx → Option chain.Transaction → Action Issuer db.Tx
    set_eth_tx_init_state tx v is = (
      record is { eth_tx_init_state = v },
      store_json ⦃json = json.tx⦄ is.storage tx db_key_eth_tx_init_state v,
    )
