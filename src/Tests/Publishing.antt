-- ===== src/Tests/Publishing.antt =====
-- An issuer publishes a claim, finds its state on the chain, and proves the claim.
use go_iden3_core.Prelude.{ℕ, true, false, [], ◌∷◌, bytes_eq}
use go_iden3_core.Result.{Result, ok, err, panic, no_err}
use go_iden3_core.Action.{followed, within}
use go_iden3_core.Common.{uint32_to_bytes, bytes_to_uint32}
use go_iden3_core.Common.Slices.{nth}
use go_iden3_core.Claims.{bool2byte}
use go_iden3_core.Claims.Leaves.{leaf_roots_entry, add_leaf_roots_tree}
use go_iden3_core.Identifier.{iden_state}
use go_iden3_core.Db.Memory as M
use go_iden3_core.Db.Memory.{MemoryStorage, KvMap, new_memory_storage, tx_put}
use go_iden3_core.Db.Utils.{
  store_json, load_json, list_init, list_append, list_get, list_get_by_idx, list_length, value_get,
  value_set, new_storage_list,
}
use go_iden3_core.MerkleTree.Elem.{hash_zero}
use go_iden3_core.MerkleTree.Proof.{all_siblings_circom, siblings_from_proof}
use go_iden3_core.Issuer.{
  Issuer, IdenStateTreeRoots, iden_state_list, new_tx, commit, set_iden_state_pending,
  set_eth_tx_init_state,
}
use go_iden3_core.Issuer.Lookups.{state, idx_abs, get_iden_state_by_idx}
use go_iden3_core.Issuer.Methods.{in_roots_tree}
use go_iden3_core.Issuer.Publish.{
  Services, gen_id_ownership_genesis_inputs, gen_zk_proof_iden_state_update, send, send_init,
  send_set, transact, record_root, prepare, publish_idle, publish_again, publish_state,
  db_key_genesis_claim_kop_mtp, db_key_genesis_claim_tree_root,
}
use go_iden3_core.Tests.Env.{mixing, in_memory, sha256}
use go_iden3_core.Tests.Trees.{tree1}
use go_iden3_core.Tests.Issuing.{accepting, texts, sent, write_roots, read_roots, split}

abbrev services : Services in_memory accepting
services = record {
  Pk = ℕ;
  Vk = ℕ;
  Wasm = ℕ;
  Witness = ℕ;
  private_key = ok 1;
  levels = 0;
  proving_key = ok 0;
  verification_key = ok 0;
  witness_calc_wasm = ok 0;
  calculate_witness = λ w inputs. ok 0;
  generate_zk_proof = λ pk w. ok (0, []);
  verify = λ vk p signals. true;
  publish = λ id d. ok tt;
}

abbrev roots0 : IdenStateTreeRoots
roots0 = record {
  claims_tree_root = hash_zero;
  revocations_tree_root = hash_zero;
  roots_tree_root = hash_zero;
}

abbrev genesis_tx : KvMap
genesis_tx =
    tx_put sha256 new_memory_storage
      (tx_put sha256 new_memory_storage (list_init iden_state_list new_memory_storage [])
        db_key_genesis_claim_kop_mtp [])
      db_key_genesis_claim_tree_root hash_zero

committed : Result KvMap → MemoryStorage
committed (ok tx) = elim (M.commit sha256 new_memory_storage tx) [
  | ok s ↦ s
  | err _ ↦ new_memory_storage
  | panic ↦ new_memory_storage
]
committed _ = new_memory_storage

-- A storage with one state in the list.
unfoldable genesis : MemoryStorage
unfolding committed list_append list_init value_get value_set new_storage_list write_roots tree1
    store_json
genesis = committed (
    list_append ⦃json = texts.tree_roots⦄ iden_state_list new_memory_storage genesis_tx (9 ∷ [])
      roots0)

abbrev idle : Issuer
idle = record sent {
  storage = genesis;
  iden_state_pending = hash_zero;
  iden_state_pending_transacted = false;
}

unfoldable published : Issuer
unfolding genesis publish_state publish_idle publish_again prepare record_root transact send
    send_init send_set gen_zk_proof_iden_state_update gen_id_ownership_genesis_inputs state idx_abs
    get_iden_state_by_idx list_get list_get_by_idx list_length load_json new_tx no_err commit
    set_iden_state_pending set_eth_tx_init_state in_roots_tree within followed add_leaf_roots_tree
    leaf_roots_entry iden_state all_siblings_circom siblings_from_proof read_roots split bytes_eq
    bool2byte nth uint32_to_bytes bytes_to_uint32
published = (publish_state services idle).0
