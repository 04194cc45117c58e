-- ===== src/Tests/Chains.antt =====
-- A run of the local chain: an identity is published.
use go_iden3_core.Prelude.{ℕ, ◌≡◌, ◌≢◌, refl, Bool, true, List, [], ◌∷◌, ◌++◌}
use go_iden3_core.Result.{ok, panic}
use go_iden3_core.Common.{Bytes}
use go_iden3_core.BigInt.{big_bytes}
use go_iden3_core.MerkleTree.Elem.{hash_zero}
use go_iden3_core.Chain.Local.{
  IdenPubOnChain, new_iden_pub_on_chain, init_state, get_state, sync, verify_zkp, history_of,
}
use go_iden3_core.Chain.Local.Published.{newest}
use go_iden3_core.Chain.Local.Runs.{init, Reached, start, more, sync-Reached}

abbrev accepts : ℕ → List ℕ → Bool
accepts p signals = true

abbrev requested : IdenPubOnChain
requested = record {
  iden_states_data = [];
  pending_init = (1 ∷ [], record { block_ts = 10; block_n = 2; iden_state = hash_zero }) ∷ [];
  pending_set = [];
}

init_accepted :
    init_state accepts 10 2 new_iden_pub_on_chain (1 ∷ []) hash_zero hash_zero 0
    ≡ ok (requested, 2 ∷ [])
unfolding init_state verify_zkp history_of big_bytes
init_accepted = refl

requested-Reached : Reached accepts requested
requested-Reached = more start (init 10 2 (1 ∷ []) hash_zero hash_zero 0 (2 ∷ []) init_accepted)

sync-Reached_example :
    ((id : Bytes) → get_state requested id ≢ panic)
    × (ip' : IdenPubOnChain) × (sync requested ≡ ok ip')
    × (ip'.pending_init ≡ [])
    × (ip'.pending_set ≡ [])
    × ((id : Bytes)
        → get_state ip' id
          ≡ newest id (requested.pending_init ++ requested.pending_set) (get_state requested id))
sync-Reached_example = sync-Reached accepts requested requested-Reached
