-- ===== src/Chain/Local/Runs.antt =====
-- The runs of the local chain: any sequence of accepted writes and syncs from New.
use mathlib.Core.Path.{subst}
use go_iden3_core.Prelude.{
  some-injective, ℕ, ◌-◌, ◌<◌, ◌≡◌, ◌≢◌, ap, Bool, Bool-cases, Option-cases, inl, inr, some, List,
  [], ◌∷◌, ◌++◌, length, length-append, All, All-append, get_elem?-lt, bytes_eq, arith,
}
use go_iden3_core.Result.{ok, panic, >>=-eq-ok, ok-injective, or_panic}
use go_iden3_core.Common.{Bytes}
use go_iden3_core.MerkleTree.Elem.{Hash}
use go_iden3_core.Verifier.{IdenStateData}
use go_iden3_core.Chain.Local.{
  IdenStateHistory, IdIdenStateData, IdenPubOnChain, Transaction, new_iden_pub_on_chain,
  new_iden_state_history, history_add, history_of, sync_init, sync_set, sync, last_state, get_state,
  set_state, init_state, verify_zkp,
}
use go_iden3_core.Chain.Local.Published.{Known, sync-newest, newest}

-- A history has a state, and every pending update is of an id with a history.
pub record WellFormed (ip : IdenPubOnChain) : Type 0 where
  pub filled :
      (id : Bytes) (h : IdenStateHistory)
      → history_of ip.iden_states_data id ≡ some h
      → 0 < length h.iden_states
  pub known : All (λ p. Known ip.iden_states_data p.0) ip.pending_set

abbrev Filled : List (Bytes × IdenStateHistory) → Type 0
Filled m = (id : Bytes) (h : IdenStateHistory) → history_of m id ≡ some h → 0 < length h.iden_states

Filled-put :
    (m : List (Bytes × IdenStateHistory)) (j : Bytes) (g : IdenStateHistory) (d : IdenStateData)
    → Filled m
    → Filled ((j, history_add g d) ∷ m)
unfolding history_of history_add
Filled-put m j g d filled id h e = elim (Bool-cases (bytes_eq j id)) [
  | inl same ↦
      let added : history_add g d ≡ h = some-injective (rw (same) at e) in
      let states : g.iden_states ++ d ∷ [] ≡ h.iden_states =
        ap (λ (x : IdenStateHistory). x.iden_states) added in
      omega (
        arith,
        length-append g.iden_states (d ∷ []),
        ap (λ (x : List IdenStateData). length x) states,
      )
  | inr other ↦ filled id h (rw (other) at e)
]

Filled-sync_init :
    (ps : List IdIdenStateData) (m : List (Bytes × IdenStateHistory))
    → Filled m
    → Filled (sync_init m ps)
unfolding sync_init
Filled-sync_init [] m filled = filled
Filled-sync_init (p ∷ ps) m filled =
    Filled-sync_init ps _ (Filled-put m p.0 new_iden_state_history p.1 filled)

Filled-sync_set :
    (ps : List IdIdenStateData) (m m' : List (Bytes × IdenStateHistory))
    → Filled m
    → sync_set m ps ≡ ok m'
    → Filled m'
unfolding sync_set
Filled-sync_set [] m m' filled e = subst Filled (ok-injective e) filled
Filled-sync_set (p ∷ ps) m m' filled e =
    let (h, _, e1) = >>=-eq-ok (or_panic (history_of m p.0)) _ e in
    Filled-sync_set ps _ m' (Filled-put m p.0 h p.1 filled) e1

get_state-Known :
    (ip : IdenPubOnChain) (id : Bytes) {d : IdenStateData}
    → get_state ip id ≡ ok d
    → Known ip.iden_states_data id
unfolding get_state
get_state-Known ip id e = elim (Option-cases (history_of ip.iden_states_data id)) [
  | inl missing ↦ cc (rw (missing) at e)
  | inr (h, found) ↦ (h, found)
]

get_state-WellFormed : (ip : IdenPubOnChain) (id : Bytes) → WellFormed ip → get_state ip id ≢ panic
unfolding get_state last_state
get_state-WellFormed ip id good e = elim (Option-cases (history_of ip.iden_states_data id)) [
  | inl missing ↦ cc (rw (missing) at e)
  | inr (h, found) ↦
      let (d, last) =
        get_elem?-lt h.iden_states (length h.iden_states - 1)
          (omega (arith, good.filled id h found)) in
      cc (rw (found, last) at e)
]

module _ {ZkProof : Type 0} (verify : ZkProof → List ℕ → Bool) where
  -- One accepted call.
  pub data Step : (before after : IdenPubOnChain) → Type 0 where
    set :
        {before after : IdenPubOnChain} (time block : ℕ) (id : Bytes) (new_state : Hash)
        (zk_proof : ZkProof) (tx : Transaction)
        → set_state verify time block before id new_state zk_proof ≡ ok (after, tx)
        → Step before after
    init :
        {before after : IdenPubOnChain} (time block : ℕ) (id : Bytes)
        (genesis_state new_state : Hash) (zk_proof : ZkProof) (tx : Transaction)
        → init_state verify time block before id genesis_state new_state zk_proof ≡ ok (after, tx)
        → Step before after
    publish : {before after : IdenPubOnChain} → sync before ≡ ok after → Step before after

  pub data Reached : (now : IdenPubOnChain) → Type 0 where
    start : Reached new_iden_pub_on_chain
    more : {before after : IdenPubOnChain} → Reached before → Step before after → Reached after

  set_state-pending :
      (time block : ℕ) (ip ip' : IdenPubOnChain) (id : Bytes) (new_state : Hash)
      (zk_proof : ZkProof) (tx : Transaction)
      → set_state verify time block ip id new_state zk_proof ≡ ok (ip', tx)
      → (d : IdenStateData) × Known ip.iden_states_data id
        × (record ip { pending_set = ip.pending_set ++ (id, d) ∷ [] } ≡ ip')
  unfolding set_state
  set_state-pending time block ip ip' id new_state zk_proof tx e =
      let (old, found, e1) = >>=-eq-ok (get_state ip id) _ e in
      elim (Bool-cases (verify_zkp verify zk_proof id old.iden_state new_state)) [
        | inl valid ↦ (
          record { block_ts = time; block_n = block; iden_state = new_state },
          get_state-Known ip id found,
          ap (λ (x : IdenPubOnChain × Transaction). x.0) (ok-injective (rw (valid) at e1)),
        )
        | inr bad ↦ cc (rw (bad) at e1)
      ]

  init_state-pending :
      (time block : ℕ) (ip ip' : IdenPubOnChain) (id : Bytes) (genesis_state new_state : Hash)
      (zk_proof : ZkProof) (tx : Transaction)
      → init_state verify time block ip id genesis_state new_state zk_proof ≡ ok (ip', tx)
      → (d : IdenStateData) × (record ip { pending_init = ip.pending_init ++ (id, d) ∷ [] } ≡ ip')
  unfolding init_state
  init_state-pending time block ip ip' id genesis_state new_state zk_proof tx e =
      elim (Option-cases (history_of ip.iden_states_data id)) [
        | inr (h, found) ↦ cc (rw (found, init_state) at e)
        | inl missing ↦ elim (Bool-cases (verify_zkp verify zk_proof id genesis_state new_state)) [
          | inl valid ↦ (
            record { block_ts = time; block_n = block; iden_state = new_state },
            ap (λ (x : IdenPubOnChain × Transaction). x.0)
                (ok-injective (rw (missing, valid, init_state) at e)),
          )
          | inr bad ↦ cc (rw (missing, bad, init_state) at e)
        ]
      ]

  Step-WellFormed :
      {before after : IdenPubOnChain} → Step before after → WellFormed before → WellFormed after
  unfolding sync
  Step-WellFormed {before} {after} (set time block id new_state zk_proof tx e) good =
      let (d, known, same) = set_state-pending time block before after id new_state zk_proof tx e in
      subst WellFormed same (record {
        filled = good.filled;
        known = All-append _ before.pending_set _ good.known (known, tt);
      })
  Step-WellFormed {before} {after} (init time block id g new_state zk_proof tx e) good =
      let (d, same) = init_state-pending time block before after id g new_state zk_proof tx e in
      subst WellFormed same (record { filled = good.filled; known = good.known })
  Step-WellFormed {before} {after} (publish e) good =
      let (m, run, e1) =
        >>=-eq-ok
          (sync_set (sync_init before.iden_states_data before.pending_init) before.pending_set) _
          e in
      subst WellFormed (ok-injective e1) (record {
        filled =
            Filled-sync_set before.pending_set _ m
              (Filled-sync_init before.pending_init before.iden_states_data good.filled) run;
        known = tt;
      })

  pub Reached-WellFormed : (ip : IdenPubOnChain) → Reached ip → WellFormed ip
  unfolding history_of
  Reached-WellFormed _ start = record { filled = λ id h e. cc; known = tt }
  Reached-WellFormed _ (more {before} run step) =
      Step-WellFormed step (Reached-WellFormed before run)

  -- After any sequence of accepted SetState and InitState calls and of Sync on a new local chain,
  -- GetState does not panic, Sync ends and leaves nothing pending, and then GetState of an id
  -- gives the last of the states that were pending for it, or else what it gave before.
  pub sync-Reached :
      (ip : IdenPubOnChain)
      → Reached ip
      → ((id : Bytes) → get_state ip id ≢ panic)
        × (ip' : IdenPubOnChain) × (sync ip ≡ ok ip')
        × (ip'.pending_init ≡ [])
        × (ip'.pending_set ≡ [])
        × ((id : Bytes)
            → get_state ip' id ≡ newest id (ip.pending_init ++ ip.pending_set) (get_state ip id))
  sync-Reached ip run =
      let good = Reached-WellFormed ip run in
      let (ip', synced, no_init, no_set, gives) = sync-newest ip good.known in
      ((λ id. get_state-WellFormed ip id good), ip', synced, no_init, no_set, gives)
