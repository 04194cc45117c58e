-- ===== src/Chain/Local/Published.antt =====
-- Sync: what GetState gives after the pending writes are published.
use go_iden3_core.Prelude.{
  ◌≡◌, refl, sym, ap, ◌∙◌, Bool-cases, inl, inr, some, List, [], ◌∷◌, ◌++◌, if◌then◌else◌,
  length-append, All, get_elem?, get_elem?-append_length, bytes_eq, arith,
}
use go_iden3_core.Result.{Result, ok, or_panic}
use go_iden3_core.Common.{Bytes}
use go_iden3_core.Verifier.{IdenStateData}
use go_iden3_core.Chain.Local.{
  IdenStateHistory, IdIdenStateData, IdenPubOnChain, new_iden_state_history, history_add,
  history_of, sync_init, sync_set, sync, last_state, get_state,
}

-- The ids that have a history.
abbrev pub Known : List (Bytes × IdenStateHistory) → Bytes → Type 0
Known m id = (h : IdenStateHistory) × (history_of m id ≡ some h)

-- The last write for an id, or else what was there before.
unfoldable pub newest : Bytes → List IdIdenStateData → Result IdenStateData → Result IdenStateData
newest id [] before = before
newest id (p ∷ ps) before = newest id ps (if bytes_eq p.0 id then ok p.1 else before)

newest-append :
    (id : Bytes) (ps qs : List IdIdenStateData) (r : Result IdenStateData)
    → newest id (ps ++ qs) r ≡ newest id qs (newest id ps r)
unfolding newest
newest-append id [] qs r = refl
newest-append id (p ∷ ps) qs r = newest-append id ps qs (if bytes_eq p.0 id then ok p.1 else r)

abbrev Histories : Type 0
Histories = List (Bytes × IdenStateHistory)

-- GetState in terms of the map alone.
state_in : Histories → Bytes → Result IdenStateData
state_in m id = get_state (record { iden_states_data = m; pending_init = []; pending_set = [] }) id

last_state-history_add :
    (h : IdenStateHistory) (d : IdenStateData) → last_state (history_add h d) ≡ ok d
unfolding last_state history_add
last_state-history_add h d =
    ap (λ n. or_panic (get_elem? (h.iden_states ++ d ∷ []) n))
      (omega (arith, length-append h.iden_states (d ∷ [])))
    ∙ ap or_panic (get_elem?-append_length h.iden_states [] d)

state_in-put :
    (m : Histories) (p : IdIdenStateData) (h : IdenStateHistory) (id : Bytes)
    → state_in ((p.0, history_add h p.1) ∷ m) id
      ≡ (if bytes_eq p.0 id then ok p.1 else state_in m id)
unfolding state_in get_state history_of
state_in-put m p h id = elim (Bool-cases (bytes_eq p.0 id)) [
  | inl same ↦ rw (same) (last_state-history_add h p.1)
  | inr other ↦ rw (other) refl
]

state_in-sync_init :
    (ps : List IdIdenStateData) (m : Histories) (id : Bytes)
    → state_in (sync_init m ps) id ≡ newest id ps (state_in m id)
unfolding sync_init newest
state_in-sync_init [] m id = refl
state_in-sync_init (p ∷ ps) m id =
    state_in-sync_init ps ((p.0, history_add new_iden_state_history p.1) ∷ m) id
    ∙ ap (newest id ps) (state_in-put m p new_iden_state_history id)

pub Known-put :
    (m : Histories) (j : Bytes) (h : IdenStateHistory) (id : Bytes)
    → Known m id
    → Known ((j, h) ∷ m) id
unfolding history_of
Known-put m j h id (g, e) = elim (Bool-cases (bytes_eq j id)) [
  | inl same ↦ (h, rw same refl)
  | inr other ↦ (g, rw other e)
]

All-Known-put :
    (m : Histories) (j : Bytes) (h : IdenStateHistory) (ps : List IdIdenStateData)
    → All (λ p. Known m p.0) ps
    → All (λ p. Known ((j, h) ∷ m) p.0) ps
All-Known-put m j h [] known = tt
All-Known-put m j h (p ∷ ps) (first, others) =
    (Known-put m j h p.0 first, All-Known-put m j h ps others)

pub Known-sync_init :
    (ps qs : List IdIdenStateData) (m : Histories)
    → All (λ p. Known m p.0) qs
    → All (λ p. Known (sync_init m ps) p.0) qs
unfolding sync_init
Known-sync_init [] qs m known = known
Known-sync_init (p ∷ ps) qs m known = Known-sync_init ps qs _ (All-Known-put m _ _ qs known)

state_in-sync_set :
    (ps : List IdIdenStateData) (m : Histories)
    → All (λ p. Known m p.0) ps
    → (m' : Histories) × (sync_set m ps ≡ ok m')
      × ((id : Bytes) → state_in m' id ≡ newest id ps (state_in m id))
unfolding sync_set newest
state_in-sync_set [] m known = (m, refl, λ id. refl)
state_in-sync_set (p ∷ ps) m ((h, e), others) =
    let (m', run, same) =
      state_in-sync_set ps ((p.0, history_add h p.1) ∷ m) (All-Known-put m _ _ ps others) in
    (m', rw e run, λ id. same id ∙ ap (newest id ps) (state_in-put m p h id))

pub sync-newest :
    (ip : IdenPubOnChain)
    → All (λ p. Known ip.iden_states_data p.0) ip.pending_set
    → (ip' : IdenPubOnChain) × (sync ip ≡ ok ip')
      × (ip'.pending_init ≡ [])
      × (ip'.pending_set ≡ [])
      × ((id : Bytes)
          → get_state ip' id ≡ newest id (ip.pending_init ++ ip.pending_set) (get_state ip id))
unfolding sync state_in get_state
sync-newest ip known =
    let m = ip.iden_states_data in
    let (m', run, same) =
      state_in-sync_set ip.pending_set (sync_init m ip.pending_init)
        (Known-sync_init ip.pending_init ip.pending_set m known) in
    (
      record { iden_states_data = m'; pending_init = []; pending_set = [] },
      rw run refl,
      refl,
      refl,
      λ id.
          same id
          ∙ ap (newest id ip.pending_set) (state_in-sync_init ip.pending_init m id)
          ∙ sym (newest-append id ip.pending_init ip.pending_set (state_in m id)),
    )
