-- ===== src/Chain/Local.antt =====
-- components/idenpubonchain/local/local.go: the published states kept in memory. A Go map is the list
-- of its entries, the newest first. The functions timeNow and blockNow, which do not change during a
-- call, are the arguments `time` and `block`; the zero-knowledge verifier with its key is a parameter.
-- Ids and states, which are handed over as pointers, are not changed afterwards.
pub mod Published
pub mod Runs
use go_iden3_core.Prelude.{
  ℕ, ◌-◌, Bool, true, false, not, Option, none, some, List, [], ◌∷◌, ◌++◌, ◌==◌, if◌then◌else◌,
  length, get_elem?, bytes_eq,
}
use go_iden3_core.Result.{
  Result, ok, err, panic, ◌>>=◌, or_panic, iden_not_on_chain, iden_by_block_not_found,
  iden_by_time_not_found, already_on_chain, zkproof_failed,
}
use go_iden3_core.Common.{Bytes}
use go_iden3_core.BigInt.{big_bytes, set_bytes, copy_into}
use go_iden3_core.MerkleTree.Elem.{Hash, hash_zero, big_int}
use go_iden3_core.Verifier.{IdenStateData}
use go_iden3_core.Chain.{ℤ, minus}

pub record IdenStateHistory : Type 0 where
  pub iden_states : List IdenStateData
  pub by_time : List (ℕ × IdenStateData)
  pub by_block : List (ℕ × IdenStateData)

-- NewIdenStateHistory
abbrev pub new_iden_state_history : IdenStateHistory
new_iden_state_history = record { iden_states = []; by_time = []; by_block = [] }

-- IdenStateHistory.Add
unfoldable pub history_add : IdenStateHistory → IdenStateData → IdenStateHistory
history_add h d = record {
  iden_states = h.iden_states ++ d ∷ [];
  by_time = (d.block_ts, d) ∷ h.by_time;
  by_block = (d.block_n, d) ∷ h.by_block;
}

-- A map from numbers, and a map from ids.
unfoldable pub at_number : List (ℕ × IdenStateData) → ℕ → Option IdenStateData
at_number [] n = none
at_number (e ∷ m) n = if e.0 == n then some e.1 else at_number m n

unfoldable pub history_of : List (Bytes × IdenStateHistory) → Bytes → Option IdenStateHistory
history_of [] id = none
history_of (e ∷ m) id = if bytes_eq e.0 id then some e.1 else history_of m id

-- IdIdenStateData
abbrev pub IdIdenStateData : Type 0
IdIdenStateData = Bytes × IdenStateData

pub record IdenPubOnChain : Type 0 where
  pub iden_states_data : List (Bytes × IdenStateHistory)
  pub pending_init : List IdIdenStateData
  pub pending_set : List IdIdenStateData

-- New
abbrev pub new_iden_pub_on_chain : IdenPubOnChain
new_iden_pub_on_chain = record { iden_states_data = []; pending_init = []; pending_set = [] }

-- The two loops of Sync. The second one panics for an id without a history, a nil pointer.
unfoldable pub sync_init :
    List (Bytes × IdenStateHistory) → List IdIdenStateData → List (Bytes × IdenStateHistory)
sync_init m [] = m
sync_init m (p ∷ ps) = sync_init ((p.0, history_add new_iden_state_history p.1) ∷ m) ps

unfoldable pub sync_set :
    List (Bytes × IdenStateHistory)
    → List IdIdenStateData
    → Result (List (Bytes × IdenStateHistory))
sync_set m [] = ok m
sync_set m (p ∷ ps) = do h ← or_panic (history_of m p.0); sync_set ((p.0, history_add h p.1) ∷ m) ps

-- Sync
unfoldable pub sync : IdenPubOnChain → Result IdenPubOnChain
sync ip = do
  m ← sync_set (sync_init ip.iden_states_data ip.pending_init) ip.pending_set
  ok (record { iden_states_data = m; pending_init = []; pending_set = [] })

-- The last of the states of a history.
unfoldable pub last_state : IdenStateHistory → Result IdenStateData
last_state h = or_panic (get_elem? h.iden_states (length h.iden_states - 1))

or_not_on_chain : Option IdenStateHistory → Result IdenStateHistory
or_not_on_chain none = err iden_not_on_chain
or_not_on_chain (some h) = ok h

-- GetState
unfoldable pub get_state : IdenPubOnChain → Bytes → Result IdenStateData
unfolding or_not_on_chain
get_state ip id = do h ← or_not_on_chain (history_of ip.iden_states_data id); last_state h

-- GetStateByBlock
unfoldable pub get_state_by_block : IdenPubOnChain → Bytes → ℕ → Result IdenStateData
unfolding or_not_on_chain
get_state_by_block ip id block = do
  h ← or_not_on_chain (history_of ip.iden_states_data id)
  elim (at_number h.by_block block) [ none ↦ err iden_by_block_not_found | some d ↦ ok d ]

-- GetStateByTime
unfoldable pub get_state_by_time : IdenPubOnChain → Bytes → ℕ → Result IdenStateData
unfolding or_not_on_chain
get_state_by_time ip id time = do
  h ← or_not_on_chain (history_of ip.iden_states_data id)
  elim (at_number h.by_time time) [ none ↦ err iden_by_time_not_found | some d ↦ ok d ]

-- The data of a transaction, the part that is read.
abbrev pub Transaction : Type 0
Transaction = Bytes

-- TxConfirmBlocks
unfoldable pub tx_confirm_blocks : (block : ℕ) → Transaction → ℤ
tx_confirm_blocks block tx = minus block (set_bytes tx)

module _ {ZkProof : Type 0} (verify : ZkProof → List ℕ → Bool) where
  -- verifyZKP
  unfoldable pub verify_zkp : ZkProof → Bytes → Hash → Hash → Bool
  verify_zkp zk_proof id old_state new_state =
      verify zk_proof
        (big_int (copy_into hash_zero id) ∷ big_int old_state ∷ big_int new_state ∷ [])

  -- SetState
  unfoldable pub set_state :
      (time block : ℕ)
      → IdenPubOnChain
      → Bytes
      → Hash
      → ZkProof
      → Result (IdenPubOnChain × Transaction)
  set_state time block ip id new_state zk_proof = do
    old ← get_state ip id
    if not (verify_zkp zk_proof id old.iden_state new_state)
        then err zkproof_failed
        else (let d : IdenStateData = record {
          block_ts = time;
          block_n = block;
          iden_state = new_state;
        } in
            ok (record ip { pending_set = ip.pending_set ++ (id, d) ∷ [] }, []))

  -- InitState
  unfoldable pub init_state :
      (time block : ℕ)
      → IdenPubOnChain
      → Bytes
      → Hash
      → Hash
      → ZkProof
      → Result (IdenPubOnChain × Transaction)
  init_state time block ip id genesis_state new_state zk_proof =
      elim (history_of ip.iden_states_data id) [
        | some _ ↦ err already_on_chain
        | none ↦
            if not (verify_zkp zk_proof id genesis_state new_state)
            then err zkproof_failed
            else (let d : IdenStateData = record {
              block_ts = time;
              block_n = block;
              iden_state = new_state;
            } in
                ok (record ip { pending_init = ip.pending_init ++ (id, d) ∷ [] }, big_bytes block))
      ]
