-- ===== src/Chain.antt =====
-- components/idenpubonchain/idenpubonchain.go: IdenPubOnChainer, the access to the contract that
-- keeps the published states of the identities. A method that changes the contract gives its new
-- state; proofs and transactions are opaque.
pub mod Local
use go_iden3_core.Prelude.{ℕ, ◌-◌, leb, if◌then◌else◌}
use go_iden3_core.Result.{Result}
use go_iden3_core.Common.{Bytes}
use go_iden3_core.MerkleTree.Elem.{Hash}
use go_iden3_core.Verifier.{IdenStateData}

-- What a difference of two numbers of blocks is.
pub data ℤ : Type 0 where
  pos : ℕ → ℤ
  negsuc : ℕ → ℤ

unfoldable pub minus : ℕ → ℕ → ℤ
minus a b = if leb b a then pos (a - b) else negsuc (b - a - 1)

pub record IdenPubOnChainer : Type 1 where
  pub State : Type 0
  pub ZkProof : Type 0
  pub Transaction : Type 0
  pub get_state : State → Bytes → Result IdenStateData
  pub set_state : State → Bytes → Hash → ZkProof → Result (State × Transaction)
  pub init_state : State → Bytes → Hash → Hash → ZkProof → Result (State × Transaction)
  pub tx_confirm_blocks : State → Transaction → Result ℤ
