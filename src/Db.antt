-- ===== src/Db.antt =====
-- db/storage.go: the interfaces Storage and Tx, as far as the trees use them, and what a client
-- relies on. A transaction reads through to its storage, so its reads take both.
pub mod Memory
pub mod Utils
use go_iden3_core.Prelude.{◌≡◌, bytes_eq, if◌then◌else◌}
use go_iden3_core.Result.{Result, ok}
use go_iden3_core.Common.{Bytes}

pub record Storage : Type 1 where
  pub State : Type 0
  pub Tx : Type 0
  pub get : State → Bytes → Result Bytes
  pub new_tx : State → Result Tx
  pub tx_get : State → Tx → Bytes → Result Bytes
  pub tx_put : State → Tx → Bytes → Bytes → Tx
  pub commit : State → Tx → Result State

pub record IsStorage (db : Storage) : Type 0 where
  -- a new transaction reads the storage
  pub tx_get-new_tx :
      (s : db.State) (t : db.Tx) (k : Bytes) → db.new_tx s ≡ ok t → db.tx_get s t k ≡ db.get s k
  -- a transaction reads its own writes
  pub tx_get-tx_put :
      (s : db.State) (t : db.Tx) (k v j : Bytes)
      → db.tx_get s (db.tx_put s t k v) j ≡ (if bytes_eq k j then ok v else db.tx_get s t j)
  -- after a commit the storage has what the transaction read
  pub get-commit :
      (s s' : db.State) (t : db.Tx) (k : Bytes)
      → db.commit s t ≡ ok s'
      → db.get s' k ≡ db.tx_get s t k
