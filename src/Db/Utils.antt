-- ===== src/Db/Utils.antt =====
-- db/storageutils.go: a number and a list that are kept in a storage, and values kept as JSON. The
-- calls work on an open transaction, so they take its storage and give the transaction back.
-- `encoding/json`, which is not in the repository, is a parameter. The prefixes are package variables
-- that no `append` writes to, so an `append` gives a new slice.
pub mod Number
pub mod Keys
pub mod Append
use go_iden3_core.Prelude.{ℕ, ◌+◌, ◌^◌, ◌%◌, ◌≡◌, Bool, List, [], ◌∷◌, ◌++◌}
use go_iden3_core.Result.{Result, ok, ◌>>=◌}
use go_iden3_core.Common.{Bytes, uint32_to_bytes, bytes_to_uint32}
use go_iden3_core.Db.{Storage}

-- json.Marshal and json.Unmarshal at one type.
pub record Json (A : Type 0) : Type 0 where
  pub marshal : A → Result Bytes
  pub unmarshal : Bytes → Result A

pub record IsJson {A : Type 0} (j : Json A) : Type 0 where
  pub unmarshal-marshal : (a : A) (bs : Bytes) → j.marshal a ≡ ok bs → j.unmarshal bs ≡ ok a

-- StorageValue; NewStorageValue is its constructor.
pub record StorageValue : Type 0 where
  pub db_key : Bytes

pub record StorageList : Type 0 where
  pub length : StorageValue
  pub db_prefix_list : Bytes
  pub db_prefix_list_by_idx : Bytes

-- "len", "list:" and "byidx:"
abbrev pub len_text : Bytes
len_text = 108 ∷ 101 ∷ 110 ∷ []

abbrev pub list_text : Bytes
list_text = 108 ∷ 105 ∷ 115 ∷ 116 ∷ 58 ∷ []

abbrev pub byidx_text : Bytes
byidx_text = 98 ∷ 121 ∷ 105 ∷ 100 ∷ 120 ∷ 58 ∷ []

-- NewStorageList
unfoldable pub new_storage_list : Bytes → StorageList
new_storage_list db_prefix = record {
  length = record { db_key = db_prefix ++ len_text };
  db_prefix_list = db_prefix ++ list_text;
  db_prefix_list_by_idx = db_prefix ++ byidx_text;
}

module _ ⦃db : Storage⦄ where
  -- StorageValue.Set
  unfoldable pub value_set : StorageValue → db.State → db.Tx → ℕ → db.Tx
  value_set sv s tx v = db.tx_put s tx sv.db_key (uint32_to_bytes v)

  -- StorageValue.Get
  unfoldable pub value_get : StorageValue → db.State → db.Tx → Result ℕ
  value_get sv s tx = do v_bytes ← db.tx_get s tx sv.db_key; bytes_to_uint32 v_bytes

  -- StorageList.Init
  unfoldable pub list_init : StorageList → db.State → db.Tx → db.Tx
  list_init sl s tx = value_set sl.length s tx 0

  -- StorageList.Length
  unfoldable pub list_length : StorageList → db.State → db.Tx → Result ℕ
  list_length sl s tx = value_get sl.length s tx

  module _ {A : Type 0} ⦃json : Json A⦄ where
    -- StorageList.Append; `idx + 1` is a uint32.
    unfoldable pub list_append : StorageList → db.State → db.Tx → Bytes → A → Result db.Tx
    list_append sl s tx key value = do
      idx ← value_get sl.length s tx
      value_json ← json.marshal value
      let tx1 = db.tx_put s tx (sl.db_prefix_list ++ key) value_json
      let tx2 = db.tx_put s tx1 (sl.db_prefix_list_by_idx ++ uint32_to_bytes idx) key
      ok (value_set sl.length s tx2 ((idx + 1) % 2 ^ 32))

    -- StorageList.Get
    unfoldable pub list_get : StorageList → db.State → db.Tx → Bytes → Result A
    list_get sl s tx key = do
      value_json ← db.tx_get s tx (sl.db_prefix_list ++ key)
      json.unmarshal value_json

    -- StorageList.GetByIdx
    unfoldable pub list_get_by_idx : StorageList → db.State → db.Tx → ℕ → Result (Bytes × A)
    list_get_by_idx sl s tx idx = do
      key ← db.tx_get s tx (sl.db_prefix_list_by_idx ++ uint32_to_bytes idx)
      value ← list_get sl s tx key
      ok (key, value)

    -- StoreJSON
    unfoldable pub store_json : db.State → db.Tx → Bytes → A → Result db.Tx
    store_json s tx key v = do v_json ← json.marshal v; ok (db.tx_put s tx key v_json)

    -- LoadJSON
    unfoldable pub load_json : db.State → Bytes → Result A
    load_json s key = do v_json ← db.get s key; json.unmarshal v_json
