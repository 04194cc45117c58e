-- ===== src/Db/Utils/Number.antt =====
-- A number that StorageValue keeps, and the keys of the entries of a StorageList.
use go_iden3_core.Prelude.{ℕ, ◌<◌, ◌^◌, ◌≡◌, refl, ap, ◌∙◌, false, bytes_eq, bytes_eq_refl}
use go_iden3_core.Result.{ok, ◌>>=◌, ok-injective}
use go_iden3_core.Common.{Bytes, uint32_to_bytes}
use go_iden3_core.Common.Words.{bytes_to_uint32-uint32_to_bytes}
use go_iden3_core.Db.{Storage, IsStorage}
use go_iden3_core.Db.Utils.{StorageValue, value_get, value_set}

module _ ⦃db : Storage⦄ (laws : IsStorage db) where
  pub tx_get-tx_put_same :
      (s : db.State) (tx : db.Tx) (k v : Bytes) → db.tx_get s (db.tx_put s tx k v) k ≡ ok v
  tx_get-tx_put_same s tx k v = laws.tx_get-tx_put s tx k v k ∙ rw (bytes_eq_refl k) refl

  pub tx_get-tx_put_other :
      (s : db.State) (tx : db.Tx) (k v j : Bytes)
      → bytes_eq k j ≡ false
      → db.tx_get s (db.tx_put s tx k v) j ≡ db.tx_get s tx j
  tx_get-tx_put_other s tx k v j h = laws.tx_get-tx_put s tx k v j ∙ rw h refl

  pub value_get-value_set :
      (sv : StorageValue) (s : db.State) (tx : db.Tx) (v : ℕ)
      → v < 2 ^ 32
      → value_get sv s (value_set sv s tx v) ≡ ok v
  unfolding value_get value_set
  value_get-value_set sv s tx v small =
      ap (λ r. r >>= go_iden3_core.Common.bytes_to_uint32)
        (tx_get-tx_put_same s tx sv.db_key (uint32_to_bytes v))
      ∙ bytes_to_uint32-uint32_to_bytes v small

pub uint32_to_bytes-injective :
    (i j : ℕ) → i < 2 ^ 32 → j < 2 ^ 32 → uint32_to_bytes i ≡ uint32_to_bytes j → i ≡ j
uint32_to_bytes-injective i j hi hj e =
    ok-injective
      (cc (bytes_to_uint32-uint32_to_bytes i hi, bytes_to_uint32-uint32_to_bytes j hj, e))
