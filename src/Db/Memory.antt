-- ===== src/Db/Memory.antt =====
-- db/memory.go and db/kvmap.go: the storage in memory. A kvMap maps the SHA-256 digest of a key to
-- the key and its value. Every entry stands under the digest of its own key, so the model is the list
-- of the entries, compared by digest. SHA-256, which is not in the repository, is a parameter. Go
-- iterates over a map in any order; here Commit and Add put the first entry of the list last.
pub mod IsStorage
use go_iden3_core.Prelude.{
  ℕ, Bool, true, false, Option, none, some, List, [], ◌∷◌, ◌++◌, if◌then◌else◌, bytes_eq,
}
use go_iden3_core.Result.{Result, ok, err, not_found}
use go_iden3_core.Common.{Bytes}
use go_iden3_core.Db.{Storage}

pub record Kv : Type 0 where
  pub k : Bytes
  pub v : Bytes

abbrev pub KvMap : Type 0
KvMap = List Kv

pub record MemoryStorage : Type 0 where
  pub prefix : Bytes
  pub kv : KvMap

-- NewMemoryStorage
abbrev pub new_memory_storage : MemoryStorage
new_memory_storage = record { prefix = []; kv = [] }

-- WithPrefix; the two storages share one map, so a caller threads `kv` through both.
unfoldable pub with_prefix : MemoryStorage → Bytes → MemoryStorage
with_prefix m prefix = record m { prefix = m.prefix ++ prefix }

or_not_found : Option Bytes → Result Bytes
or_not_found (some v) = ok v
or_not_found none = err not_found

module _ (sha256 : Bytes → Bytes) where
  -- Both keys have the same digest.
  abbrev pub same_digest : Bytes → Bytes → Bool
  same_digest j k = bytes_eq (sha256 j) (sha256 k)

  -- kvMap.Get
  unfoldable pub map_get : KvMap → Bytes → Option Bytes
  map_get [] k = none
  map_get (e ∷ m) k = if same_digest e.k k then some e.v else map_get m k

  -- kvMap.Put
  unfoldable pub map_put : KvMap → Bytes → Bytes → KvMap
  map_put [] k v = record { k = k; v = v } ∷ []
  map_put (e ∷ m) k v = if same_digest e.k k then record { k = k; v = v } ∷ m else e ∷ map_put m k v

  -- The loop of Commit and of Add.
  unfoldable pub put_all : KvMap → KvMap → KvMap
  put_all m [] = m
  put_all m (e ∷ tx) = map_put (put_all m tx) e.k e.v

  -- MemoryStorage.Get
  unfoldable pub get : MemoryStorage → Bytes → Result Bytes
  unfolding or_not_found
  get s key = or_not_found (map_get s.kv (s.prefix ++ key))

  -- NewTx
  unfoldable pub new_tx : MemoryStorage → Result KvMap
  new_tx s = ok []

  read_through : MemoryStorage → Bytes → Option Bytes → Result Bytes
  read_through s key (some v) = ok v
  read_through s key none = or_not_found (map_get s.kv key)

  -- MemoryStorageTx.Get
  unfoldable pub tx_get : MemoryStorage → KvMap → Bytes → Result Bytes
  unfolding read_through or_not_found
  tx_get s tx key = read_through s (s.prefix ++ key) (map_get tx (s.prefix ++ key))

  -- MemoryStorageTx.Put
  unfoldable pub tx_put : MemoryStorage → KvMap → Bytes → Bytes → KvMap
  tx_put s tx k v = map_put tx (s.prefix ++ k) v

  -- MemoryStorageTx.Commit
  unfoldable pub commit : MemoryStorage → KvMap → Result MemoryStorage
  commit s tx = ok (record s { kv = put_all s.kv tx })

  -- MemoryStorageTx.Add
  unfoldable pub tx_add : KvMap → KvMap → KvMap
  tx_add tx atx = put_all tx atx

  abbrev pub memory_storage : Storage
  memory_storage = record {
    State = MemoryStorage;
    Tx = KvMap;
    get = get;
    new_tx = new_tx;
    tx_get = tx_get;
    tx_put = tx_put;
    commit = commit;
  }
