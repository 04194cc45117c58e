-- ===== src/Db/Memory/IsStorage.antt =====
-- The storage in memory keeps the promises of a storage, if SHA-256 tells all keys apart.
use go_iden3_core.Prelude.{
  ◌≡◌, refl, ap, Option, none, some, [], ◌∷◌, ◌++◌, arith, if◌then◌else◌, bytes_eq, bytes_eq_iff,
  bytes_eq-append,
}
use go_iden3_core.Result.{ok, ok-injective}
use go_iden3_core.Common.{Bytes}
use go_iden3_core.Db.{IsStorage}
use go_iden3_core.Db.Memory.{
  KvMap, MemoryStorage, same_digest, map_get, map_put, put_all, get, new_tx, tx_get, tx_put, commit,
  memory_storage,
}

module _ (sha256 : Bytes → Bytes) where
  -- kvMap.Get after kvMap.Put.
  pub map_get-map_put :
      (m : KvMap) (k v j : Bytes)
      → map_get sha256 (map_put sha256 m k v) j
        ≡ (if same_digest sha256 k j then some v else map_get sha256 m j)
  unfolding map_get map_put
  map_get-map_put [] k v j = refl
  map_get-map_put (e ∷ m) k v j = ground (
    arith,
    bytes_eq_iff (sha256 e.k) (sha256 k),
    bytes_eq_iff (sha256 e.k) (sha256 j),
    bytes_eq_iff (sha256 k) (sha256 j),
    map_get-map_put m k v j,
  )

  abbrev pub or_else : Option Bytes → Option Bytes → Option Bytes
  or_else (some v) o = some v
  or_else none o = o

  -- A map that another was put into: the other's entries come first.
  pub map_get-put_all :
      (m tx : KvMap) (j : Bytes)
      → map_get sha256 (put_all sha256 m tx) j ≡ or_else (map_get sha256 tx j) (map_get sha256 m j)
  unfolding map_get put_all
  map_get-put_all m [] j = refl
  map_get-put_all m (e ∷ tx) j =
      ground (arith, map_get-map_put (put_all sha256 m tx) e.k e.v j, map_get-put_all m tx j)

  tx_get-new_tx_lem :
      (s : MemoryStorage) (t : KvMap) (k : Bytes)
      → new_tx sha256 s ≡ ok t
      → tx_get sha256 s t k ≡ get sha256 s k
  unfolding new_tx tx_get get map_get
  tx_get-new_tx_lem s t k e = rw (← ok-injective e)

  module _ (injective : (j k : Bytes) → sha256 j ≡ sha256 k → j ≡ k) where
    same_digest-append : (p j k : Bytes) → same_digest sha256 (p ++ j) (p ++ k) ≡ bytes_eq j k
    same_digest-append p j k = ground (
      arith,
      bytes_eq_iff (sha256 (p ++ j)) (sha256 (p ++ k)),
      bytes_eq_iff (p ++ j) (p ++ k),
      injective (p ++ j) (p ++ k),
      bytes_eq-append p j k,
      λ (e : p ++ j ≡ p ++ k). ap sha256 e,
    )

    tx_get-tx_put_lem :
        (s : MemoryStorage) (t : KvMap) (k v j : Bytes)
        → tx_get sha256 s (tx_put sha256 s t k v) j
          ≡ (if bytes_eq k j then ok v else tx_get sha256 s t j)
    unfolding tx_get tx_put
    tx_get-tx_put_lem s t k v j = ground (
      arith,
      map_get-map_put t (s.prefix ++ k) v (s.prefix ++ j),
      same_digest-append s.prefix k j,
    )

    get-commit_lem :
        (s s' : MemoryStorage) (t : KvMap) (k : Bytes)
        → commit sha256 s t ≡ ok s'
        → get sha256 s' k ≡ tx_get sha256 s t k
    unfolding get tx_get commit
    get-commit_lem s s' t k e =
        rw (← ok-injective e, map_get-put_all s.kv t (s.prefix ++ k)) (ground arith)

    -- The storage in memory keeps the laws that the trees rely on, if SHA-256 tells all keys
    -- apart: a new transaction reads the storage, a transaction reads its own writes, and after a
    -- commit the storage has what the transaction read.
    pub memory_storage-IsStorage : IsStorage (memory_storage sha256)
    memory_storage-IsStorage = record {
      tx_get-new_tx = λ s t k e. tx_get-new_tx_lem s t k e;
      tx_get-tx_put = tx_get-tx_put_lem;
      get-commit = get-commit_lem;
    }
