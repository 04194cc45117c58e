-- ===== src/Public/Cache.antt =====
-- components/idenpuboffchain/writerhttp/writerhttp.go: the last public data of an identity, kept in the
-- slots of a ring in a storage. A slice is taken to have no capacity beyond its length.
pub mod Last
use go_iden3_core.Prelude.{
  ℕ, zero, suc, ◌+◌, ◌-◌, ◌%◌, Bool, true, false, Option, none, some, List, [], ◌∷◌, ◌++◌, ltb,
  ◌==◌, if◌then◌else◌, length, take, get_elem?, bytes_eq,
}
use go_iden3_core.Result.{Result, ok, err, panic, or_panic, ◌>>=◌, iden_state_not_found}
use go_iden3_core.Common.{Bytes}
use go_iden3_core.Common.Hex.{encode_to_string}
use go_iden3_core.Crypto.{Crypto}
use go_iden3_core.Db.{Storage}
use go_iden3_core.Db.Utils.{Json, store_json, load_json}
use go_iden3_core.MerkleTree.Elem.{Hash}
use go_iden3_core.Public.{PublicData, PublicDataBlobs, dump_blobs}

pub record CacheConfig : Type 0 where
  pub cache_len : ℕ
  pub url : Bytes

-- NewConfigDefault
abbrev pub new_config_default : Bytes → CacheConfig
new_config_default url = record { cache_len = 4; url = url }

-- "config", "cacheidx", "idenstate", "claimsroot", "rootsroot", "revocationsroot", "rootstree",
-- "revocationstree"
abbrev pub db_key_config : Bytes
db_key_config = 99 ∷ 111 ∷ 110 ∷ 102 ∷ 105 ∷ 103 ∷ []

abbrev pub db_key_cache_idx : Bytes
db_key_cache_idx = 99 ∷ 97 ∷ 99 ∷ 104 ∷ 101 ∷ 105 ∷ 100 ∷ 120 ∷ []

abbrev pub db_key_iden_state : Bytes
db_key_iden_state = 105 ∷ 100 ∷ 101 ∷ 110 ∷ 115 ∷ 116 ∷ 97 ∷ 116 ∷ 101 ∷ []

abbrev pub db_key_claims_root : Bytes
db_key_claims_root = 99 ∷ 108 ∷ 97 ∷ 105 ∷ 109 ∷ 115 ∷ 114 ∷ 111 ∷ 111 ∷ 116 ∷ []

abbrev pub db_key_roots_root : Bytes
db_key_roots_root = 114 ∷ 111 ∷ 111 ∷ 116 ∷ 115 ∷ 114 ∷ 111 ∷ 111 ∷ 116 ∷ []

abbrev pub db_key_revocations_root : Bytes
db_key_revocations_root =
    114 ∷ 101 ∷ 118 ∷ 111 ∷ 99 ∷ 97 ∷ 116 ∷ 105 ∷ 111 ∷ 110 ∷ 115 ∷ 114 ∷ 111 ∷ 111 ∷ 116 ∷ []

abbrev pub db_key_roots_tree : Bytes
db_key_roots_tree = 114 ∷ 111 ∷ 111 ∷ 116 ∷ 115 ∷ 116 ∷ 114 ∷ 101 ∷ 101 ∷ []

abbrev pub db_key_revocations_tree : Bytes
db_key_revocations_tree =
    114 ∷ 101 ∷ 118 ∷ 111 ∷ 99 ∷ 97 ∷ 116 ∷ 105 ∷ 111 ∷ 110 ∷ 115 ∷ 116 ∷ 114 ∷ 101 ∷ 101 ∷ []

-- keyIdx: `"%s-%02x"`
unfoldable pub key_idx : Bytes → ℕ → Bytes
key_idx key idx = key ++ b'-' ∷ encode_to_string (idx ∷ [])

-- A remainder of bytes, which panics for a ring without slots.
unfoldable pub byte_mod : ℕ → ℕ → Result ℕ
byte_mod a n = if n == 0 then panic else ok (a % n)

-- A hash from the first 32 bytes of a slice.
unfoldable pub hash_of : Bytes → Result Hash
hash_of x = if ltb (length x) 32 then panic else ok (take 32 x)

module _ ⦃db : Storage⦄ where
  pub record CacheWriter : Type 0 where
    pub storage : db.State
    pub cfg : CacheConfig

  -- `tx.Get(dbKeyCacheIdx)` and its first byte.
  unfoldable pub cache_idx : db.State → db.Tx → Result ℕ
  cache_idx s tx = do bs ← db.tx_get s tx db_key_cache_idx; or_panic (get_elem? bs 0)

  -- prevCacheIdx
  unfoldable pub prev_cache_idx : CacheWriter → db.Tx → Result ℕ
  prev_cache_idx i tx = do
    idx ← cache_idx i.storage tx
    byte_mod ((idx + 255) % 256) i.cfg.cache_len

  -- nextCacheIdx: the present slot, and the next one in the transaction.
  unfoldable pub next_cache_idx : CacheWriter → db.Tx → Result (db.Tx × ℕ)
  next_cache_idx i tx = do
    idx ← cache_idx i.storage tx
    next ← byte_mod ((idx + 1) % 256) i.cfg.cache_len
    ok (db.tx_put i.storage tx db_key_cache_idx (next ∷ []), idx)

  -- initCacheIdx
  unfoldable pub init_cache_idx : db.State → db.Tx → db.Tx
  init_cache_idx s tx = db.tx_put s tx db_key_cache_idx (0 ∷ [])

  -- The six writes of Publish.
  unfoldable pub put_blobs : db.State → db.Tx → ℕ → PublicDataBlobs → db.Tx
  put_blobs s tx idx b =
      let tx1 = db.tx_put s tx (key_idx db_key_iden_state idx) b.iden_state in
      let tx2 = db.tx_put s tx1 (key_idx db_key_claims_root idx) b.claims_tree_root in
      let tx3 = db.tx_put s tx2 (key_idx db_key_roots_root idx) b.roots_tree_root in
      let tx4 = db.tx_put s tx3 (key_idx db_key_roots_tree idx) b.roots_tree in
      let tx5 = db.tx_put s tx4 (key_idx db_key_revocations_root idx) b.revocations_tree_root in
      db.tx_put s tx5 (key_idx db_key_revocations_tree idx) b.revocations_tree

  -- Publish once the trees are written.
  unfoldable pub publish_blobs : PublicDataBlobs → CacheWriter → Result CacheWriter
  publish_blobs b i = do
    tx ← db.new_tx i.storage
    (tx1, idx) ← next_cache_idx i tx
    s ← db.commit i.storage (put_blobs i.storage tx1 idx b)
    ok (record i { storage = s })

  -- Publish. The transaction is opened before the lock and after the trees are written.
  module _ ⦃c : Crypto⦄ where
    unfoldable pub publish : (fuel : ℕ) → PublicData → CacheWriter → Result CacheWriter
    publish fuel p i = do b ← dump_blobs fuel p; publish_blobs b i

  -- The loop of GetPublicData, with the slots that are left.
  unfoldable pub find_slot : db.State → db.Tx → Hash → (rest idx : ℕ) → Result ℕ
  find_slot s tx query zero idx = err iden_state_not_found
  find_slot s tx query (suc rest) idx = do
    x ← db.tx_get s tx (key_idx db_key_iden_state idx)
    if bytes_eq query x then ok idx else find_slot s tx query rest (idx + 1)

  -- The slot that is asked for.
  unfoldable pub asked_slot : CacheWriter → db.Tx → Option Hash → Result ℕ
  asked_slot i tx none = prev_cache_idx i tx
  asked_slot i tx (some query) = find_slot i.storage tx query i.cfg.cache_len 0

  -- The rest of GetPublicData.
  unfoldable pub read_blobs : db.State → db.Tx → ℕ → Result PublicDataBlobs
  read_blobs s tx idx = do
    iden_state ← db.tx_get s tx (key_idx db_key_iden_state idx)
    clt_root ← db.tx_get s tx (key_idx db_key_claims_root idx)
    ret_root ← db.tx_get s tx (key_idx db_key_revocations_root idx)
    ret ← db.tx_get s tx (key_idx db_key_revocations_tree idx)
    rot_root ← db.tx_get s tx (key_idx db_key_roots_root idx)
    rot ← db.tx_get s tx (key_idx db_key_roots_tree idx)
    iden_state32 ← hash_of iden_state
    clt_root32 ← hash_of clt_root
    ret_root32 ← hash_of ret_root
    rot_root32 ← hash_of rot_root
    ok (record {
      iden_state = iden_state32;
      claims_tree_root = clt_root32;
      revocations_tree_root = ret_root32;
      revocations_tree = ret;
      roots_tree_root = rot_root32;
      roots_tree = rot;
    })

  -- GetPublicData
  unfoldable pub get_public_data : CacheWriter → Option Hash → Result PublicDataBlobs
  get_public_data i query = do
    tx ← db.new_tx i.storage
    idx ← asked_slot i tx query
    read_blobs i.storage tx idx

  module _ ⦃json : Json CacheConfig⦄ where
    -- NewIdenPubOffChainWriteHttp
    unfoldable pub new_cache_writer : CacheConfig → db.State → Result CacheWriter
    new_cache_writer cfg s = do
      tx ← db.new_tx s
      tx1 ← store_json s (init_cache_idx s tx) db_key_config cfg
      s1 ← db.commit s tx1
      ok (record { storage = s1; cfg = cfg })

    -- LoadIdenPubOffChainWriteHttp
    unfoldable pub load_cache_writer : db.State → Result CacheWriter
    load_cache_writer s = do cfg ← load_json s db_key_config; ok (record { storage = s; cfg = cfg })
