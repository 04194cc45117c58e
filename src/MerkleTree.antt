-- ===== src/MerkleTree.antt =====
-- merkletree/merkletree.go: the sparse Merkle tree over a key-value storage. The locks are left out:
-- an operation is one step. `maxLevels` is a natural number. The count `rest` of the recursions over
-- levels is `maxLevels - lvl`, so that a case on it is the source's test on `lvl`.
pub mod Elem
pub mod Nodes
pub mod Spec
pub mod Lookup
pub mod AddEntry
pub mod Present
pub mod Proof
pub mod Insert
pub mod Dump
use go_iden3_core.Prelude.{
  ℕ, zero, suc, ◌≡◌, Bool, true, false, not, Option, none, some, List, [], ◌∷◌, ◌++◌, ltb, ◌==◌,
  if◌then◌else◌, length, get_elem?, bytes_eq,
}
use go_iden3_core.Result.{
  Result, ok, err, panic, node_key_already_exists, entry_index_not_found, reached_max_level,
  invalid_db_value, entry_index_already_exists, not_writable, entry_data_not_match, not_in_field,
  ◌>>=◌, or_panic,
}
use go_iden3_core.Common.{Bytes}
use go_iden3_core.Crypto.{Crypto}
use go_iden3_core.Db.{Storage}
use Elem.{Hash, Data, Entry, hash_zero, get_path, h_index, hi_hv, check_entry_in_field, entry_equal}
use go_iden3_core.BigInt.{copy_into}
use Nodes.{Node, middle, leaf, empty, key, value, new_node_from_bytes, db_entry_type_root}

-- `[]byte("currentroot")`
abbrev pub root_node_value : Bytes
root_node_value = b'c' ∷ b'u' ∷ b'r' ∷ b'r' ∷ b'e' ∷ b'n' ∷ b't' ∷ b'r' ∷ b'o' ∷ b'o' ∷ b't' ∷ []

-- GetNode, over any way to read a key.
unfoldable pub get_node : (Bytes → Result Bytes) → Hash → Result Node
get_node read key = if bytes_eq key hash_zero then ok empty else read key >>= new_node_from_bytes

-- The child on the side of a path's bit.
abbrev pub child : Bool → Hash → Hash → Hash
child true l r = r
child false l r = l

-- NewNodeMiddle with `k` on the side of the bit and `sibling` on the other.
abbrev pub middle_at : Bool → Hash → Hash → Node
middle_at true k sibling = middle sibling k
middle_at false k sibling = middle k sibling

abbrev pub same_bit : Bool → Bool → Bool
same_bit true b = b
same_bit false b = not b

abbrev pub is_empty : Node → Bool
is_empty empty = true
is_empty n = false

-- `path[lvl]`
abbrev pub bit_of : List Bool → ℕ → Result Bool
bit_of path lvl = or_panic (get_elem? path lvl)

module _ ⦃db : Storage⦄ where
  pub record MerkleTree : Type 0 where
    pub storage : db.State
    pub root_key : Hash
    pub max_levels : ℕ
    pub writable : Bool

  -- dbInsert
  unfoldable pub db_insert : db.State → db.Tx → Bytes → ℕ → Bytes → db.Tx
  db_insert s tx k t v = db.tx_put s tx k (t ∷ v)

  db_value : Bytes → Result (ℕ × Bytes)
  db_value (t ∷ b ∷ bs) = ok (t, b ∷ bs)
  db_value v = err invalid_db_value

  -- dbGet
  unfoldable pub db_get : db.State → Bytes → Result (ℕ × Bytes)
  unfolding db_value
  db_get s k = if bytes_eq k hash_zero then ok (0, []) else db.get s k >>= db_value

module _ ⦃c : Crypto⦄ ⦃db : Storage⦄ where
  -- What addNode does once it has the key: a key that the transaction can read is refused.
  unfoldable pub put_fresh : db.State → db.Tx → Hash → Bytes → Result (db.Tx × Hash)
  put_fresh s tx k v = elim (db.tx_get s tx k) [
    | ok _ ↦ err node_key_already_exists
    | err _ ↦ ok (db.tx_put s tx k v, k)
    | panic ↦ panic
  ]

  -- addNode
  unfoldable pub add_node : MerkleTree → db.Tx → Node → Result (db.Tx × Hash)
  unfolding put_fresh
  add_node mt tx n =
      if not mt.writable
      then err not_writable
      else if is_empty n
      then (do k ← key n; ok (tx, k))
      else do k ← key n; put_fresh mt.storage tx k (value n)

  -- pushLeaf: `rest` below two is `lvl > maxLevels-2`.
  unfoldable pub push_leaf :
      MerkleTree
      → db.Tx
      → (new_leaf old_leaf : Node) → (rest lvl : ℕ) → (path_new_leaf path_old_leaf : List Bool)
      → Result (db.Tx × Hash)
  push_leaf mt tx new_leaf old_leaf zero lvl pn po = err reached_max_level
  push_leaf mt tx new_leaf old_leaf (suc zero) lvl pn po = err reached_max_level
  push_leaf mt tx new_leaf old_leaf (suc (suc rest)) lvl pn po =
      let deeper = push_leaf mt tx new_leaf old_leaf (suc rest) (suc lvl) pn po in
      do
        bn ← bit_of pn lvl
        bo ← bit_of po lvl
        if same_bit bn bo
            then (do (tx', next_key) ← deeper; add_node mt tx' (middle_at bn next_key hash_zero))
            else (do
              old_leaf_key ← key old_leaf
              new_leaf_key ← key new_leaf
              (tx', _) ← add_node mt tx new_leaf
              add_node mt tx' (middle_at bn new_leaf_key old_leaf_key))

  -- addLeaf at a leaf.
  unfoldable pub add_at_leaf :
      MerkleTree
      → db.Tx
      → (new_leaf old_leaf : Entry) → (rest lvl : ℕ) → (path : List Bool) → Result (db.Tx × Hash)
  add_at_leaf mt tx new_leaf old_leaf rest lvl path = do
    hi ← h_index old_leaf
    new_leaf_hi ← h_index new_leaf
    if bytes_eq hi new_leaf_hi then err entry_index_already_exists else do
      path_old_leaf ← get_path mt.max_levels hi
      push_leaf mt tx (leaf new_leaf) (leaf old_leaf) rest lvl path path_old_leaf

  -- addLeaf: no `rest` is `lvl > maxLevels-1`.
  unfoldable pub add_leaf :
      MerkleTree
      → db.Tx
      → (new_leaf : Entry) → (key : Hash) → (rest lvl : ℕ) → (path : List Bool)
      → Result (db.Tx × Hash)
  add_leaf mt tx new_leaf k zero lvl path = err reached_max_level
  add_leaf mt tx new_leaf k (suc rest) lvl path = do
    n ← get_node (db.get mt.storage) k
    elim n [
      | empty ↦ add_node mt tx (leaf new_leaf)
      | leaf old_leaf ↦ add_at_leaf mt tx new_leaf old_leaf (suc rest) lvl path
      | middle l r ↦ do
        b ← bit_of path lvl
        (tx', next_key) ← add_leaf mt tx new_leaf (child b l r) rest (suc lvl) path
        add_node mt tx' (middle_at b next_key (child b r l))
    ]

  -- AddEntry up to the new root key.
  unfoldable pub new_root : MerkleTree → Entry → Result (db.Tx × Hash)
  new_root mt e = do
    tx ← db.new_tx mt.storage
    hi ← h_index e
    path ← get_path mt.max_levels hi
    add_leaf mt tx e mt.root_key mt.max_levels 0 path

  -- The rest of AddEntry: the root key is updated before the commit, which may fail.
  unfoldable pub commit_root : MerkleTree → db.Tx × Hash → MerkleTree × Result (Unit {0})
  commit_root mt (tx, k) =
      let mt' = record mt { root_key = k } in
      elim (db.commit mt.storage (db_insert mt.storage tx root_node_value db_entry_type_root k)) [
        | ok s ↦ (record mt' { storage = s }, ok tt)
        | err x ↦ (mt', err x)
        | panic ↦ (mt', panic)
      ]

  -- AddEntry behind its two guards.
  unfoldable pub add_checked : MerkleTree → Entry → MerkleTree × Result (Unit {0})
  add_checked mt e = elim (new_root mt e) [
    | ok r ↦ commit_root mt r
    | err x ↦ (mt, err x)
    | panic ↦ (mt, panic)
  ]

  -- AddEntry, with the state that it leaves behind.
  unfoldable pub add_entry : MerkleTree → Entry → MerkleTree × Result (Unit {0})
  add_entry mt e =
      if not mt.writable
      then (mt, err not_writable)
      else if not (check_entry_in_field e)
      then (mt, err not_in_field)
      else add_checked mt e

  -- The loop of GetDataByIndex.
  unfoldable pub get_data_loop : db.State → Hash → (rest lvl : ℕ) → List Bool → Hash → Result Data
  get_data_loop s hi zero lvl path next_key = err entry_index_not_found
  get_data_loop s hi (suc rest) lvl path next_key = do
    n ← get_node (db.get s) next_key
    elim n [
      | empty ↦ err entry_index_not_found
      | leaf e ↦ do h ← h_index e; if bytes_eq hi h then ok e.elems else err entry_index_not_found
      | middle l r ↦ do b ← bit_of path lvl; get_data_loop s hi rest (suc lvl) path (child b l r)
    ]

  -- GetDataByIndex
  unfoldable pub get_data_by_index : MerkleTree → Hash → Result Data
  get_data_by_index mt hi = do
    path ← get_path mt.max_levels hi
    get_data_loop mt.storage hi mt.max_levels 0 path mt.root_key

  -- Snapshot
  unfoldable pub snapshot : MerkleTree → Hash → Result MerkleTree
  snapshot mt k = do
    _ ← get_node (db.get mt.storage) k
    ok (record mt { root_key = k; writable = false })

  at_root : MerkleTree → Option Hash → Result MerkleTree
  at_root mt none = ok mt
  at_root mt (some k) = snapshot mt k

  -- EntryExists
  unfoldable pub entry_exists : MerkleTree → Entry → Option Hash → Result (Unit {0})
  unfolding at_root
  entry_exists mt e root_key = do
    at ← at_root mt root_key
    hi ← h_index e
    d ← get_data_by_index at hi
    same ← entry_equal (record { elems = d }) e
    if same then ok tt else err entry_data_not_match

  -- NewMerkleTree
  unfoldable pub new_merkle_tree : db.State → ℕ → Result MerkleTree
  new_merkle_tree s max_levels = elim (db_get s root_node_value) [
    | ok (_, root) ↦ ok (record {
      storage = s;
      root_key = copy_into hash_zero root;
      max_levels = max_levels;
      writable = true;
    })
    | err _ ↦ do
      tx ← db.new_tx s
      k ← key empty
      s' ← db.commit s (db_insert s tx root_node_value db_entry_type_root k)
      ok (record { storage = s'; root_key = k; max_levels = max_levels; writable = true })
    | panic ↦ panic
  ]
