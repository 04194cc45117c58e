-- ===== src/Tests/Lists.antt =====
-- The list that is kept in a storage, and the generator of nonces.
use go_iden3_core.Prelude.{ℕ, ◌≡◌, ◌⊎◌, refl, sym, bytes_eq, some, List, [], ◌∷◌, arith}
use go_iden3_core.Result.{ok, err, max_nonce}
use go_iden3_core.Common.{Bytes}
use go_iden3_core.Db.Memory.{KvMap, new_memory_storage}
use go_iden3_core.Db.Utils.{Json, IsJson, new_storage_list, list_init, list_append, StorageValue}
use go_iden3_core.Db.Utils.Append.{Lists, latest, entry_at, list_init-Lists, list_append-Lists}
use go_iden3_core.Issuer.Nonce.{nonces, nonce_init, nonce_next, count_up, nonces-nonce_init}
use go_iden3_core.Tests.Env.{in_memory, in_memory-IsStorage}

instance abbrev pub plain : Json Bytes
plain = record { marshal = λ bs. ok bs; unmarshal = λ bs. ok bs }

pub plain-IsJson : IsJson plain
plain-IsJson = record { unmarshal-marshal = λ a bs e. sym e }

abbrev prefix_of_list : Bytes
prefix_of_list = 105 ∷ 58 ∷ []

abbrev key7 : Bytes
key7 = 7 ∷ []

abbrev value8 : Bytes
value8 = 8 ∷ []

abbrev three : ℕ
three = 3

abbrev no_entries : List (Bytes × Bytes)
no_entries = []

empty_list : KvMap
empty_list = list_init (new_storage_list prefix_of_list) new_memory_storage []

empty_list-Lists : Lists prefix_of_list new_memory_storage empty_list no_entries
unfolding empty_list
empty_list-Lists = list_init-Lists in_memory-IsStorage prefix_of_list new_memory_storage []

appended_one :
    (tx' : KvMap) × (list_append
        (new_storage_list prefix_of_list)
        new_memory_storage
        empty_list
        key7
        value8
      ≡ ok tx')
    × Lists prefix_of_list new_memory_storage tx' ((key7, value8) ∷ no_entries)
appended_one =
    list_append-Lists in_memory-IsStorage prefix_of_list new_memory_storage plain-IsJson empty_list
      no_entries key7 value8 value8 empty_list-Lists (omega arith) refl

list_append-Lists_example :
    (tx' : KvMap) × (list_append
        (new_storage_list prefix_of_list)
        new_memory_storage
        empty_list
        key7
        value8
      ≡ ok tx')
    × Lists prefix_of_list new_memory_storage tx' ((key7, value8) ∷ no_entries)
list_append-Lists_example =
    list_append-Lists in_memory-IsStorage prefix_of_list new_memory_storage plain-IsJson empty_list
      no_entries key7 value8 value8 empty_list-Lists (omega arith) refl

first_entry : entry_at ((key7, value8) ∷ no_entries) 0 ≡ some (key7, value8)
unfolding entry_at
first_entry = refl

latest_entry : latest key7 ((key7, value8) ∷ no_entries) ≡ some value8
unfolding latest bytes_eq
latest_entry = refl

abbrev nonce_value : StorageValue
nonce_value = record { db_key = 110 ∷ [] }

nonces-nonce_init_example :
    (tx' : KvMap) × (nonces nonce_value new_memory_storage
        (nonce_init nonce_value new_memory_storage [])
        three
      ≡ ok (tx', count_up 0 three))
    × ((three ≡ 0xffffffff × nonce_next nonce_value new_memory_storage tx' ≡ err max_nonce)
        ⊎ (tx'' : KvMap) × (nonce_next nonce_value new_memory_storage tx' ≡ ok (tx'', three)))
nonces-nonce_init_example =
    nonces-nonce_init in_memory-IsStorage nonce_value new_memory_storage [] three (omega arith)
