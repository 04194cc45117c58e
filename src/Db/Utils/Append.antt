-- ===== src/Db/Utils/Append.antt =====
-- A StorageList holds the entries that were appended to it.
use go_iden3_core.Prelude.{
  some-injective, ℕ, ◌+◌, ◌<◌, ◌^◌, ◌≡◌, refl, sym, ap, ◌∙◌, Bool-cases, inl, inr, Option, none,
  some, if◌then◌else◌, List, [], ◌∷◌, ◌++◌, arith, length, ◌==◌, ==_iff, bytes_eq, bytes_eq_refl,
}
use go_iden3_core.Result.{ok, >>=-eq-ok, ok-injective}
use go_iden3_core.Common.{Bytes, uint32_to_bytes}
use go_iden3_core.Db.{Storage, IsStorage}
use go_iden3_core.Db.Utils.{
  Json, IsJson, new_storage_list, value_get, value_set, list_length, list_init, list_append,
  list_get, list_get_by_idx, list_text, byidx_text,
}
use go_iden3_core.Db.Utils.Keys.{
  value_put, key_put, appended, read_value, read_key, read_key_before,
}
use go_iden3_core.Db.Utils.Number.{value_get-value_set}

module _ {A : Type 0} where
  -- The entry at an index; the newest entry is the first of the list.
  unfoldable pub entry_at : List (Bytes × A) → ℕ → Option (Bytes × A)
  entry_at [] i = none
  entry_at (x ∷ xs) i = if i == length xs then some x else entry_at xs i

  -- The newest value of a key.
  unfoldable pub latest : Bytes → List (Bytes × A) → Option A
  latest k [] = none
  latest k (x ∷ xs) = if bytes_eq x.0 k then some x.1 else latest k xs

  pub entry_at-length :
      (xs : List (Bytes × A)) (i : ℕ) (x : Bytes × A) → entry_at xs i ≡ some x → i < length xs
  unfolding entry_at
  entry_at-length [] i x e = cc
  entry_at-length (y ∷ xs) i x e = elim (Bool-cases (i == length xs)) [
    | inl same ↦ omega (arith, (==_iff i (length xs)).0 same)
    | inr other ↦ omega (arith, entry_at-length xs i x (rw (other) at e))
  ]

module _ ⦃db : Storage⦄ {A : Type 0} ⦃json : Json A⦄ where
  -- An open transaction holds the list with these entries under a prefix.
  pub record Lists (p : Bytes) (s : db.State) (tx : db.Tx) (xs : List (Bytes × A)) : Type 0 where
    pub count : list_length (new_storage_list p) s tx ≡ ok (length xs)
    pub small : length xs < 2 ^ 32
    pub by_idx :
        (i : ℕ) (x : Bytes × A)
        → entry_at xs i ≡ some x
        → db.tx_get s tx ((p ++ byidx_text) ++ uint32_to_bytes i) ≡ ok x.0
    pub by_key :
        (k : Bytes) (v : A) → latest k xs ≡ some v → list_get (new_storage_list p) s tx k ≡ ok v

  module _ (laws : IsStorage db) (p : Bytes) (s : db.State) where
    pub list_init-Lists : (tx : db.Tx) → Lists p s (list_init (new_storage_list p) s tx) []
    unfolding list_init list_length entry_at latest
    list_init-Lists tx = record {
      count = value_get-value_set laws _ s tx 0 (omega arith);
      small = omega arith;
      by_idx = λ i x e. cc;
      by_key = λ k v e. cc;
    }

    module _ (json_laws : IsJson json) (tx : db.Tx) (xs : List (Bytes × A)) (k : Bytes) (v : A)
        (bs : Bytes) where
      appended-by_key :
          Lists p s tx xs
          → json.marshal v ≡ ok bs
          → (j : Bytes) (w : A) → latest j ((k, v) ∷ xs) ≡ some w
          → list_get (new_storage_list p) s (appended p s tx (length xs) k bs) j ≡ ok w
      unfolding latest list_get new_storage_list
      appended-by_key held written j w e = elim (Bool-cases (bytes_eq k j)) [
        | inl same ↦
            rw (read_value laws p s tx (length xs) k bs j, same)
              (json_laws.unmarshal-marshal v bs written ∙ ap ok (some-injective (rw (same) at e)))
        | inr other ↦
            rw (read_value laws p s tx (length xs) k bs j, other)
              (held.by_key j w (rw (other) at e))
      ]

      appended-by_idx :
          Lists p s tx xs
          → (i : ℕ) (x : Bytes × A) → entry_at ((k, v) ∷ xs) i ≡ some x
          → db.tx_get s (appended p s tx (length xs) k bs) ((p ++ byidx_text) ++ uint32_to_bytes i)
            ≡ ok x.0
      unfolding entry_at
      appended-by_idx held i x e = elim (Bool-cases (i == length xs)) [
        | inl same ↦ rw ((==_iff i (length xs)).0 same) (
            read_key laws p s tx (length xs) k bs
            ∙ ap (λ (y : Bytes × A). ok y.0) (some-injective (rw (same) at e)))
        | inr other ↦
            let old = rw (other) at e in
            let before = entry_at-length xs i x old in
            read_key_before laws p s tx (length xs) i k bs held.small
              (omega (arith, before, held.small)) (λ h. omega (arith, before, h))
            ∙ held.by_idx i x old
      ]

      -- If the storage and the JSON keep their laws and a transaction holds a list of entries
      -- under a prefix, then Append of a value that can be written, to fewer than 2^32 - 1
      -- entries, succeeds and gives a transaction that holds the list with that entry added: its
      -- length, the key at each index, and the last value of each key.
      pub list_append-Lists :
          Lists p s tx xs
          → length xs + 1 < 2 ^ 32
          → json.marshal v ≡ ok bs
          → (tx' : db.Tx) × (list_append (new_storage_list p) s tx k v ≡ ok tx')
            × Lists p s tx' ((k, v) ∷ xs)
      unfolding list_append list_length value_set appended key_put value_put new_storage_list
      list_append-Lists held room written = (
        appended p s tx (length xs) k bs,
        rw (held.count, written) refl,
        record {
          count = value_get-value_set laws _ s _ _ (omega arith) ∙ ap ok (omega (arith, room));
          small = omega (arith, room);
          by_idx = appended-by_idx held;
          by_key = appended-by_key held written;
        },
      )

    pub list_append-stored :
        (tx tx' : db.Tx) (k : Bytes) (v : A)
        → list_append (new_storage_list p) s tx k v ≡ ok tx'
        → (bs : Bytes) × (json.marshal v ≡ ok bs)
          × (db.tx_get s tx' ((p ++ list_text) ++ k) ≡ ok bs)
    unfolding list_append value_set appended key_put value_put new_storage_list
    list_append-stored tx tx' k v h =
        let (n, _, h1) = >>=-eq-ok (value_get (new_storage_list p).length s tx) _ h in
        let (bs, written, h2) = >>=-eq-ok (json.marshal v) _ h1 in
        (
          bs,
          written,
          ap (λ (t : db.Tx). db.tx_get s t ((p ++ list_text) ++ k)) (sym (ok-injective h2))
              ∙ read_value laws p s tx n k bs k
              ∙ rw (bytes_eq_refl k) refl,
        )

    -- On a transaction that holds a list of entries under a prefix, GetByIdx gives the key of the
    -- entry at the index, with the last value that was appended under that key.
    pub list_get_by_idx-Lists :
        (tx : db.Tx) (xs : List (Bytes × A)) (i : ℕ) (k : Bytes) (v w : A)
        → Lists p s tx xs
        → entry_at xs i ≡ some (k, v)
        → latest k xs ≡ some w
        → list_get_by_idx (new_storage_list p) s tx i ≡ ok (k, w)
    unfolding list_get_by_idx new_storage_list list_get
    list_get_by_idx-Lists tx xs i k v w held at_i newest =
        rw (held.by_idx i (k, v) at_i, held.by_key k w newest) refl
