-- ===== src/Db/Utils/Keys.antt =====
-- The keys of the entries of a StorageList, and what is read after an append.
use mathlib.Core.List.{append_assoc}
use go_iden3_core.Prelude.{
  ℕ, ◌+◌, ◌%◌, ◌<◌, ◌^◌, ◌≡◌, ◌≢◌, refl, ◌∙◌, false, if◌then◌else◌, ◌++◌, bytes_eq, bytes_eq_ne,
  bytes_eq-append,
}
use go_iden3_core.Result.{ok}
use go_iden3_core.Common.{Bytes, uint32_to_bytes}
use go_iden3_core.Db.{Storage, IsStorage}
use go_iden3_core.Db.Utils.{len_text, list_text, byidx_text}
use go_iden3_core.Db.Utils.Number.{
  tx_get-tx_put_same, tx_get-tx_put_other, uint32_to_bytes-injective,
}

-- Two keys under one prefix differ if what follows the prefix does.
keys_differ :
    (p a j b k : Bytes)
    → bytes_eq (a ++ j) (b ++ k) ≡ false
    → bytes_eq ((p ++ a) ++ j) ((p ++ b) ++ k) ≡ false
keys_differ p a j b k h =
    rw (append_assoc p a j, append_assoc p b k) (bytes_eq-append p (a ++ j) (b ++ k) ∙ h)

idx_keys :
    (p : Bytes) (n i : ℕ)
    → n < 2 ^ 32
    → i < 2 ^ 32
    → n ≢ i
    → bytes_eq ((p ++ byidx_text) ++ uint32_to_bytes n) ((p ++ byidx_text) ++ uint32_to_bytes i)
      ≡ false
idx_keys p n i hn hi ne =
    bytes_eq-append (p ++ byidx_text) (uint32_to_bytes n) (uint32_to_bytes i)
    ∙ bytes_eq_ne _ _ (λ e. ne (uint32_to_bytes-injective n i hn hi e))

list_byidx : (p j k : Bytes) → bytes_eq ((p ++ list_text) ++ j) ((p ++ byidx_text) ++ k) ≡ false
unfolding bytes_eq
list_byidx p j k = keys_differ p list_text j byidx_text k refl

byidx_list : (p j k : Bytes) → bytes_eq ((p ++ byidx_text) ++ j) ((p ++ list_text) ++ k) ≡ false
unfolding bytes_eq
byidx_list p j k = keys_differ p byidx_text j list_text k refl

len_list : (p k : Bytes) → bytes_eq (p ++ len_text) ((p ++ list_text) ++ k) ≡ false
unfolding bytes_eq
len_list p k = rw (append_assoc p list_text k) (bytes_eq-append p len_text (list_text ++ k))

len_byidx : (p k : Bytes) → bytes_eq (p ++ len_text) ((p ++ byidx_text) ++ k) ≡ false
unfolding bytes_eq
len_byidx p k = rw (append_assoc p byidx_text k) (bytes_eq-append p len_text (byidx_text ++ k))

module _ ⦃db : Storage⦄ (p : Bytes) (s : db.State) where
  -- The writes of an append: the value, the key, the length.
  unfoldable pub value_put : db.Tx → Bytes → Bytes → db.Tx
  value_put tx k bs = db.tx_put s tx ((p ++ list_text) ++ k) bs

  unfoldable pub key_put : db.Tx → ℕ → Bytes → Bytes → db.Tx
  key_put tx n k bs = db.tx_put s (value_put tx k bs) ((p ++ byidx_text) ++ uint32_to_bytes n) k

  unfoldable pub appended : db.Tx → ℕ → Bytes → Bytes → db.Tx
  appended tx n k bs =
      db.tx_put s (key_put tx n k bs) (p ++ len_text) (uint32_to_bytes ((n + 1) % 2 ^ 32))

module _ ⦃db : Storage⦄ (laws : IsStorage db) (p : Bytes) (s : db.State) where
  pub read_value :
      (tx : db.Tx) (n : ℕ) (k bs j : Bytes)
      → db.tx_get s (appended p s tx n k bs) ((p ++ list_text) ++ j)
        ≡ (if bytes_eq k j then ok bs else db.tx_get s tx ((p ++ list_text) ++ j))
  unfolding appended key_put value_put
  read_value tx n k bs j =
      tx_get-tx_put_other laws s _ _ _ _ (len_list p j)
      ∙ tx_get-tx_put_other laws s _ _ _ _ (byidx_list p (uint32_to_bytes n) j)
      ∙ laws.tx_get-tx_put s tx _ bs _
      ∙ rw (bytes_eq-append (p ++ list_text) k j) refl

  pub read_key :
      (tx : db.Tx) (n : ℕ) (k bs : Bytes)
      → db.tx_get s (appended p s tx n k bs) ((p ++ byidx_text) ++ uint32_to_bytes n) ≡ ok k
  unfolding appended key_put
  read_key tx n k bs =
      tx_get-tx_put_other laws s _ _ _ _ (len_byidx p (uint32_to_bytes n))
      ∙ tx_get-tx_put_same laws s _ _ k

  pub read_key_before :
      (tx : db.Tx) (n i : ℕ) (k bs : Bytes)
      → n < 2 ^ 32
      → i < 2 ^ 32
      → n ≢ i
      → db.tx_get s (appended p s tx n k bs) ((p ++ byidx_text) ++ uint32_to_bytes i)
        ≡ db.tx_get s tx ((p ++ byidx_text) ++ uint32_to_bytes i)
  unfolding appended key_put value_put
  read_key_before tx n i k bs hn hi ne =
      tx_get-tx_put_other laws s _ _ _ _ (len_byidx p (uint32_to_bytes i))
      ∙ tx_get-tx_put_other laws s _ _ _ _ (idx_keys p n i hn hi ne)
      ∙ tx_get-tx_put_other laws s _ _ _ _ (list_byidx p k (uint32_to_bytes i))
