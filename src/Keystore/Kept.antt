-- ===== src/Keystore/Kept.antt =====
-- keystore/keystore.go: a key that was imported is there when the storage is opened again.
use go_iden3_core.Prelude.{
  ℕ, ◌≡◌, refl, sym, ap, ◌∙◌, true, some, false, [], ◌∷◌, replicate, length, arith, ◌==◌,
  Bool-cases, inl, inr, ==_iff, ◌≢◌,
}
use go_iden3_core.Result.{Result, ok, >>=-eq-ok, ok-injective}
use go_iden3_core.Action.{followed, lift-eq-ok, become-eq-ok, current-eq-ok}
use go_iden3_core.Common.{Bytes}
use go_iden3_core.Common.Maps.{at_key, at_key_self}
use go_iden3_core.BigInt.{copy_into, copy_into-full, length-copy_into}
use go_iden3_core.Db.Utils.{Json, IsJson}
use go_iden3_core.Keystore.{
  KeyStoreParams, EncryptedData, KeyCrypto, KeyStorage, KeysStored, KeyStore, encrypt_data,
  decrypt_data, opened, or_err, import_key, unlock_key, export_key, read_keys, with_keys,
  open_key_store, new_key_store, close,
}
use go_iden3_core.Keystore.Signed.{IsKeyCrypto}

-- What was written is read once the storage is unlocked and locked again.
pub record IsKeyStorage (ks : KeyStorage) : Type 0 where
  pub read-write :
      (s s1 s2 s3 : ks.State) (bs : Bytes)
      → ks.write s bs ≡ ok s1
      → ks.unlock s1 ≡ (s2, ok tt)
      → ks.try_lock s2 ≡ (s3, ok true)
      → ks.read s3 ≡ ok bs

module _ ⦃kc : KeyCrypto⦄ (laws : IsKeyCrypto kc) where
  decrypt_data-encrypt_data :
      (bs pass : Bytes) (n p : ℕ) (salt nonce : Bytes) (e : EncryptedData)
      → length nonce ≡ 24
      → encrypt_data bs pass n p salt nonce ≡ ok e
      → decrypt_data e pass ≡ ok bs
  unfolding decrypt_data encrypt_data opened
  decrypt_data-encrypt_data bs pass n p salt nonce e full h =
      let (derived, key, h1) = >>=-eq-ok (kc.scrypt_key pass salt n p) _ h in
      let own_key = copy_into (replicate 32 0) derived in
      let back : kc.open_box (kc.seal bs nonce own_key) (copy_into (replicate 24 0) nonce) own_key
          ≡ some bs =
        ap (λ x. kc.open_box (kc.seal bs nonce own_key) x own_key)
          (copy_into-full (replicate 24 0) nonce (omega (arith, full)))
        ∙ laws.open_box-seal bs nonce own_key full (length-copy_into (replicate 32 0) derived) in
      ap (λ x. decrypt_data x pass) (sym (ok-injective h1)) ∙ rw (key, back) refl

module _ ⦃kc : KeyCrypto⦄ ⦃ks : KeyStorage⦄ ⦃json : Json KeysStored⦄ where
  -- What an import that succeeds has done.
  record Imported (sk pass salt nonce pk : Bytes) (k k' : KeyStore) : Type 0 where
    pub e : EncryptedData
    pub text : Bytes
    pub encrypted : encrypt_data sk pass k.params.scrypt_n k.params.scrypt_p salt nonce ≡ ok e
    pub marshalled : json.marshal ((kc.public sk, e) ∷ k.encrypted_keys) ≡ ok text
    pub written : ks.write k.storage text ≡ ok k'.storage
    pub same_pk : kc.public sk ≡ pk

  import_key-Imported :
      (sk pass salt nonce pk : Bytes) (k k' : KeyStore)
      → import_key sk pass salt nonce k ≡ (k', ok pk)
      → Imported sk pass salt nonce pk k k'
  unfolding import_key
  import_key-Imported sk pass salt nonce pk k k' h =
      let h0 = current-eq-ok _ k k' h in
      let (e, encrypted, h1) = lift-eq-ok (encrypt_data sk pass _ _ salt nonce) _ k k' h0 in
      let h2 = become-eq-ok _ _ k k' h1 in
      let kept : KeyStore = record k { encrypted_keys = (kc.public sk, e) ∷ k.encrypted_keys } in
      let (text, marshalled, h3) = lift-eq-ok (json.marshal kept.encrypted_keys) _ kept k' h2 in
      let (s, written, h4) = lift-eq-ok (ks.write k.storage text) _ kept k' h3 in
      let h5 = become-eq-ok _ _ kept k' h4 in
      record {
        e = e;
        text = text;
        encrypted = encrypted;
        marshalled = marshalled;
        written = written ∙ ap (λ (x : KeyStore × Result Bytes). ok x.0.storage) h5;
        same_pk = ok-injective (ap (λ (x : KeyStore × Result Bytes). x.1) h5);
      }

  module _ (laws : IsKeyCrypto kc) (storage_laws : IsKeyStorage ks) (json_laws : IsJson json)
      (not_empty : (keys : KeysStored) (bs : Bytes)
        → json.marshal keys ≡ ok bs
        → length bs ≢ 0) where
    -- If the cipher, the storage and the JSON keep their laws and the JSON of the keys is never
    -- empty, then after an ImportKey of a 32-byte key that succeeds, a Close that succeeds, and a
    -- lock of the storage that is given, NewKeyStore succeeds, UnlockKey with the same passphrase
    -- succeeds on the new store, and ExportKey then gives the key; the random nonce has 24 bytes.
    pub unlock_key-import_key :
        (sk pass salt nonce pk : Bytes) (k k' k1 : KeyStore) (params : KeyStoreParams)
        (s2 : ks.State)
        → length sk ≡ 32
        → length nonce ≡ 24
        → import_key sk pass salt nonce k ≡ (k', ok pk)
        → close k' ≡ (k1, ok tt)
        → ks.try_lock k1.storage ≡ (s2, ok true)
        → (k2 : KeyStore) × (k3 : KeyStore) × (new_key_store params k1.storage ≡ (s2, ok k2))
          × (unlock_key pk pass k2 ≡ (k3, ok tt))
          × (export_key k3 pk ≡ ok sk)
    unfolding close new_key_store open_key_store read_keys with_keys unlock_key export_key or_err
        followed
    unlock_key-import_key sk pass salt nonce pk k k' k1 params s2 full full_nonce done closed
          locked =
        let i = import_key-Imported sk pass salt nonce pk k k' done in
        let unlocked : ks.unlock k'.storage ≡ (k1.storage, ok tt) =
          λ j. ((closed j).0.storage, (closed j).1) in
        let text : ks.read s2 ≡ ok i.text =
          storage_laws.read-write k.storage k'.storage k1.storage s2 i.text i.written unlocked
            locked in
        let keys = (kc.public sk, i.e) ∷ k.encrypted_keys in
        let k2 : KeyStore = record {
          storage = s2;
          params = params;
          encrypted_keys = keys;
          cache = [];
        } in
        let some_text : (length i.text == 0) ≡ false = elim (Bool-cases (length i.text == 0)) [
          | inl none_ ↦
              absurd (not_empty keys i.text i.marshalled ((==_iff (length i.text) 0).0 none_))
          | inr e ↦ e
        ] in
        let stored : at_key keys pk ≡ some i.e =
          ap (at_key keys) (sym i.same_pk) ∙ at_key_self k.encrypted_keys (kc.public sk) i.e in
        let whole : copy_into (replicate 32 0) sk ≡ sk =
          copy_into-full (replicate 32 0) sk (omega (arith, full)) in
        let read_back : read_keys (ks.read s2) ≡ ok keys =
          ap read_keys text ∙ rw some_text (json_laws.unmarshal-marshal keys i.text i.marshalled) in
        (
          k2,
          record k2 { cache = (pk, copy_into (replicate 32 0) sk) ∷ [] },
          rw locked (ap (λ r. with_keys params r s2) read_back),
          rw
              (
                stored,
                decrypt_data-encrypt_data laws sk pass _ _ salt nonce i.e full_nonce i.encrypted,
              )
              refl,
          rw (at_key_self [] pk (copy_into (replicate 32 0) sk), whole) refl,
        )
