-- ===== src/Keystore/Signed.antt =====
-- keystore/keystore.go: what the cache holds after any calls, and the signatures made with it.
use mathlib.Core.Path.{subst}
use go_iden3_core.Prelude.{
  ℕ, ◌≡◌, ◌⊎◌, inl, inr, refl, sym, ap, ◌∙◌, true, Option, none, some, List, [], ◌∷◌, replicate,
  length, arith, Option-cases,
}
use go_iden3_core.Result.{ok, Result-cases, >>=-eq-ok, ok-injective}
use go_iden3_core.Action.{followed}
use go_iden3_core.Common.{Bytes}
use go_iden3_core.Common.Maps.{at_key, Every, Every-put, Every-none}
use go_iden3_core.BigInt.{copy_into, copy_into-full}
use go_iden3_core.Db.Utils.{Json}
use go_iden3_core.Keystore.{
  KeyStoreParams, EncryptedData, KeyCrypto, KeyStorage, KeysStored, KeyStore, encrypt_data,
  decrypt_data, opened, or_err, import_key, unlock_key, export_key, sign_elem,
  verify_signature_elem,
}

-- What the store relies on: a box gives only the message that was sealed, and gives it with the same
-- nonce and key; a signature decompresses and verifies under the signer's public key.
pub record IsKeyCrypto (kc : KeyCrypto) : Type 0 where
  pub open_box-seal :
      (m n k : Bytes) → length n ≡ 24 → length k ≡ 32 → kc.open_box (kc.seal m n k) n k ≡ some m
  pub open_box-only :
      (m n k n' k' m' : Bytes) → kc.open_box (kc.seal m n k) n' k' ≡ some m' → m' ≡ m
  pub signed :
      (sk : Bytes) (msg : ℕ)
      → length sk ≡ 32
      → (p : kc.Point) × (s : kc.Signature) × (kc.decompress_point (kc.public sk) ≡ ok p)
        × (kc.decompress_signature (kc.sign_poseidon sk msg) ≡ ok s)
        × (kc.verify_poseidon p msg s ≡ true)

module _ ⦃kc : KeyCrypto⦄ where
  -- A secret key of 32 bytes of a public key.
  abbrev pub IsSecret : Bytes → Bytes → Type 0
  IsSecret pk sk = (length sk ≡ 32) × (kc.public sk ≡ pk)

  -- A sealed secret key of the public key.
  abbrev pub IsSealed : Bytes → EncryptedData → Type 0
  IsSealed pk e =
      (sk : Bytes) × (nonce : Bytes) × (key : Bytes) × IsSecret pk sk
      × (e.encrypted_data ≡ kc.seal sk nonce key)

  encrypt_data-IsSealed :
      (sk pass : Bytes) (n p : ℕ) (salt nonce : Bytes) (e : EncryptedData)
      → length sk ≡ 32
      → encrypt_data sk pass n p salt nonce ≡ ok e
      → IsSealed (kc.public sk) e
  unfolding encrypt_data
  encrypt_data-IsSealed sk pass n p salt nonce e full h =
      let (derived, _, h1) = >>=-eq-ok (kc.scrypt_key pass salt n p) _ h in
      (
        sk,
        nonce,
        _,
        (full, refl),
        sym (ap (λ (x : EncryptedData). x.encrypted_data) (ok-injective h1)),
      )

  opened-ok : (o : Option Bytes) (bs : Bytes) → opened o ≡ ok bs → o ≡ some bs
  unfolding opened
  opened-ok none bs h = cc
  opened-ok (some x) bs h = ap some (ok-injective h)

  decrypt_data-IsSealed :
      IsKeyCrypto kc
      → (pk pass bs : Bytes) (e : EncryptedData) → IsSealed pk e
      → decrypt_data e pass ≡ ok bs
      → IsSecret pk bs
  unfolding decrypt_data
  decrypt_data-IsSealed laws pk pass bs e (sk, nonce, key, secret, sealed) h =
      let (derived, _, h1) = >>=-eq-ok (kc.scrypt_key pass e.salt e.scrypt_n e.scrypt_p) _ h in
      let own_nonce = copy_into (replicate 24 0) e.nonce in
      let own_key = copy_into (replicate 32 0) derived in
      let found = opened-ok _ bs h1 in
      let same : bs ≡ sk =
        laws.open_box-only sk nonce key own_nonce own_key bs
          (ap (λ x. kc.open_box x own_nonce own_key) (sym sealed) ∙ found) in
      subst (λ (x : Bytes). IsSecret pk x) (sym same) secret

module _ ⦃kc : KeyCrypto⦄ ⦃ks : KeyStorage⦄ ⦃json : Json KeysStored⦄ where
  -- The calls that change the keys; NewKey is ImportKey of a random key.
  pub data KeyCall : Type 0 where
    imports : (sk pass salt nonce : Bytes) → length sk ≡ 32 → KeyCall
    unlocks : (pk pass : Bytes) → KeyCall

  -- A call that fails may have changed the store.
  unfoldable pub step : KeyCall → KeyStore → KeyStore
  step (imports sk pass salt nonce full) k = (import_key sk pass salt nonce k).0
  step (unlocks pk pass) k = (unlock_key pk pass k).0

  unfoldable pub run_calls : List KeyCall → KeyStore → KeyStore
  run_calls [] k = k
  run_calls (c ∷ cs) k = run_calls cs (step c k)

  -- The store of NewKeyStore on a storage without keys.
  abbrev pub no_keys : ks.State → KeyStoreParams → KeyStore
  no_keys s params = record { storage = s; params = params; encrypted_keys = []; cache = [] }

  pub record IsKeyStore (k : KeyStore) : Type 0 where
    pub sealed : Every IsSealed k.encrypted_keys
    pub cached : Every IsSecret k.cache

  -- What ImportKey leaves, also when it fails.
  import_key-states :
      (sk pass salt nonce : Bytes) (k : KeyStore)
      → ((import_key sk pass salt nonce k).0.cache ≡ k.cache)
        × (((import_key sk pass salt nonce k).0.encrypted_keys ≡ k.encrypted_keys)
            ⊎ ((e : EncryptedData) × (encrypt_data sk pass k.params.scrypt_n k.params.scrypt_p salt
                    nonce
                  ≡ ok e)
                × ((import_key sk pass salt nonce k).0.encrypted_keys
                    ≡ (kc.public sk, e) ∷ k.encrypted_keys)))
  unfolding import_key followed
  import_key-states sk pass salt nonce k =
      elim (Result-cases (encrypt_data sk pass k.params.scrypt_n k.params.scrypt_p salt nonce)) [
        | inr (inl (x, failed)) ↦ rw failed (refl, inl refl)
        | inr (inr failed) ↦ rw failed (refl, inl refl)
        | inl (e, done) ↦
            elim (Result-cases (json.marshal ((kc.public sk, e) ∷ k.encrypted_keys))) [
              | inr (inl (x, failed)) ↦ rw (done, failed) (refl, inr (e, refl, refl))
              | inr (inr failed) ↦ rw (done, failed) (refl, inr (e, refl, refl))
              | inl (text, written) ↦ elim (Result-cases (ks.write k.storage text)) [
                | inr (inl (x, failed)) ↦ rw (done, written, failed) (refl, inr (e, refl, refl))
                | inr (inr failed) ↦ rw (done, written, failed) (refl, inr (e, refl, refl))
                | inl (s, stored) ↦ rw (done, written, stored) (refl, inr (e, refl, refl))
              ]
            ]
      ]

  module _ (laws : IsKeyCrypto kc) where
    import_key-IsKeyStore :
        (sk pass salt nonce : Bytes) (k : KeyStore)
        → length sk ≡ 32
        → IsKeyStore k
        → IsKeyStore (import_key sk pass salt nonce k).0
    import_key-IsKeyStore sk pass salt nonce k full valid =
        let (cache, keys) = import_key-states sk pass salt nonce k in
        record {
          cached = subst (λ (m : List (Bytes × Bytes)). Every IsSecret m) (sym cache) valid.cached;
          sealed = elim keys [
            | inl same ↦ subst (λ (m : KeysStored). Every IsSealed m) (sym same) valid.sealed
            | inr (e, done, same) ↦
                subst (λ (m : KeysStored). Every IsSealed m) (sym same)
                  (Every-put IsSealed k.encrypted_keys (kc.public sk) e
                    (encrypt_data-IsSealed sk pass _ _ salt nonce e full done) valid.sealed)
          ];
        }

    unlock_key-IsKeyStore :
        (pk pass : Bytes) (k : KeyStore) → IsKeyStore k → IsKeyStore (unlock_key pk pass k).0
    unfolding unlock_key followed or_err
    unlock_key-IsKeyStore pk pass k valid = elim (Option-cases (at_key k.encrypted_keys pk)) [
      | inl missing ↦ rw missing valid
      | inr (e, found) ↦ elim (Result-cases (decrypt_data e pass)) [
        | inr (inl (x, failed)) ↦ rw (found, failed) valid
        | inr (inr failed) ↦ rw (found, failed) valid
        | inl (bs, done) ↦
            let secret = decrypt_data-IsSealed laws pk pass bs e (valid.sealed pk e found) done in
            let whole : copy_into (replicate 32 0) bs ≡ bs =
              copy_into-full (replicate 32 0) bs (omega (arith, secret.0)) in
            rw (found, done)
              (record {
                sealed = valid.sealed;
                cached =
                    Every-put IsSecret k.cache pk (copy_into (replicate 32 0) bs)
                      (subst (λ (x : Bytes). IsSecret pk x) (sym whole) secret) valid.cached;
              })
      ]
    ]

    run_calls-IsKeyStore :
        (calls : List KeyCall) (k : KeyStore) → IsKeyStore k → IsKeyStore (run_calls calls k)
    unfolding run_calls step
    run_calls-IsKeyStore [] k valid = valid
    run_calls-IsKeyStore (imports sk pass salt nonce full ∷ cs) k valid =
        run_calls-IsKeyStore cs _ (import_key-IsKeyStore sk pass salt nonce k full valid)
    run_calls-IsKeyStore (unlocks pk pass ∷ cs) k valid =
        run_calls-IsKeyStore cs _ (unlock_key-IsKeyStore pk pass k valid)

    -- If a sealed box gives only the message in it, and a signature of a 32-byte key verifies
    -- under the key's public key, then after any calls of ImportKey, NewKey and UnlockKey on a
    -- store without keys, whether they fail or not, a signature that SignElem returns for a public
    -- key is accepted by VerifySignatureElem for that public key and that message.
    pub verify_signature_elem-sign_elem :
        (s : ks.State) (params : KeyStoreParams) (calls : List KeyCall) (pk sig : Bytes) (msg : ℕ)
        → sign_elem (run_calls calls (no_keys s params)) pk msg ≡ ok sig
        → verify_signature_elem pk msg sig ≡ ok true
    unfolding sign_elem export_key or_err verify_signature_elem
    verify_signature_elem-sign_elem s params calls pk sig msg h =
        let k = run_calls calls (no_keys s params) in
        let valid =
          run_calls-IsKeyStore calls (no_keys s params)
            (record { sealed = Every-none IsSealed; cached = Every-none IsSecret }) in
        elim (Option-cases (at_key k.cache pk)) [
          | inl missing ↦ cc (rw missing at h)
          | inr (sk, found) ↦
              let made : kc.sign_poseidon sk msg ≡ sig = ok-injective (rw found at h) in
              let (full, public) = valid.cached pk sk found in
              let (p, sg, point, parsed, verified) = laws.signed sk msg full in
              rw (sym public, sym made, point, parsed, verified) refl
        ]
