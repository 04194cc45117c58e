-- ===== src/Keystore.antt =====
-- keystore/keystore.go: secret keys that are stored encrypted, and the signatures made with them. The
-- key derivation, the encryption, the keys of BabyJubJub and their signatures are parameters; random
-- bytes and the time are arguments. A key and a signature are compressed, so they are bytes.
pub mod Files
pub mod Signed
pub mod Kept
use go_iden3_core.Prelude.{
  ℕ, ◌+◌, ◌/◌, Bool, true, false, Option, none, some, List, [], ◌∷◌, ◌++◌, map, reverse, replicate,
  ◌==◌, if◌then◌else◌, length,
}
use go_iden3_core.Result.{
  Error, Result, ok, err, panic, key_not_found, key_not_in_cache, invalid_enc_data, storage_lock,
  not_exist,
}
use go_iden3_core.Result as R
use go_iden3_core.Action.{Action, ◌>>=◌, return, fail, current, become, lift}
use go_iden3_core.Common.{Bytes}
use go_iden3_core.Common.Maps.{at_key}
use go_iden3_core.BigInt.{copy_into}
use go_iden3_core.Claims.{uint64_to_bytes}
use go_iden3_core.Db.Utils.{Json}

pub record KeyStoreParams : Type 0 where
  pub scrypt_n : ℕ
  pub scrypt_p : ℕ

abbrev pub light_key_store_params : KeyStoreParams
light_key_store_params = record { scrypt_n = 4096; scrypt_p = 6 }

abbrev pub standard_key_store_params : KeyStoreParams
standard_key_store_params = record { scrypt_n = 262144; scrypt_p = 1 }

pub record EncryptedData : Type 0 where
  pub salt : Bytes
  pub scrypt_n : ℕ
  pub scrypt_p : ℕ
  pub nonce : Bytes
  pub encrypted_data : Bytes

-- What is called of scrypt, secretbox, babyjub and poseidon.
pub record KeyCrypto : Type 1 where
  pub Point : Type 0
  pub Signature : Type 0
  -- scrypt.Key with the r and the length of the source
  pub scrypt_key : (pass salt : Bytes) → (n p : ℕ) → Result Bytes
  pub seal : (message nonce key : Bytes) → Bytes
  pub open_box : (box nonce key : Bytes) → Option Bytes
  -- Public and Compress
  pub public : Bytes → Bytes
  -- SignPoseidon and Compress
  pub sign_poseidon : Bytes → ℕ → Bytes
  pub hash_bytes : Bytes → ℕ
  pub decompress_point : Bytes → Result Point
  pub decompress_signature : Bytes → Result Signature
  pub verify_poseidon : Point → ℕ → Signature → Bool

-- The interface Storage.
pub record KeyStorage : Type 1 where
  pub State : Type 0
  pub read : State → Result Bytes
  pub write : State → Bytes → Result State
  pub try_lock : State → State × Result Bool
  pub unlock : State → State × Result (Unit {0})

abbrev pub KeysStored : Type 0
KeysStored = List (Bytes × EncryptedData)

module _ ⦃kc : KeyCrypto⦄ where
  -- EncryptData
  unfoldable pub encrypt_data :
      (bs pass : Bytes) → (scrypt_n scrypt_p : ℕ) → (salt nonce : Bytes) → Result EncryptedData
  encrypt_data bs pass scrypt_n scrypt_p salt nonce =
      R.◌>>=◌ (kc.scrypt_key pass salt scrypt_n scrypt_p) (λ derived_key. ok (record {
        salt = salt;
        scrypt_n = scrypt_n;
        scrypt_p = scrypt_p;
        nonce = nonce;
        encrypted_data = kc.seal bs nonce (copy_into (replicate 32 0) derived_key);
      }))

  unfoldable pub opened : Option Bytes → Result Bytes
  opened none = err invalid_enc_data
  opened (some bs) = ok bs

  -- DecryptData
  unfoldable pub decrypt_data : EncryptedData → (pass : Bytes) → Result Bytes
  unfolding opened
  decrypt_data e pass = R.◌>>=◌ (kc.scrypt_key pass e.salt e.scrypt_n e.scrypt_p) (λ derived_key.
      opened (
        kc.open_box e.encrypted_data (copy_into (replicate 24 0) e.nonce)
          (copy_into (replicate 32 0) derived_key)))

  -- VerifySignatureElem
  unfoldable pub verify_signature_elem :
      (pk_comp : Bytes) → (msg : ℕ) → (sig_comp : Bytes) → Result Bool
  verify_signature_elem pk_comp msg sig_comp =
      R.◌>>=◌ (kc.decompress_point pk_comp) (λ pk.
        R.◌>>=◌ (kc.decompress_signature sig_comp) (λ sig. ok (kc.verify_poseidon pk msg sig)))

  -- VerifySignatureRaw
  unfoldable pub verify_signature_raw : (pk_comp sig_comp msg : Bytes) → Result Bool
  verify_signature_raw pk_comp sig_comp msg =
      verify_signature_elem pk_comp (kc.hash_bytes msg) sig_comp

-- Uint64ToEthBytes
unfoldable pub uint64_to_eth_bytes : ℕ → Bytes
uint64_to_eth_bytes u = reverse (uint64_to_bytes u)

-- [prefix | date | msg]; the prefix is taken to have no capacity beyond its length, and the date is the
-- 64-bit pattern of an `int64`.
unfoldable pub signed_message : (prefix : Bytes) → (date : ℕ) → (raw_msg : Bytes) → Bytes
signed_message prefix date raw_msg = (prefix ++ uint64_to_eth_bytes date) ++ raw_msg

unfoldable pub or_err : {A : Type 0} → Option A → Error → Result A
or_err (some a) x = ok a
or_err none x = err x

module _ ⦃kc : KeyCrypto⦄ ⦃ks : KeyStorage⦄ ⦃json : Json KeysStored⦄ where
  -- The cache maps to pointers, which ExportKey gives away; nothing writes through them but Close.
  pub record KeyStore : Type 0 where
    pub storage : ks.State
    pub params : KeyStoreParams
    pub encrypted_keys : KeysStored
    pub cache : List (Bytes × Bytes)

  -- The stored keys; a file that does not exist has none.
  unfoldable pub read_keys : Result Bytes → Result KeysStored
  read_keys (ok bs) = if length bs == 0 then ok [] else json.unmarshal bs
  read_keys (err not_exist) = ok []
  read_keys (err x) = err x
  read_keys panic = panic

  -- The new store with the keys that were read; the storage is unlocked after an error.
  unfoldable pub with_keys : KeyStoreParams → Result KeysStored → Action ks.State KeyStore
  with_keys params (ok keys) s =
      (s, ok (record { storage = s; params = params; encrypted_keys = keys; cache = [] }))
  with_keys params (err x) s = ((ks.unlock s).0, err x)
  with_keys params panic s = (s, panic)

  -- NewKeyStore once the storage is locked.
  unfoldable pub open_key_store : KeyStoreParams → Action ks.State KeyStore
  open_key_store params s = with_keys params (read_keys (ks.read s)) s

  -- NewKeyStore, without the finalizer.
  unfoldable pub new_key_store : KeyStoreParams → Action ks.State KeyStore
  new_key_store params = do
    locked ← ks.try_lock
    if locked then open_key_store params else fail storage_lock

  -- Close
  unfoldable pub close : Action KeyStore (Unit {0})
  close k =
      let (s, r) = ks.unlock k.storage in
      (record k { storage = s; cache = map (λ e. (e.0, replicate 32 0)) k.cache }, r)

  -- ImportKey
  unfoldable pub import_key : (sk pass salt nonce : Bytes) → Action KeyStore Bytes
  import_key sk pass salt nonce = do
    k ← current
    e ← lift (encrypt_data sk pass k.params.scrypt_n k.params.scrypt_p salt nonce)
    let keys = (kc.public sk, e) ∷ k.encrypted_keys
    _ ← become (record k { encrypted_keys = keys })
    text ← lift (json.marshal keys)
    s ← lift (ks.write k.storage text)
    _ ← become (record k { storage = s; encrypted_keys = keys })
    return (kc.public sk)

  -- NewKey, with the random key as an argument.
  unfoldable pub new_key : (sk pass salt nonce : Bytes) → Action KeyStore Bytes
  new_key sk pass salt nonce = import_key sk pass salt nonce

  -- ExportKey
  unfoldable pub export_key : KeyStore → (pk : Bytes) → Result Bytes
  unfolding or_err
  export_key k pk = or_err (at_key k.cache pk) key_not_in_cache

  -- UnlockKey
  unfoldable pub unlock_key : (pk pass : Bytes) → Action KeyStore (Unit {0})
  unfolding or_err
  unlock_key pk pass = do
    k ← current
    e ← lift (or_err (at_key k.encrypted_keys pk) key_not_found)
    sk_buf ← lift (decrypt_data e pass)
    become (record k { cache = (pk, copy_into (replicate 32 0) sk_buf) ∷ k.cache })

  -- SignElem
  unfoldable pub sign_elem : KeyStore → (pk : Bytes) → (msg : ℕ) → Result Bytes
  sign_elem k pk msg = R.◌>>=◌ (export_key k pk) (λ sk. ok (kc.sign_poseidon sk msg))

  -- SignRaw
  unfoldable pub sign_raw : KeyStore → (pk msg : Bytes) → Result Bytes
  sign_raw k pk msg = sign_elem k pk (kc.hash_bytes msg)

  -- Sign; the date is that of the call, and is returned also with an error.
  unfoldable pub sign :
      KeyStore → (pk prefix : Bytes) → (date : ℕ) → (raw_msg : Bytes) → Result Bytes × ℕ
  sign k pk prefix date raw_msg = (sign_raw k pk (signed_message prefix date raw_msg), date)

module _ ⦃kc : KeyCrypto⦄ where
  -- VerifySignature
  unfoldable pub verify_signature :
      (pk_comp sig_comp prefix : Bytes) → (date : ℕ) → (raw_msg : Bytes) → Result Bool
  verify_signature pk_comp sig_comp prefix date raw_msg =
      verify_signature_raw pk_comp sig_comp (signed_message prefix date raw_msg)
