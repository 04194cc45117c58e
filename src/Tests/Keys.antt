-- ===== src/Tests/Keys.antt =====
-- A key store in memory: a key is imported, unlocked after the storage is opened again, and signs.
use go_iden3_core.Prelude.{
  ℕ, ◌≡◌, ◌≢◌, refl, sym, ap, ◌∙◌, true, some, List, [], ◌∷◌, ◌++◌, length, take, drop, replicate,
  take-append, drop-append, bytes_eq, bytes_eq_refl, some-injective, arith,
}
use go_iden3_core.Result.{Result, ok, err, external, ok-injective}
use go_iden3_core.Action.{followed}
use go_iden3_core.Common.{Bytes}
use go_iden3_core.Common.Maps.{at_key}
use go_iden3_core.BigInt.{copy_into}
use go_iden3_core.Db.Utils.{Json, IsJson}
use go_iden3_core.Keystore.{
  KeyCrypto, KeyStorage, KeysStored, KeyStore, light_key_store_params, import_key, unlock_key,
  export_key, new_key_store, close, sign_elem, verify_signature_elem, encrypt_data, decrypt_data,
  opened, or_err,
}
use go_iden3_core.Keystore.Files.{mem_storage}
use go_iden3_core.Keystore.Signed.{
  IsKeyCrypto, KeyCall, imports, unlocks, step, run_calls, no_keys, verify_signature_elem-sign_elem,
}
use go_iden3_core.Keystore.Kept.{IsKeyStorage, unlock_key-import_key}

-- A cipher that hides nothing, and keys that are their own public keys.
instance abbrev plain_keys : KeyCrypto
plain_keys = record {
  Point = Bytes;
  Signature = Bytes;
  scrypt_key = λ pass salt n p. ok pass;
  seal = λ m n k. m;
  open_box = λ b n k. some b;
  public = λ sk. sk;
  sign_poseidon = λ sk msg. msg ∷ sk;
  hash_bytes = λ bs. length bs;
  decompress_point = λ bs. ok bs;
  decompress_signature = λ bs. ok bs;
  verify_poseidon = λ p msg s. bytes_eq s (msg ∷ p);
}

plain_keys-IsKeyCrypto : IsKeyCrypto plain_keys
plain_keys-IsKeyCrypto = record {
  open_box-seal = λ m n k hn hk. refl;
  open_box-only = λ m n k n' k' m' e. sym (some-injective e);
  signed = λ sk msg full. (sk, msg ∷ sk, refl, refl, bytes_eq_refl (msg ∷ sk));
}

-- A field is written after its length.
field : Bytes → Bytes × Bytes
field [] = ([], [])
field (l ∷ r) = (take l r, drop l r)

field_eq : (x y : Bytes) → field (length x ∷ (x ++ y)) ≡ (x, y)
unfolding field
field_eq x y = λ i. (take-append x y i, drop-append x y i)

write_keys : KeysStored → Result Bytes
write_keys [] = err (external 0)
write_keys ((pk, e) ∷ []) = ok (
    e.scrypt_n
    ∷ e.scrypt_p
    ∷ length pk
    ∷ (pk ++ length e.salt ∷ (e.salt ++ length e.nonce ∷ (e.nonce ++ e.encrypted_data))))
write_keys (x ∷ y ∷ keys) = err (external 0)

with_nonce : ℕ → ℕ → Bytes → Bytes → Bytes × Bytes → KeysStored
with_nonce n p pk salt (nonce, encrypted_data) =
    (
      pk,
      record {
        salt = salt;
        scrypt_n = n;
        scrypt_p = p;
        nonce = nonce;
        encrypted_data = encrypted_data;
      },
    )
    ∷ []

with_salt : ℕ → ℕ → Bytes → Bytes × Bytes → KeysStored
with_salt n p pk (salt, r) = with_nonce n p pk salt (field r)

with_fields : ℕ → ℕ → Bytes × Bytes → KeysStored
with_fields n p (pk, r) = with_salt n p pk (field r)

read_text : Bytes → Result KeysStored
read_text (n ∷ p ∷ r) = ok (with_fields n p (field r))
read_text _ = err (external 1)

instance abbrev in_ram : KeyStorage
in_ram = mem_storage

instance abbrev one_key : Json KeysStored
one_key = record { marshal = write_keys; unmarshal = read_text }

one_key_kept : (keys : KeysStored) (bs : Bytes) → write_keys keys ≡ ok bs → read_text bs ≡ ok keys
unfolding write_keys read_text with_fields with_salt with_nonce
one_key_kept [] bs h = cc
one_key_kept ((pk, e) ∷ []) bs h =
    let inner = e.nonce ++ e.encrypted_data in
    let middle = e.salt ++ length e.nonce ∷ inner in
    ap read_text (sym (ok-injective h))
    ∙ ap (λ x. ok (with_fields e.scrypt_n e.scrypt_p x)) (field_eq pk (length e.salt ∷ middle))
    ∙ ap (λ x. ok (with_salt e.scrypt_n e.scrypt_p pk x)) (field_eq e.salt (length e.nonce ∷ inner))
    ∙ ap (λ x. ok (with_nonce e.scrypt_n e.scrypt_p pk e.salt x))
        (field_eq e.nonce e.encrypted_data)
one_key_kept (x ∷ y ∷ keys) bs h = cc

one_key-IsJson : IsJson one_key
one_key-IsJson = record { unmarshal-marshal = one_key_kept }

not_empty : (keys : KeysStored) (bs : Bytes) → write_keys keys ≡ ok bs → length bs ≢ 0
unfolding write_keys
not_empty [] bs h = cc
not_empty ((pk, e) ∷ []) bs h = λ z. omega (arith, ap (λ (x : Bytes). length x) (ok-injective h), z)
not_empty (x ∷ y ∷ keys) bs h = cc

mem_storage-IsKeyStorage : IsKeyStorage mem_storage
mem_storage-IsKeyStorage = record {
  read-write = λ s s1 s2 s3 bs written unlocked locked.
      ap ok (
        sym (ap (λ (x : Bytes × Result _). x.0) locked)
        ∙ sym (ap (λ (x : Bytes × Result _). x.0) unlocked))
      ∙ sym written;
}

abbrev sk1 : Bytes
sk1 = replicate 32 7

abbrev nonce1 : Bytes
nonce1 = replicate 24 1

abbrev pass1 : Bytes
pass1 = 5 ∷ []

abbrev empty_store : KeyStore
empty_store = no_keys [] light_key_store_params

unfoldable with_one : KeyStore
unfolding import_key followed encrypt_data write_keys
with_one = (import_key sk1 pass1 [] nonce1 empty_store).0

with_one_eq : import_key sk1 pass1 [] nonce1 empty_store ≡ (with_one, ok sk1)
unfolding with_one
with_one_eq = refl

unlock_key-import_key_example :
    (k2 : KeyStore) × (k3 : KeyStore) × (new_key_store light_key_store_params with_one.storage
      ≡ (with_one.storage, ok k2))
    × (unlock_key sk1 pass1 k2 ≡ (k3, ok tt))
    × (export_key k3 sk1 ≡ ok sk1)
unfolding with_one close
unlock_key-import_key_example =
    unlock_key-import_key plain_keys-IsKeyCrypto mem_storage-IsKeyStorage one_key-IsJson not_empty
      sk1 pass1 [] nonce1 sk1 empty_store with_one with_one light_key_store_params with_one.storage
      refl refl with_one_eq refl refl

abbrev two_calls : List KeyCall
two_calls = imports sk1 pass1 [] nonce1 refl ∷ unlocks sk1 pass1 ∷ []

signed_9 : sign_elem (run_calls two_calls empty_store) sk1 9 ≡ ok (9 ∷ sk1)
unfolding sign_elem run_calls step with_one unlock_key decrypt_data opened or_err export_key at_key
    bytes_eq copy_into
signed_9 = refl

verify_signature_elem-sign_elem_example : verify_signature_elem sk1 9 (9 ∷ sk1) ≡ ok true
verify_signature_elem-sign_elem_example =
    verify_signature_elem-sign_elem plain_keys-IsKeyCrypto [] light_key_store_params two_calls sk1
      (9 ∷ sk1) 9 signed_9
