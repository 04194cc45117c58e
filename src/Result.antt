-- ===== src/Result.antt =====
-- How a Go call ends: a value, one of the errors that the packages declare or build, or a run-time
-- panic (an index out of range, an explicit `panic`).
use go_iden3_core.Prelude.{ℕ, ◌≡◌, ◌⊎◌, inl, inr, refl, sym, ap, ◌∙◌, Option, none, some}

pub data Error : Type 0 where
  -- db
  not_found : Error
  -- merkletree
  node_key_already_exists entry_index_not_found node_data_bad_size reached_max_level : Error
  invalid_node_found invalid_proof_bytes invalid_db_value entry_index_already_exists : Error
  not_writable entry_data_not_match not_in_field hash_input_too_long : Error
  same_index_as_node_aux kv_too_long eof unexpected_eof invalid_length bad_hex : Error
  -- core
  empty_id checksum_error : Error
  -- components/verifier
  iden_state_on_chain_doesnt_match mtp_non_existence mtp_existence claim_expired : Error
  calculated_iden_state_doesnt_match outdated_credential failed_verify_zk_proof : Error
  -- identity/issuer
  max_nonce iden_genesis_only iden_state_pending_not_nil iden_state_on_chain_zero : Error
  claim_not_found_state_on_chain claim_not_found_claims_tree : Error
  claim_not_yet_in_on_chain_state state_mismatch list_too_short too_many_siblings : Error
  zk_proof_invalid : Error
  -- components/idenpuboffchain
  wrong_revocations_root wrong_roots_root wrong_iden_state iden_state_not_found : Error
  bad_url id_not_found : Error
  -- identity/holder
  revoked_claim root_not_found calculated_state_mismatch failed_verify_credential : Error
  -- core/claims
  invalid_claim_type invalid_text invalid_header : Error
  -- keystore
  key_not_found key_not_in_cache invalid_enc_data storage_lock storage_unlocked not_exist : Error
  -- components/idenpubonchain and eth
  iden_not_on_chain iden_by_block_not_found iden_by_time_not_found : Error
  already_on_chain zkproof_failed receipt_not_received : Error
  -- a failure of code that is not in the repository
  external : ℕ → Error

pub data Result {ℓ} (A : Type ℓ) : Type ℓ where
  panic : Result A
  err : (reason : Error) → Result A
  ok : (value : A) → Result A

-- A call, and what is done with its value.
infixl 5 ◌>>=◌
abbrev pub ◌>>=◌ {ℓ κ} :
    {X : Type ℓ} {Y : Type κ} (call : Result X) (rest : X → Result Y) → Result Y
panic >>= rest = panic
err reason >>= rest = err reason
ok value >>= rest = rest value

-- An index expression, which panics out of range.
abbrev pub or_panic {ℓ} : {A : Type ℓ} → Option A → Result A
or_panic none = panic
or_panic (some a) = ok a

-- A value that is used although the call may have failed and left it nil.
unfoldable pub no_err {ℓ} : {A : Type ℓ} → Result A → Result A
no_err (ok a) = ok a
no_err (err _) = panic
no_err panic = panic

pub no_err-eq-ok {ℓ} : {A : Type ℓ} (call : Result A) {a : A} → no_err call ≡ ok a → call ≡ ok a
unfolding no_err
no_err-eq-ok (ok x) e = e
no_err-eq-ok (err x) e = cc
no_err-eq-ok panic e = cc

pub >>=-eq-ok {ℓ κ} :
    {X : Type ℓ} {Y : Type κ} (call : Result X) (rest : X → Result Y) {y : Y}
    → (call >>= rest) ≡ ok y
    → (x : X) × (call ≡ ok x) × (rest x ≡ ok y)
>>=-eq-ok panic rest e = cc
>>=-eq-ok (err reason) rest e = cc
>>=-eq-ok (ok value) rest e = (value, refl, e)

-- What is left once a call has given its value.
pub >>=-step {ℓ κ} :
    {X : Type ℓ} {Y : Type κ} {call : Result X} {x : X} (rest : X → Result Y) {r : Result Y}
    → call ≡ ok x
    → (call >>= rest) ≡ r
    → rest x ≡ r
>>=-step rest e h = sym (ap (λ m. m >>= rest) e) ∙ h

-- To split on how a call ends and keep the equation.
pub Result-cases {ℓ} :
    {A : Type ℓ} (m : Result A) → ((a : A) × (m ≡ ok a)) ⊎ ((e : Error) × (m ≡ err e)) ⊎ (m ≡ panic)
Result-cases (ok a) = inl (a, refl)
Result-cases (err e) = inr (inl (e, refl))
Result-cases panic = inr (inr refl)

pub ok-injective {ℓ} : {A : Type ℓ} {a b : A} → ok a ≡ ok b → a ≡ b
ok-injective e = cc

-- A call that leaves a state behind, and what is done after it if it does not fail.
unfoldable pub and_then {ℓ} :
    {S : Type ℓ} → S × Result (Unit {0}) → (S → S × Result (Unit {0})) → S × Result (Unit {0})
and_then (s, ok _) rest = rest s
and_then (s, err reason) rest = (s, err reason)
and_then (s, panic) rest = (s, panic)
