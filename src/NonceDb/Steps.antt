-- ===== src/NonceDb/Steps.antt =====
-- The calls of a NonceDb in any order, and what holds after them.
use go_iden3_core.Prelude.{
  ℕ, suc, ◌+◌, ◌%◌, ◌^◌, ◌≡◌, ◌<◌, Bool, true, not, if◌then◌else◌, arith, refl, inl, inr, Option,
  none, some, List, [], ◌∷◌, leb, bytes_eq, Bool-cases,
}
use go_iden3_core.Common.{Bytes}
use go_iden3_core.NonceDb.{
  NonceObj, NonceDb, int64_less, lookup, delete, add, add_for, add_aux, set_aux, has_aux,
  delete_old, delete_old_oportunistic, search, search_and_delete,
}
use go_iden3_core.NonceDb.Expiry.{
  IsValid, Tracked, is_due, Kept, lookup-delete_expired, delete_expired-Kept, add_new-IsValid,
  lookup-set_aux, lookup-delete,
}

-- A call from outside.
pub data Call (Aux : Type 0) : Type 0 where
  add_call : (nonce : Bytes) (delta : ℕ) (aux : Option Aux) → Call Aux
  add_aux_call : (nonce : Bytes) (aux : Aux) → Call Aux
  search_call : (nonce : Bytes) → Call Aux
  search_and_delete_call : (nonce : Bytes) → Call Aux
  delete_old_call : Call Aux

module _ {Aux : Type 0} where
  -- NewNonceDb
  abbrev pub new_nonce_db : NonceDb Aux
  new_nonce_db = record { nonces_heap = []; nonce_objs_by_nonce = []; delete_counter = 0 }

  -- The state after a call at the time `now`.
  unfoldable pub apply : ℕ → Call Aux → NonceDb Aux → NonceDb Aux
  apply now (add_call nonce delta aux) ndb = (add_for now ndb nonce delta aux).0
  apply now (add_aux_call nonce aux) ndb = (add_aux ndb nonce aux).0
  apply now (search_call nonce) ndb = (search now ndb nonce).0
  apply now (search_and_delete_call nonce) ndb = (search_and_delete now ndb nonce).0
  apply now delete_old_call ndb = delete_old now ndb

  -- The calls, each with its time; the last one stands first.
  unfoldable pub run : List (ℕ × Call Aux) → NonceDb Aux
  run [] = new_nonce_db
  run ((now, call) ∷ calls) = apply now call (run calls)

  new_nonce_db-IsValid : IsValid new_nonce_db
  unfolding lookup
  new_nonce_db-IsValid = record { ordered = tt; tracked = λ n o found. cc }

  add-IsValid :
      (ndb : NonceDb Aux) (nonce : Bytes) (expiration : ℕ) (aux : Option Aux)
      → IsValid ndb
      → IsValid (add ndb nonce expiration aux).0
  unfolding add
  add-IsValid ndb nonce expiration aux v = go (lookup nonce ndb.nonce_objs_by_nonce) refl
    where
      go :
          (r : Option (NonceObj Aux))
          → lookup nonce ndb.nonce_objs_by_nonce ≡ r
          → IsValid (add ndb nonce expiration aux).0
      go (some o) e = rw (e, add) v
      go none e =
          rw (e, add)
            (add_new-IsValid ndb (record { nonce = nonce; expiration = expiration; aux = aux }) v)

  set_aux-IsValid :
      (ndb : NonceDb Aux) (nonce : Bytes) (aux : Aux)
      → IsValid ndb
      → IsValid (record ndb { nonce_objs_by_nonce = set_aux nonce aux ndb.nonce_objs_by_nonce })
  set_aux-IsValid ndb nonce aux v = record {
    ordered = v.ordered;
    tracked = λ n o found.
        let (o', before, same) = lookup-set_aux nonce n aux ndb.nonce_objs_by_nonce o found in
        rw same at (v.tracked n o' before);
  }

  add_aux-IsValid :
      (ndb : NonceDb Aux) (nonce : Bytes) (aux : Aux)
      → IsValid ndb
      → IsValid (add_aux ndb nonce aux).0
  unfolding add_aux
  add_aux-IsValid ndb nonce aux v = go (lookup nonce ndb.nonce_objs_by_nonce) refl
    where
      go :
          (r : Option (NonceObj Aux))
          → lookup nonce ndb.nonce_objs_by_nonce ≡ r
          → IsValid (add_aux ndb nonce aux).0
      go none e = rw (e, add_aux) v
      go (some o) e = elim (Bool-cases (has_aux o)) [
        | inl full ↦ rw (e, add_aux) (rw full v)
        | inr free ↦ rw (e, add_aux) (rw free (set_aux-IsValid ndb nonce aux v))
      ]

  delete_old-Kept :
      (now : ℕ) (ndb : NonceDb Aux)
      → IsValid ndb
      → Kept now ndb.nonce_objs_by_nonce
          ((delete_old now ndb).nonces_heap, (delete_old now ndb).nonce_objs_by_nonce)
  unfolding delete_old
  delete_old-Kept now ndb v =
      delete_expired-Kept now ndb.nonces_heap ndb.nonce_objs_by_nonce v.ordered v.tracked

  delete_old-IsValid : (now : ℕ) (ndb : NonceDb Aux) → IsValid ndb → IsValid (delete_old now ndb)
  delete_old-IsValid now ndb v =
      let k = delete_old-Kept now ndb v in record { ordered = k.ordered; tracked = k.tracked }

  delete_old_oportunistic-IsValid :
      (now : ℕ) (ndb : NonceDb Aux) → IsValid ndb → IsValid (delete_old_oportunistic now ndb)
  unfolding delete_old_oportunistic
  delete_old_oportunistic-IsValid now ndb v = elim (Bool-cases (leb 128 (suc ndb.delete_counter))) [
    | inl due ↦ simp due (
        delete_old-IsValid now (record ndb { delete_counter = 0 })
          (record { ordered = v.ordered; tracked = v.tracked }))
    | inr early ↦ simp early (record { ordered = v.ordered; tracked = v.tracked })
  ]

  delete-IsValid :
      (ndb : NonceDb Aux) (nonce : Bytes)
      → IsValid ndb
      → IsValid (record ndb { nonce_objs_by_nonce = delete nonce ndb.nonce_objs_by_nonce })
  delete-IsValid ndb nonce v = record {
    ordered = v.ordered;
    tracked = λ n o found. elim (Bool-cases (bytes_eq nonce n)) [
      | inl gone ↦ cc (simp (lookup-delete nonce n ndb.nonce_objs_by_nonce, gone) at found)
      | inr kept ↦
          v.tracked n o (simp (lookup-delete nonce n ndb.nonce_objs_by_nonce, kept) at found)
    ];
  }

  apply-IsValid :
      (now : ℕ) (call : Call Aux) (ndb : NonceDb Aux) → IsValid ndb → IsValid (apply now call ndb)
  unfolding apply add_for search search_and_delete
  apply-IsValid now (add_call nonce delta aux) ndb v =
      add-IsValid ndb nonce ((now + delta) % 2 ^ 64) aux v
  apply-IsValid now (add_aux_call nonce aux) ndb v = add_aux-IsValid ndb nonce aux v
  apply-IsValid now (search_call nonce) ndb v = delete_old_oportunistic-IsValid now ndb v
  apply-IsValid now (search_and_delete_call nonce) ndb v =
      delete-IsValid (delete_old_oportunistic now ndb) nonce
        (delete_old_oportunistic-IsValid now ndb v)
  apply-IsValid now delete_old_call ndb v = delete_old-IsValid now ndb v

  run-IsValid : (calls : List (ℕ × Call Aux)) → IsValid (run calls)
  unfolding run
  run-IsValid [] = new_nonce_db-IsValid
  run-IsValid ((now, call) ∷ calls) = apply-IsValid now call (run calls) (run-IsValid calls)

  delete_counter-add :
      (ndb : NonceDb Aux) (nonce : Bytes) (expiration : ℕ) (aux : Option Aux)
      → (add ndb nonce expiration aux).0.delete_counter ≡ ndb.delete_counter
  unfolding add
  delete_counter-add ndb nonce expiration aux = go (lookup nonce ndb.nonce_objs_by_nonce) refl
    where
      go :
          (r : Option (NonceObj Aux))
          → lookup nonce ndb.nonce_objs_by_nonce ≡ r
          → (add ndb nonce expiration aux).0.delete_counter ≡ ndb.delete_counter
      go (some o) e = rw (e, add) refl
      go none e = rw (e, add) refl

  delete_counter-add_aux :
      (ndb : NonceDb Aux) (nonce : Bytes) (aux : Aux)
      → (add_aux ndb nonce aux).0.delete_counter ≡ ndb.delete_counter
  unfolding add_aux
  delete_counter-add_aux ndb nonce aux = go (lookup nonce ndb.nonce_objs_by_nonce) refl
    where
      go :
          (r : Option (NonceObj Aux))
          → lookup nonce ndb.nonce_objs_by_nonce ≡ r
          → (add_aux ndb nonce aux).0.delete_counter ≡ ndb.delete_counter
      go none e = rw (e, add_aux) refl
      go (some o) e = elim (Bool-cases (has_aux o)) [
        | inl full ↦ rw (e, add_aux) (rw full refl)
        | inr free ↦ rw (e, add_aux) (rw free refl)
      ]

  delete_old_oportunistic-bound :
      (now : ℕ) (ndb : NonceDb Aux)
      → ndb.delete_counter < 128
      → (delete_old_oportunistic now ndb).delete_counter < 128
  unfolding delete_old_oportunistic delete_old
  delete_old_oportunistic-bound now ndb h = ground arith

  apply-bound :
      (now : ℕ) (call : Call Aux) (ndb : NonceDb Aux)
      → ndb.delete_counter < 128
      → (apply now call ndb).delete_counter < 128
  unfolding apply add_for search search_and_delete delete_old
  apply-bound now (add_call nonce delta aux) ndb h =
      rw (delete_counter-add ndb nonce ((now + delta) % 2 ^ 64) aux) h
  apply-bound now (add_aux_call nonce aux) ndb h = rw (delete_counter-add_aux ndb nonce aux) h
  apply-bound now (search_call nonce) ndb h = delete_old_oportunistic-bound now ndb h
  apply-bound now (search_and_delete_call nonce) ndb h = delete_old_oportunistic-bound now ndb h
  apply-bound now delete_old_call ndb h = h

  run-bound : (calls : List (ℕ × Call Aux)) → (run calls).delete_counter < 128
  unfolding run
  run-bound [] = omega arith
  run-bound ((now, call) ∷ calls) = apply-bound now call (run calls) (run-bound calls)

  -- Every nonce of the map waits in the heap, and the counter has not reached its limit.
  pub record IsTracked (ndb : NonceDb Aux) : Type 0 where
    pub tracked : Tracked ndb.nonces_heap ndb.nonce_objs_by_nonce
    pub bounded : ndb.delete_counter < 128

  -- After any calls on a new NonceDb, each at any time, every nonce of the map is in the heap with
  -- its expiration, and the counter of the searches is below 128.
  pub run-IsTracked : (calls : List (ℕ × Call Aux)) → IsTracked (run calls)
  run-IsTracked calls = record { tracked = (run-IsValid calls).tracked; bounded = run-bound calls }

  -- What a look-up found, if it did, has not expired.
  unfoldable pub is_fresh : ℕ → Option (NonceObj Aux) → Bool
  is_fresh now none = true
  is_fresh now (some o) = not (int64_less o.expiration now)

  is_fresh-delete_old :
      (now : ℕ) (nonce : Bytes) (ndb : NonceDb Aux) (r : Option (NonceObj Aux))
      → IsValid ndb
      → lookup nonce (delete_old now ndb).nonce_objs_by_nonce ≡ r
      → is_fresh now r ≡ true
  unfolding is_fresh int64_less
  is_fresh-delete_old now nonce ndb none v found = refl
  is_fresh-delete_old now nonce ndb (some o) v found =
      let young = ((delete_old-Kept now ndb v).fresh nonce o found).0 in ground arith

  -- After any calls on a new NonceDb, each at any time, DeleteOld deletes exactly the nonces that
  -- are in the heap with an expiration before the present time, while every other nonce is found
  -- as before, and no nonce that is then found has expired; deltas, times and expirations are
  -- 64-bit patterns of signed numbers.
  pub delete_old-run :
      (calls : List (ℕ × Call Aux)) (now : ℕ) (nonce : Bytes)
      → (lookup nonce (delete_old now (run calls)).nonce_objs_by_nonce ≡ (
          if is_due now nonce (run calls).nonces_heap
          then none
          else lookup nonce (run calls).nonce_objs_by_nonce))
        × (is_fresh now (lookup nonce (delete_old now (run calls)).nonce_objs_by_nonce) ≡ true)
  unfolding delete_old
  delete_old-run calls now nonce = (
    lookup-delete_expired now nonce (run calls).nonces_heap (run calls).nonce_objs_by_nonce
        (run-IsValid calls).ordered,
    is_fresh-delete_old now nonce (run calls) _ (run-IsValid calls) refl,
  )
