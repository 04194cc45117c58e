-- ===== src/Tests/Nonces.antt =====
-- Nonces that are added, found and deleted.
use go_iden3_core.Prelude.{
  ℕ, ◌-◌, ◌^◌, ◌≡◌, refl, true, false, none, some, List, [], ◌∷◌, if◌then◌else◌, bytes_eq,
}
use go_iden3_core.Common.{Bytes}
use go_iden3_core.NonceDb.{
  NonceObj, push, lookup, delete, add, add_for, delete_expired, delete_old, delete_old_oportunistic,
  search, search_and_delete, int64_order, int64_less,
}
use go_iden3_core.NonceDb.Expiry.{is_due}
use go_iden3_core.NonceDb.Steps.{
  Call, add_call, search_and_delete_call, apply, run, IsTracked, run-IsTracked, is_fresh,
  delete_old-run,
}

abbrev nonce1 : Bytes
nonce1 = 1 ∷ []

-- A nonce that has expired at 12, and one that has not.
abbrev calls1 : List (ℕ × Call ℕ)
calls1 = (10, add_call nonce1 5 none) ∷ (9, add_call (2 ∷ []) 1 none) ∷ []

abbrev obj1 : NonceObj ℕ
obj1 = record { nonce = nonce1; expiration = 15; aux = none }

kept1 : lookup nonce1 (delete_old 12 (run calls1)).nonce_objs_by_nonce ≡ some obj1
unfolding run apply add_for add push lookup delete delete_old delete_expired bytes_eq int64_less
    int64_order
kept1 = refl

-- The `int64` -60.
abbrev minus60 : ℕ
minus60 = 2 ^ 64 - 60

-- A nonce that is added with the delta -60 goes to the top of the heap, and is not found at the
-- time at which it is added.
abbrev calls3 : List (ℕ × Call ℕ)
calls3 = (100, add_call (3 ∷ []) minus60 none) ∷ (100, add_call nonce1 0 none) ∷ []

abbrev obj3 : NonceObj ℕ
obj3 = record { nonce = 3 ∷ []; expiration = 40; aux = none }

expired3 : (search 100 (run calls3) (3 ∷ [])).1 ≡ (some obj3, false)
unfolding run apply add_for add push lookup search delete_old_oportunistic bytes_eq int64_less
    int64_order
expired3 = refl

-- An expiration before 1970 is a negative number.
abbrev calls4 : List (ℕ × Call ℕ)
calls4 = (10, add_call nonce1 minus60 none) ∷ []

deleted4 : lookup nonce1 (delete_old 0 (run calls4)).nonce_objs_by_nonce ≡ none
unfolding run apply add_for add push lookup delete delete_old delete_expired bytes_eq int64_less
    int64_order
deleted4 = refl

delete_old-run_example :
    (lookup (3 ∷ []) (delete_old 100 (run calls3)).nonce_objs_by_nonce ≡ (
      if is_due 100 (3 ∷ []) (run calls3).nonces_heap
      then none
      else lookup (3 ∷ []) (run calls3).nonce_objs_by_nonce))
    × (is_fresh 100 (lookup (3 ∷ []) (delete_old 100 (run calls3)).nonce_objs_by_nonce) ≡ true)
delete_old-run_example = delete_old-run calls3 100 (3 ∷ [])

run-IsTracked_example : IsTracked (run calls3)
run-IsTracked_example = run-IsTracked calls3

-- A nonce that was deleted and added again is deleted at the expiration that it had before.
abbrev calls2 : List (ℕ × Call ℕ)
calls2 =
    (0, add_call nonce1 100 none)
    ∷ (0, search_and_delete_call nonce1)
    ∷ (0, add_call nonce1 1 none)
    ∷ []

forgotten : lookup nonce1 (delete_old 5 (run calls2)).nonce_objs_by_nonce ≡ none
unfolding run apply add_for add push lookup delete delete_old delete_expired bytes_eq
    search_and_delete delete_old_oportunistic int64_less int64_order
forgotten = refl
