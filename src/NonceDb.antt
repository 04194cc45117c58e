-- ===== src/NonceDb.antt =====
-- utils/noncedb/nonce_db.go: nonces with an expiration. The map and the heap share their objects;
-- what the heap reads of one, its nonce and its expiration, is never changed, so `Pending` is that
-- part, and the auxiliary data is in the map only. `container/heap` is a list in the order of the
-- expirations. An `int64`, which is a time in seconds since 1970 or a delta, is its 64-bit pattern, so
-- that -1 is 2^64 - 1 and a sum wraps around; the clock does not move during a call.
pub mod Expiry
pub mod Steps
use go_iden3_core.Prelude.{
  ℕ, zero, suc, ◌+◌, ◌≡◌, Bool, true, false, not, ◌%◌, ◌^◌, ◌&&◌, Option, none, some, List, [], ◌∷◌,
  ltb, leb, if◌then◌else◌, bytes_eq,
}
use go_iden3_core.Common.{Bytes}

-- An `int64` pattern, moved so that the order of the patterns is the order of the signed numbers.
unfoldable pub int64_order : ℕ → ℕ
int64_order x = (x + 2 ^ 63) % 2 ^ 64

-- `x < y` on `int64`, which is also `nonceObjs.Less`
unfoldable pub int64_less : ℕ → ℕ → Bool
int64_less x y = ltb (int64_order x) (int64_order y)

pub record Pending : Type 0 where
  pub nonce : Bytes
  pub expiration : ℕ

pub record NonceObj (Aux : Type 0) : Type 0 where
  pub nonce : Bytes
  pub expiration : ℕ
  pub aux : Option Aux

pub record NonceDb (Aux : Type 0) : Type 0 where
  pub nonces_heap : List Pending
  pub nonce_objs_by_nonce : List (NonceObj Aux)
  pub delete_counter : ℕ

-- nonceObjHeap.Push
unfoldable pub push : Pending → List Pending → List Pending
push p [] = p ∷ []
push p (q ∷ h) =
    let rest = push p h in if int64_less p.expiration q.expiration then p ∷ q ∷ h else q ∷ rest

module _ {Aux : Type 0} where
  -- `nonceObjsByNonce[nonce]`
  unfoldable pub lookup : Bytes → List (NonceObj Aux) → Option (NonceObj Aux)
  lookup n [] = none
  lookup n (o ∷ m) = if bytes_eq o.nonce n then some o else lookup n m

  -- `delete(nonceObjsByNonce, nonce)`
  unfoldable pub delete : Bytes → List (NonceObj Aux) → List (NonceObj Aux)
  delete n [] = []
  delete n (o ∷ m) = let rest = delete n m in if bytes_eq o.nonce n then rest else o ∷ rest

  -- NonceDb.add
  unfoldable pub add : NonceDb Aux → Bytes → ℕ → Option Aux → NonceDb Aux × Option (NonceObj Aux)
  add ndb nonce expiration aux = elim (lookup nonce ndb.nonce_objs_by_nonce) [
    | some _ ↦ (ndb, none)
    | none ↦
        let obj : NonceObj Aux = record { nonce = nonce; expiration = expiration; aux = aux } in
        (
          record ndb {
            nonces_heap = push (record { nonce = nonce; expiration = expiration }) ndb.nonces_heap;
            nonce_objs_by_nonce = obj ∷ ndb.nonce_objs_by_nonce;
          },
          some obj,
        )
  ]

  -- NonceDb.Add, at the time `now`; the sum of the two `int64` wraps around.
  unfoldable pub add_for :
      ℕ → NonceDb Aux → Bytes → ℕ → Option Aux → NonceDb Aux × Option (NonceObj Aux)
  add_for now ndb nonce delta aux = add ndb nonce ((now + delta) % 2 ^ 64) aux

  unfoldable pub set_aux : Bytes → Aux → List (NonceObj Aux) → List (NonceObj Aux)
  set_aux n a [] = []
  set_aux n a (o ∷ m) =
      let rest = set_aux n a m in
      if bytes_eq o.nonce n
      then record { nonce = o.nonce; expiration = o.expiration; aux = some a } ∷ m
      else o ∷ rest

  has_aux : NonceObj Aux → Bool
  has_aux o = elim o.aux [ some _ ↦ true | none ↦ false ]

  -- AddAux
  unfoldable pub add_aux : NonceDb Aux → Bytes → Aux → NonceDb Aux × Bool
  unfolding has_aux
  add_aux ndb nonce aux = elim (lookup nonce ndb.nonce_objs_by_nonce) [
    | none ↦ (ndb, false)
    | some o ↦
        if has_aux o
        then (ndb, false)
        else (record ndb { nonce_objs_by_nonce = set_aux nonce aux ndb.nonce_objs_by_nonce }, true)
  ]

  -- The loop of DeleteOld.
  unfoldable pub delete_expired :
      ℕ → List Pending → List (NonceObj Aux) → List Pending × List (NonceObj Aux)
  delete_expired now [] m = ([], m)
  delete_expired now (p ∷ h) m =
      let rest = delete_expired now h (delete p.nonce m) in
      if int64_less p.expiration now then rest else (p ∷ h, m)

  -- DeleteOld
  unfoldable pub delete_old : ℕ → NonceDb Aux → NonceDb Aux
  delete_old now ndb =
      let (h, m) = delete_expired now ndb.nonces_heap ndb.nonce_objs_by_nonce in
      record ndb { nonces_heap = h; nonce_objs_by_nonce = m }

  -- DeleteOldOportunistic
  unfoldable pub delete_old_oportunistic : ℕ → NonceDb Aux → NonceDb Aux
  delete_old_oportunistic now ndb =
      if leb 128 (suc ndb.delete_counter)
      then delete_old now (record ndb { delete_counter = 0 })
      else record ndb { delete_counter = suc ndb.delete_counter }

  found : ℕ → Option (NonceObj Aux) → Option (NonceObj Aux) × Bool
  found now none = (none, false)
  found now (some o) = (some o, not (int64_less o.expiration now))

  -- Search
  unfoldable pub search : ℕ → NonceDb Aux → Bytes → NonceDb Aux × (Option (NonceObj Aux) × Bool)
  unfolding found
  search now ndb nonce =
      let ndb' = delete_old_oportunistic now ndb in
      (ndb', found now (lookup nonce ndb'.nonce_objs_by_nonce))

  -- SearchAndDelete; a nonce that is not in the map is deleted from it to no effect.
  unfoldable pub search_and_delete :
      ℕ → NonceDb Aux → Bytes → NonceDb Aux × (Option (NonceObj Aux) × Bool)
  unfolding found
  search_and_delete now ndb nonce =
      let ndb' = delete_old_oportunistic now ndb in
      (
        record ndb' { nonce_objs_by_nonce = delete nonce ndb'.nonce_objs_by_nonce },
        found now (lookup nonce ndb'.nonce_objs_by_nonce),
      )
