-- ===== src/NonceDb/Expiry.antt =====
-- The heap has every nonce of the map with its expiration, through all operations, so that DeleteOld
-- removes every nonce that has expired.
use go_iden3_core.Prelude.{
  ℕ, ◌≡◌, ◌≤◌, refl, ap, ◌∙◌, inl, inr, Bool, true, false, none, some, List, [], ◌∷◌, arith,
  if◌then◌else◌, bytes_eq, bytes_eq_iff, Bool-cases, All, ◌==◌, ==_iff, ◌&&◌,
}
use go_iden3_core.Common.{Bytes}
use go_iden3_core.NonceDb.{
  Pending, NonceObj, NonceDb, int64_order, int64_less, push, lookup, delete, set_aux,
  delete_expired,
}

-- The heap has a nonce with this expiration.
unfoldable pub is_pending : Bytes → ℕ → List Pending → Bool
is_pending n t [] = false
is_pending n t (p ∷ h) = if bytes_eq p.nonce n && p.expiration == t then true else is_pending n t h

abbrev pub AtLeast : ℕ → Pending → Type 0
AtLeast t p = int64_order t ≤ int64_order p.expiration

-- The order of the heap.
abbrev pub Ordered : List Pending → Type 0
Ordered [] = Unit
Ordered (p ∷ h) = All (AtLeast p.expiration) h × Ordered h

-- The heap has the nonce with an expiration before `now`.
unfoldable pub is_due : ℕ → Bytes → List Pending → Bool
is_due now n [] = false
is_due now n (p ∷ h) =
    if bytes_eq p.nonce n && int64_less p.expiration now then true else is_due now n h

not_later : (x y : ℕ) → int64_less x y ≡ true → int64_order x ≤ int64_order y
unfolding int64_less
not_later x y h = ground arith

not_sooner : (x y : ℕ) → int64_less x y ≡ false → int64_order y ≤ int64_order x
unfolding int64_less
not_sooner x y h = ground arith

is_pending-push :
    (p : Pending) (h : List Pending) (n : Bytes) (t : ℕ)
    → is_pending n t (push p h) ≡ is_pending n t (p ∷ h)
unfolding is_pending push
is_pending-push p [] n t = refl
is_pending-push p (q ∷ h) n t = ground (arith, is_pending-push p h n t)

AtLeast-trans :
    (s t : ℕ) (h : List Pending)
    → int64_order s ≤ int64_order t
    → All (AtLeast t) h
    → All (AtLeast s) h
AtLeast-trans s t [] le a = tt
AtLeast-trans s t (p ∷ h) le a = (omega (arith, a.0), AtLeast-trans s t h le a.1)

is_due-AtLeast :
    (now : ℕ) (n : Bytes) (h : List Pending) → All (AtLeast now) h → is_due now n h ≡ false
unfolding is_due int64_less
is_due-AtLeast now n [] a = refl
is_due-AtLeast now n (p ∷ h) a = ground (arith, is_due-AtLeast now n h)

AtLeast-push :
    (t : ℕ) (p : Pending) (h : List Pending)
    → int64_order t ≤ int64_order p.expiration
    → All (AtLeast t) h
    → All (AtLeast t) (push p h)
unfolding push
AtLeast-push t p [] le a = (le, tt)
AtLeast-push t p (q ∷ h) le a = elim (Bool-cases (int64_less p.expiration q.expiration)) [
  | inl sooner ↦ rw sooner (le, a)
  | inr later ↦ rw later (a.0, AtLeast-push t p h le a.1)
]

push-Ordered : (p : Pending) (h : List Pending) → Ordered h → Ordered (push p h)
unfolding push
push-Ordered p [] o = (tt, tt)
push-Ordered p (q ∷ h) o = elim (Bool-cases (int64_less p.expiration q.expiration)) [
  | inl sooner ↦
      let le = not_later p.expiration q.expiration sooner in
      simp sooner ((le, AtLeast-trans p.expiration q.expiration h le o.0), o)
  | inr later ↦
      let le = not_sooner p.expiration q.expiration later in
      simp later (AtLeast-push q.expiration p h le o.0, push-Ordered p h o.1)
]

is_pending-AtLeast :
    (t s : ℕ) (n : Bytes) (h : List Pending)
    → All (AtLeast t) h
    → is_pending n s h ≡ true
    → int64_order t ≤ int64_order s
unfolding is_pending
is_pending-AtLeast t s n [] a found = cc
is_pending-AtLeast t s n (p ∷ h) a found =
    elim (Bool-cases (bytes_eq p.nonce n && p.expiration == s)) [
      | inl it ↦
          let same : p.expiration ≡ s = ground (arith, ==_iff p.expiration s) in rw same at a.0
      | inr other ↦ is_pending-AtLeast t s n h a.1 (rw other at found)
    ]

module _ {Aux : Type 0} where
  pub lookup-delete :
      (n k : Bytes) (m : List (NonceObj Aux))
      → lookup k (delete n m) ≡ (if bytes_eq n k then none else lookup k m)
  unfolding lookup delete
  lookup-delete n k [] = ground arith
  lookup-delete n k (o ∷ m) =
      ground (
        arith,
        lookup-delete n k m,
        bytes_eq_iff o.nonce n,
        bytes_eq_iff o.nonce k,
        bytes_eq_iff n k,
      )

  -- Every nonce of the map is in the heap with its expiration.
  abbrev pub Tracked : List Pending → List (NonceObj Aux) → Type 0
  Tracked h m =
      (n : Bytes) (o : NonceObj Aux) → lookup n m ≡ some o → is_pending n o.expiration h ≡ true

  pub record IsValid (ndb : NonceDb Aux) : Type 0 where
    pub ordered : Ordered ndb.nonces_heap
    pub tracked : Tracked ndb.nonces_heap ndb.nonce_objs_by_nonce

  delete-Tracked :
      (p : Pending) (h : List Pending) (m : List (NonceObj Aux))
      → Tracked (p ∷ h) m
      → Tracked h (delete p.nonce m)
  unfolding is_pending
  delete-Tracked p h m tracked n o found = elim (Bool-cases (bytes_eq p.nonce n)) [
    | inl same ↦ cc (simp (lookup-delete p.nonce n m, same) at found)
    | inr other ↦ simp other at (tracked n o (simp (lookup-delete p.nonce n m, other) at found))
  ]

  -- What is left after DeleteOld has not expired, and was there before.
  pub record Kept (now : ℕ) (m : List (NonceObj Aux)) (r : List Pending × List (NonceObj Aux))
      : Type 0 where
    pub ordered : Ordered r.0
    pub tracked : Tracked r.0 r.1
    pub fresh :
        (n : Bytes) (o : NonceObj Aux)
        → lookup n r.1 ≡ some o
        → (int64_order now ≤ int64_order o.expiration) × (lookup n m ≡ some o)

  pub delete_expired-Kept :
      (now : ℕ) (h : List Pending) (m : List (NonceObj Aux))
      → Ordered h
      → Tracked h m
      → Kept now m (delete_expired now h m)
  unfolding delete_expired is_pending
  delete_expired-Kept now [] m o t = record {
    ordered = tt;
    tracked = λ n x found. cc (t n x found);
    fresh = λ n x found. cc (t n x found);
  }
  delete_expired-Kept now (p ∷ h) m o t = elim (Bool-cases (int64_less p.expiration now)) [
    | inl over ↦
        let k = delete_expired-Kept now h (delete p.nonce m) o.1 (delete-Tracked p h m t) in
        simp over (record {
          ordered = k.ordered;
          tracked = k.tracked;
          fresh = λ n x found.
              let (young, before) = k.fresh n x found in (young, deleted_from p.nonce n m before);
        })
    | inr left ↦ simp left (record {
      ordered = o;
      tracked = t;
      fresh = λ n x found.
          let low = not_sooner p.expiration now left in
          (
            is_pending-AtLeast now x.expiration n (p ∷ h)
                (low, AtLeast-trans now p.expiration h low o.0) (t n x found),
            found,
          );
    })
  ]
    where
      deleted_from :
          (k n : Bytes) (m : List (NonceObj Aux)) {x : NonceObj Aux}
          → lookup n (delete k m) ≡ some x
          → lookup n m ≡ some x
      deleted_from k n m e = elim (Bool-cases (bytes_eq k n)) [
        | inl same ↦ cc (simp (lookup-delete k n m, same) at e)
        | inr other ↦ simp (lookup-delete k n m, other) at e
      ]

  -- DeleteOld deletes exactly the nonces that the heap has with an expiration before `now`.
  pub lookup-delete_expired :
      (now : ℕ) (n : Bytes) (h : List Pending) (m : List (NonceObj Aux))
      → Ordered h
      → lookup n (delete_expired now h m).1 ≡ (if is_due now n h then none else lookup n m)
  unfolding delete_expired is_due
  lookup-delete_expired now n [] m o = refl
  lookup-delete_expired now n (p ∷ h) m o = elim (Bool-cases (int64_less p.expiration now)) [
    | inl over ↦ simp over (
        lookup-delete_expired now n h (delete p.nonce m) o.1
        ∙ ground (arith, lookup-delete p.nonce n m))
    | inr left ↦
        let low = not_sooner p.expiration now left in
        simp (left, is_due-AtLeast now n h (AtLeast-trans now p.expiration h low o.0))
          (ground arith)
  ]

  pub lookup-set_aux :
      (k n : Bytes) (a : Aux) (m : List (NonceObj Aux)) (o : NonceObj Aux)
      → lookup n (set_aux k a m) ≡ some o
      → (o' : NonceObj Aux) × (lookup n m ≡ some o') × (o'.expiration ≡ o.expiration)
  unfolding lookup set_aux
  lookup-set_aux k n a [] o found = cc
  lookup-set_aux k n a (x ∷ m) o found = elim (Bool-cases (bytes_eq x.nonce n)) [
    | inl here ↦ elim (Bool-cases (bytes_eq x.nonce k)) [
      | inl it ↦ (
        x,
        simp here refl,
        ap (λ (y : NonceObj Aux). y.expiration) (some_injective (simp (it, here) at found)),
      )
      | inr other ↦ (
        x,
        simp here refl,
        ap (λ (y : NonceObj Aux). y.expiration) (some_injective (simp (other, here) at found)),
      )
    ]
    | inr there ↦ elim (Bool-cases (bytes_eq x.nonce k)) [
      | inl it ↦ (o, simp there (simp (it, there) at found), refl)
      | inr other ↦
          let (o', e, same) = lookup-set_aux k n a m o (simp (other, there) at found) in
          (o', simp there e, same)
    ]
  ]
    where
      some_injective : {y z : NonceObj Aux} → some y ≡ some z → y ≡ z
      some_injective e = cc

  pub add_new-IsValid :
      (ndb : NonceDb Aux) (obj : NonceObj Aux)
      → IsValid ndb
      → IsValid (record ndb {
        nonces_heap =
            push (record { nonce = obj.nonce; expiration = obj.expiration }) ndb.nonces_heap;
        nonce_objs_by_nonce = obj ∷ ndb.nonce_objs_by_nonce;
      })
  unfolding lookup is_pending
  add_new-IsValid ndb obj v =
      let p : Pending = record { nonce = obj.nonce; expiration = obj.expiration } in
      record {
        ordered = push-Ordered p ndb.nonces_heap v.ordered;
        tracked = λ n o found.
            is_pending-push p ndb.nonces_heap n o.expiration
            ∙ elim (Bool-cases (bytes_eq obj.nonce n)) [
              | inl here ↦
                  let same : obj ≡ o = cc (simp here at found) in
                  simp
                    (
                      here,
                      (==_iff obj.expiration o.expiration).1
                          (ap (λ (y : NonceObj Aux). y.expiration) same),
                    )
                    refl
              | inr other ↦ simp other (v.tracked n o (simp other at found))
            ];
      }
