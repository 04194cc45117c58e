-- ===== src/Action.antt =====
-- A method of a Go object with a mutex: it changes the object's state and ends as a call ends. What
-- was changed before an error stays changed.
use mathlib.Core.Path.{subst}
use go_iden3_core.Prelude.{if◌then◌else◌, ◌⊎◌, ◌∙◌, sym, inl, inr, ◌≡◌, refl, ap, Bool, true, false}
use go_iden3_core.Result.{Error, Result, ok, err, panic, Result-cases}

abbrev pub Action {ℓ κ} : Type ℓ → Type κ → Type (ℓ ⊔ κ)
Action S A = S → S × Result A

-- What is done after a call.
unfoldable pub followed {ℓ κ μ} :
    {S : Type ℓ} {A : Type κ} {B : Type μ} → S × Result A → (A → Action S B) → S × Result B
followed (s, ok a) rest = rest a s
followed (s, err reason) rest = (s, err reason)
followed (s, panic) rest = (s, panic)

infixl 5 ◌>>=◌
abbrev pub ◌>>=◌ {ℓ κ μ} :
    {S : Type ℓ} {A : Type κ} {B : Type μ} → Action S A → (A → Action S B) → Action S B
(call >>= rest) s = followed (call s) rest

abbrev pub return {ℓ κ} : {S : Type ℓ} {A : Type κ} → A → Action S A
return a s = (s, ok a)

abbrev pub fail {ℓ κ} : {S : Type ℓ} {A : Type κ} → Error → Action S A
fail reason s = (s, err reason)

abbrev pub current {ℓ} : {S : Type ℓ} → Action S S
current s = (s, ok s)

abbrev pub become {ℓ} : {S : Type ℓ} → S → Action S (Unit {0})
become s' s = (s', ok tt)

-- A call that changes nothing.
abbrev pub lift {ℓ κ} : {S : Type ℓ} {A : Type κ} → Result A → Action S A
lift r s = (s, r)

put_back {ℓ κ μ} :
    {S : Type ℓ} {T : Type κ} {A : Type μ} → (T → S → S) → S → T × Result A → S × Result A
put_back set s (t, r) = (set t s, r)

-- A method of a part of the object.
unfoldable pub within {ℓ κ μ} :
    {S : Type ℓ} {T : Type κ} {A : Type μ} → (S → T) → (T → S → S) → Action T A → Action S A
unfolding put_back
within get set call s = put_back set s (call (get s))

-- To take a call that has a value apart.
module _ {ℓ κ μ} {S : Type ℓ} {A : Type κ} {B : Type μ} where
  pub >>=-eq-ok :
      (call : Action S A) (rest : A → Action S B) (s s' : S) {b : B}
      → (call >>= rest) s ≡ (s', ok b)
      → (s1 : S) × (a : A) × (call s ≡ (s1, ok a)) × (rest a s1 ≡ (s', ok b))
  unfolding followed
  >>=-eq-ok call rest s s' {b} h = elim (Result-cases (call s).1) [
    | inl (a, e) ↦ (
      (call s).0,
      a,
      ap (λ r. ((call s).0, r)) e,
      sym (ap (λ r. followed ((call s).0, r) rest) e) ∙ h,
    )
    | inr (inl (x, e)) ↦ cc (sym (ap (λ r. followed ((call s).0, r) rest) e) ∙ h)
    | inr (inr e) ↦ cc (sym (ap (λ r. followed ((call s).0, r) rest) e) ∙ h)
  ]

  pub lift-eq-ok :
      (r : Result A) (rest : A → Action S B) (s s' : S) {b : B}
      → (lift r >>= rest) s ≡ (s', ok b)
      → (a : A) × (r ≡ ok a) × (rest a s ≡ (s', ok b))
  unfolding followed
  lift-eq-ok (ok a) rest s s' h = (a, refl, h)
  lift-eq-ok (err x) rest s s' h = cc
  lift-eq-ok panic rest s s' h = cc

module _ {ℓ κ μ} {S : Type ℓ} {A : Type κ} {B : Type μ} where
  -- A call that leaves the state as it is when it has a value.
  pub keeps-eq-ok :
      (call : Action S A) (rest : A → Action S B) (s s' : S) {b : B}
      → ((s1 : S) (a : A) → call s ≡ (s1, ok a) → s1 ≡ s)
      → (call >>= rest) s ≡ (s', ok b)
      → (a : A) × (rest a s ≡ (s', ok b))
  keeps-eq-ok call rest s s' {b} keeps h =
      let (s1, a, e, h1) = >>=-eq-ok call rest s s' h in
      (a, subst (λ (x : S). rest a x ≡ (s', ok b)) (keeps s1 a e) h1)

module _ {ℓ μ} {S : Type ℓ} {B : Type μ} where
  pub become-eq-ok :
      (t : S) (rest : Unit {0} → Action S B) (s s' : S) {b : B}
      → (become t >>= rest) s ≡ (s', ok b)
      → rest tt t ≡ (s', ok b)
  unfolding followed
  become-eq-ok t rest s s' h = h

  pub current-eq-ok :
      (rest : S → Action S B) (s s' : S) {b : B}
      → (current >>= rest) s ≡ (s', ok b)
      → rest s s ≡ (s', ok b)
  unfolding followed
  current-eq-ok rest s s' h = h

module _ {ℓ κ μ} {S : Type ℓ} {T : Type κ} {A : Type μ} where
  pub within-eq-ok :
      (get : S → T) (set : T → S → S) (call : Action T A) (s s' : S) {a : A}
      → within get set call s ≡ (s', ok a)
      → (t' : T) × (call (get s) ≡ (t', ok a)) × (set t' s ≡ s')
  unfolding within put_back
  within-eq-ok get set call s s' h = (
    (call (get s)).0,
    ap (λ (r : Result A). ((call (get s)).0, r)) (ap (λ (x : S × Result A). x.1) h),
    ap (λ (x : S × Result A). x.0) h,
  )

module _ {ℓ κ} {S : Type ℓ} {A : Type κ} where
  pub return-eq-ok : (a : A) (s s' : S) {b : A} → return a s ≡ (s', ok b) → s' ≡ s
  return-eq-ok a s s' h = sym (ap (λ (x : S × Result A). x.0) h)

  pub guard-eq-ok :
      (b : Bool) (reason : Error) (rest : Action S A) (s s' : S) {a : A}
      → (if b then fail reason else rest) s ≡ (s', ok a)
      → (b ≡ false) × (rest s ≡ (s', ok a))
  guard-eq-ok true reason rest s s' h = cc
  guard-eq-ok false reason rest s s' h = (refl, h)

  pub branch-eq :
      (b : Bool) (x y : Action S A) (s : S) {r : S × Result A}
      → (if b then x else y) s ≡ r
      → ((b ≡ true) × (x s ≡ r)) ⊎ ((b ≡ false) × (y s ≡ r))
  branch-eq true x y s h = inl (refl, h)
  branch-eq false x y s h = inr (refl, h)
