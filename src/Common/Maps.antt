-- ===== src/Common/Maps.antt =====
-- A Go map whose keys are byte arrays, as the list of its entries, the newest first.
use mathlib.Core.Path.{subst}
use go_iden3_core.Prelude.{
  ◌≡◌, refl, Bool-cases, inl, inr, Option, none, some, List, [], ◌∷◌, if◌then◌else◌, bytes_eq,
  bytes_eq_refl, bytes_eq→eq, some-injective,
}
use go_iden3_core.Common.{Bytes}

module _ {ℓ} {A : Type ℓ} where
  -- An index expression with `ok`.
  unfoldable pub at_key : List (Bytes × A) → Bytes → Option A
  at_key [] k = none
  at_key (e ∷ m) k = if bytes_eq e.0 k then some e.1 else at_key m k

  -- What holds of every entry of a map.
  abbrev pub Every {κ} : (Bytes → A → Type κ) → List (Bytes × A) → Type (ℓ ⊔ κ)
  Every P m = (k : Bytes) (a : A) → at_key m k ≡ some a → P k a

  pub at_key_self : (m : List (Bytes × A)) (k : Bytes) (a : A) → at_key ((k, a) ∷ m) k ≡ some a
  unfolding at_key
  at_key_self m k a = rw (bytes_eq_refl k) refl

  pub Every-put {κ} :
      (P : Bytes → A → Type κ) (m : List (Bytes × A)) (k : Bytes) (a : A)
      → P k a
      → Every P m
      → Every P ((k, a) ∷ m)
  unfolding at_key
  Every-put P m k a first others j b found = elim (Bool-cases (bytes_eq k j)) [
    | inl same ↦
        let key : k ≡ j = bytes_eq→eq k j same in
        let val : a ≡ b = some-injective (rw same at found) in
        subst (λ (x : A). P j x) val (subst (λ (x : Bytes). P x a) key first)
    | inr other ↦ others j b (rw other at found)
  ]

  pub Every-none {κ} : (P : Bytes → A → Type κ) → Every P []
  unfolding at_key
  Every-none P k a found = cc
