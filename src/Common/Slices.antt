-- ===== src/Common/Slices.antt =====
-- Slices of arrays: `copy(dst[s:], src)` and reads of `dst[a:a+n]`, with what a read gives after a
-- copy.
use go_iden3_core.Prelude.{
  ℕ, zero, suc, ◌+◌, ◌≤◌, ◌<◌, ◌≡◌, ◌≢◌, refl, ap, List, [], ◌∷◌, arith, length, take, drop,
}
use go_iden3_core.Common.{Bytes}

module _ {ℓ} {A : Type ℓ} where
  -- `copy(dst[s:], src)`: the new content of `dst`.
  unfoldable pub copy_at : ℕ → List A → List A → List A
  copy_at zero [] src = []
  copy_at zero (d ∷ dst) [] = d ∷ dst
  copy_at zero (d ∷ dst) (b ∷ src) = b ∷ copy_at zero dst src
  copy_at (suc s) [] src = []
  copy_at (suc s) (d ∷ dst) src = d ∷ copy_at s dst src

  pub length-copy_at : (s : ℕ) (dst src : List A) → length (copy_at s dst src) ≡ length dst
  unfolding copy_at
  length-copy_at zero [] src = refl
  length-copy_at zero (d ∷ dst) [] = refl
  length-copy_at zero (d ∷ dst) (b ∷ src) = ap suc (length-copy_at zero dst src)
  length-copy_at (suc s) [] src = refl
  length-copy_at (suc s) (d ∷ dst) src = ap suc (length-copy_at s dst src)

  -- The bytes that were copied are read back.
  pub read-copy_at_self :
      (s n : ℕ) (dst src : List A)
      → s + length src ≤ length dst
      → length src ≡ n
      → take n (drop s (copy_at s dst src)) ≡ src
  unfolding copy_at
  read-copy_at_self zero zero [] [] h e = refl
  read-copy_at_self zero (suc n) dst [] h e = absurd (omega arith)
  read-copy_at_self zero zero dst (b ∷ src) h e = absurd (omega arith)
  read-copy_at_self zero n [] (b ∷ src) h e = absurd (omega arith)
  read-copy_at_self zero zero (d ∷ dst) [] h e = refl
  read-copy_at_self zero (suc n) (d ∷ dst) (b ∷ src) h e =
      ap (◌∷◌ b) (read-copy_at_self zero n dst src (omega arith) (omega arith))
  read-copy_at_self (suc s) n [] src h e = absurd (omega arith)
  read-copy_at_self (suc s) n (d ∷ dst) src h e = read-copy_at_self s n dst src (omega arith) e

  -- What stands before the copy is kept.
  pub read-copy_at_before :
      (s a n : ℕ) (dst src : List A)
      → a + n ≤ s
      → take n (drop a (copy_at s dst src)) ≡ take n (drop a dst)
  unfolding copy_at
  read-copy_at_before zero zero zero dst src h = refl
  read-copy_at_before zero (suc a) n dst src h = absurd (omega arith)
  read-copy_at_before zero zero (suc n) dst src h = absurd (omega arith)
  read-copy_at_before (suc s) a n [] src h = refl
  read-copy_at_before (suc s) zero zero (d ∷ dst) src h = refl
  read-copy_at_before (suc s) zero (suc n) (d ∷ dst) src h =
      ap (◌∷◌ d) (read-copy_at_before s zero n dst src (omega arith))
  read-copy_at_before (suc s) (suc a) n (d ∷ dst) src h =
      read-copy_at_before s a n dst src (omega arith)

  -- What stands behind the copy is kept.
  pub drop-copy_at_behind :
      (s a : ℕ) (dst src : List A) → s + length src ≤ a → drop a (copy_at s dst src) ≡ drop a dst
  unfolding copy_at
  drop-copy_at_behind zero zero [] src h = refl
  drop-copy_at_behind zero zero (d ∷ dst) [] h = refl
  drop-copy_at_behind zero zero (d ∷ dst) (b ∷ src) h = absurd (omega arith)
  drop-copy_at_behind zero (suc a) [] src h = refl
  drop-copy_at_behind zero (suc a) (d ∷ dst) [] h = refl
  drop-copy_at_behind zero (suc a) (d ∷ dst) (b ∷ src) h =
      drop-copy_at_behind zero a dst src (omega arith)
  drop-copy_at_behind (suc s) zero dst src h = absurd (omega arith)
  drop-copy_at_behind (suc s) (suc a) [] src h = refl
  drop-copy_at_behind (suc s) (suc a) (d ∷ dst) src h =
      drop-copy_at_behind s a dst src (omega arith)

  -- `f` applied to the entry at `i`, in place.
  unfoldable pub update_at : ℕ → (A → A) → List A → List A
  update_at i f [] = []
  update_at zero f (x ∷ xs) = f x ∷ xs
  update_at (suc i) f (x ∷ xs) = x ∷ update_at i f xs

  pub length-update_at : (i : ℕ) (f : A → A) (xs : List A) → length (update_at i f xs) ≡ length xs
  unfolding update_at
  length-update_at i f [] = refl
  length-update_at zero f (x ∷ xs) = refl
  length-update_at (suc i) f (x ∷ xs) = ap suc (length-update_at i f xs)

-- `d[i]` of an array, at an index that the array has; the empty array stands in for no array.
unfoldable pub nth : List Bytes → ℕ → Bytes
nth [] i = []
nth (x ∷ xs) zero = x
nth (x ∷ xs) (suc i) = nth xs i

pub nth-update_at_self :
    (i : ℕ) (f : Bytes → Bytes) (d : List Bytes)
    → i < length d
    → nth (update_at i f d) i ≡ f (nth d i)
unfolding nth update_at
nth-update_at_self i f [] h = elim h [ ]
nth-update_at_self zero f (x ∷ xs) h = refl
nth-update_at_self (suc i) f (x ∷ xs) h = nth-update_at_self i f xs (omega arith)

pub nth-update_at_ne :
    (i j : ℕ) (f : Bytes → Bytes) (d : List Bytes) → i ≢ j → nth (update_at i f d) j ≡ nth d j
unfolding nth update_at
nth-update_at_ne zero j f [] h = refl
nth-update_at_ne (suc i) j f [] h = refl
nth-update_at_ne zero zero f (x ∷ xs) h = absurd (h refl)
nth-update_at_ne zero (suc j) f (x ∷ xs) h = refl
nth-update_at_ne (suc i) zero f (x ∷ xs) h = refl
nth-update_at_ne (suc i) (suc j) f (x ∷ xs) h = nth-update_at_ne i j f xs (λ e. h (ap suc e))
