-- ===== src/Claims/Types/Slots.antt =====
-- The slots of the claims: what is written into them is read back, and what is written elsewhere keeps
-- them.
use go_iden3_core.Prelude.{
  ℕ, ◌+◌, ◌-◌, ◌≤◌, ◌<◌, ◌≡◌, ◌≢◌, ◌⊎◌, inl, inr, refl, sym, ap, ◌∙◌, List, [], ◌∷◌, ◌++◌, arith,
  length, take, drop, All, length-take, length-drop, take-append-drop, ℕ_discrete,
}
use go_iden3_core.Common.{Bytes}
use go_iden3_core.Common.Slices.{copy_at, nth, read-copy_at_self, drop-copy_at_behind}
use go_iden3_core.MerkleTree.Elem.{Entry}
use go_iden3_core.Claims.{write}
use go_iden3_core.Claims.Header.{nth-write_self, nth-write_ne, HasShape, write-HasShape}
use go_iden3_core.Claims.Types.{write_slots, read_slots}

-- The bytes that the slots have room for.
unfoldable pub room : List (ℕ × ℕ) → ℕ
room [] = 0
room ((i, start) ∷ rest) = 31 - start + room rest

-- The slots stand in elements of the entry, each in one of its own.
unfoldable pub AreSlots : List (ℕ × ℕ) → Type 0
AreSlots [] = Unit {0}
AreSlots ((i, start) ∷ rest) = (i < 8) × (start ≤ 31) × All (λ p. p.0 ≢ i) rest × AreSlots rest

pub write_slots-HasShape :
    (ss : List (ℕ × ℕ)) (slot : Bytes) (e : Entry)
    → AreSlots ss
    → HasShape e
    → HasShape (write_slots ss slot e)
unfolding write_slots AreSlots
write_slots-HasShape [] slot e are h = h
write_slots-HasShape ((i, start) ∷ rest) slot e (small, _, _, are) h =
    write_slots-HasShape rest _ _ are (write-HasShape i start (take (31 - start) slot) e small h)

nth-write_slots_ne :
    (ss : List (ℕ × ℕ)) (slot : Bytes) (e : Entry) (i : ℕ)
    → All (λ p. p.0 ≢ i) ss
    → nth (write_slots ss slot e).elems i ≡ nth e.elems i
unfolding write_slots
nth-write_slots_ne [] slot e i others = refl
nth-write_slots_ne ((j, start) ∷ rest) slot e i (ne, others) =
    nth-write_slots_ne rest (drop (31 - start) slot) (write j start (take (31 - start) slot) e) i
      others
    ∙ nth-write_ne j start (take (31 - start) slot) e i ne

pub read_slots-write_slots :
    (ss : List (ℕ × ℕ)) (slot : Bytes) (e : Entry)
    → AreSlots ss
    → HasShape e
    → length slot ≡ room ss
    → read_slots ss (write_slots ss slot e) ≡ slot
unfolding read_slots write_slots AreSlots room
read_slots-write_slots [] [] e are h full = refl
read_slots-write_slots [] (b ∷ slot) e are h full = absurd (omega (arith, full))
read_slots-write_slots ((i, start) ∷ rest) slot e (small, low, others, are) h full =
    let n = 31 - start in
    let e1 = write i start (take n slot) e in
    let len : length (take n slot) ≡ n = omega (arith, length-take n slot, full) in
    let kept = nth-write_slots_ne rest (drop n slot) e1 i others in
    let at : nth e1.elems i ≡ copy_at start (nth e.elems i) (take n slot) =
      nth-write_self i start (take n slot) e (omega (arith, h.size, small)) in
    let fits = h.elem_size i small in
    let here : take n (drop start (nth (write_slots rest (drop n slot) e1).elems i)) ≡ take n slot =
      ap (λ x. take n (drop start x)) (kept ∙ at)
      ∙ read-copy_at_self start n (nth e.elems i) (take n slot) (omega (arith, len, fits, low))
          len in
    let there =
      read_slots-write_slots rest (drop n slot) e1 are
        (write-HasShape i start (take n slot) e small h)
        (omega (arith, length-drop n slot, full)) in
    ap (λ x. x ++ read_slots rest (write_slots rest (drop n slot) e1)) here
    ∙ ap (λ x. take n slot ++ x) there
    ∙ take-append-drop n slot

-- A write that stands in other elements, or before the slots of its element.
pub read_slots-write :
    (ss : List (ℕ × ℕ)) (i s : ℕ) (src : Bytes) (e : Entry)
    → i < length e.elems
    → All (λ p. (i ≢ p.0) ⊎ (s + length src ≤ p.1)) ss
    → read_slots ss (write i s src e) ≡ read_slots ss e
unfolding read_slots
read_slots-write [] i s src e inside apart = refl
read_slots-write ((j, start) ∷ rest) i s src e inside (first, others) =
    let same : drop start (nth (write i s src e).elems j) ≡ drop start (nth e.elems j) =
      elim (ℕ_discrete i j) [
        | yes here ↦ elim first [
          | inl other ↦ absurd (other here)
          | inr before ↦
              ap (λ x. drop start (nth (write i s src e).elems x)) (sym here)
              ∙ ap (drop start) (nth-write_self i s src e inside)
              ∙ drop-copy_at_behind s start (nth e.elems i) src before
              ∙ ap (λ x. drop start (nth e.elems x)) here
        ]
        | no other ↦ ap (drop start) (nth-write_ne i s src e j other)
      ] in
    ap (λ x. take (31 - start) x ++ read_slots rest (write i s src e)) same
    ∙ ap (λ x. take (31 - start) (drop start (nth e.elems j)) ++ x)
        (read_slots-write rest i s src e inside others)

-- Two sets of slots without a common element.
pub read_slots-write_slots_ne :
    (ss ts : List (ℕ × ℕ)) (slot : Bytes) (e : Entry)
    → All (λ p. All (λ q. q.0 ≢ p.0) ts) ss
    → read_slots ss (write_slots ts slot e) ≡ read_slots ss e
unfolding read_slots
read_slots-write_slots_ne [] ts slot e apart = refl
read_slots-write_slots_ne ((i, start) ∷ rest) ts slot e (first, others) =
    ap (λ x. take (31 - start) (drop start x) ++ read_slots rest (write_slots ts slot e))
      (nth-write_slots_ne ts slot e i first)
    ∙ ap (λ x. take (31 - start) (drop start (nth e.elems i)) ++ x)
        (read_slots-write_slots_ne rest ts slot e others)
