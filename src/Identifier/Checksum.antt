-- ===== src/Identifier/Checksum.antt =====
-- IDFromBytes accepts exactly the identifiers that NewID makes, but for a zero checksum.
use mathlib.Core.List.{append_assoc}
use go_iden3_core.Prelude.{
  ◌≡◌, ◌≢◌, refl, sym, ap, ◌∙◌, inl, inr, true, [], ◌∷◌, ◌++◌, arith, ◌==◌, ==_iff, length, take,
  drop, replicate, bytes_eq, bytes_eq→eq, bytes_eq_ne, bytes_eq_refl, Bool-cases, length-append,
  take-append_of_length, drop-append_of_length, take-append-drop,
}
use go_iden3_core.Result.{ok, ok-injective}
use go_iden3_core.Common.{Bytes}
use go_iden3_core.Identifier.{
  calculate_checksum, new_id, decompose_id, check_checksum, id_from_bytes,
}

module _ (typ genesis : Bytes) (typed : length typ ≡ 2) (sized : length genesis ≡ 27) where
  length-new_id : length (new_id typ genesis) ≡ 31
  unfolding new_id calculate_checksum
  length-new_id = omega (
    arith,
    length-append typ (genesis ++ calculate_checksum typ genesis),
    length-append genesis (calculate_checksum typ genesis),
    typed,
    sized,
  )

  -- DecomposeID takes apart what NewID put together.
  pub decompose_id-new_id :
      decompose_id (new_id typ genesis) ≡ (typ, genesis, calculate_checksum typ genesis)
  unfolding decompose_id new_id
  decompose_id-new_id =
      let c = calculate_checksum typ genesis in
      let rest : drop 2 (typ ++ (genesis ++ c)) ≡ genesis ++ c =
        drop-append_of_length 2 typ (genesis ++ c) typed in
      let middle : take 27 (drop 2 (typ ++ (genesis ++ c))) ≡ genesis =
        ap (λ x. take 27 x) rest ∙ take-append_of_length 27 genesis c sized in
      let last : drop 29 (typ ++ (genesis ++ c)) ≡ c =
        ap (λ x. drop 29 x) (sym (append_assoc typ genesis c))
        ∙ drop-append_of_length 29 (typ ++ genesis) c
            (omega (arith, length-append typ genesis, typed, sized)) in
      λ i. (take-append_of_length 2 typ (genesis ++ c) typed i, middle i, last i)

  new_id-ne-zero : calculate_checksum typ genesis ≢ 0 ∷ 0 ∷ [] → new_id typ genesis ≢ replicate 31 0
  unfolding decompose_id
  new_id-ne-zero ne zeros = ne (
      sym (ap (λ (x : Bytes × Bytes × Bytes). x.2) decompose_id-new_id)
      ∙ ap (λ (x : Bytes). drop 29 x) zeros)

  -- IDFromBytes accepts, and returns, the identifier that NewID makes of a type of 2 bytes and a
  -- genesis of 27, unless its checksum is zero.
  pub id_from_bytes-new_id :
      calculate_checksum typ genesis ≢ 0 ∷ 0 ∷ []
      → id_from_bytes (new_id typ genesis) ≡ ok (new_id typ genesis)
  unfolding id_from_bytes check_checksum
  id_from_bytes-new_id ne =
      rw
        (
          (==_iff (length (new_id typ genesis)) 31).1 length-new_id,
          bytes_eq_ne (new_id typ genesis) (replicate 31 0) (new_id-ne-zero ne),
          decompose_id-new_id,
          bytes_eq_ne (calculate_checksum typ genesis) (0 ∷ 0 ∷ []) ne,
          bytes_eq_refl (calculate_checksum typ genesis),
        )
        refl

check_checksum-ok :
    (b : Bytes)
    → check_checksum b ≡ true
    → calculate_checksum (take 2 b) (take 27 (drop 2 b)) ≡ drop 29 b
unfolding check_checksum decompose_id
check_checksum-ok b h = elim (Bool-cases (bytes_eq (drop 29 b) (0 ∷ 0 ∷ []))) [
  | inl zero_sum ↦ cc (rw zero_sum at h)
  | inr other ↦ bytes_eq→eq _ _ (rw other at h)
]

reassembled :
    (b : Bytes)
    → length b ≡ 31
    → calculate_checksum (take 2 b) (take 27 (drop 2 b)) ≡ drop 29 b
    → new_id (take 2 b) (take 27 (drop 2 b)) ≡ b
unfolding new_id
reassembled [] len h = absurd (omega arith)
reassembled (x ∷ []) len h = absurd (omega arith)
reassembled (x ∷ y ∷ b) len h =
    ap (λ c. x ∷ y ∷ (take 27 b ++ c)) h ∙ ap (λ r. x ∷ y ∷ r) (take-append-drop 27 b)

-- What IDFromBytes accepts is its argument, has 31 bytes, and is what NewID makes of its first 2
-- and next 27 bytes.
pub id_from_bytes-ok :
    (b id : Bytes)
    → id_from_bytes b ≡ ok id
    → (id ≡ b) × (new_id (take 2 b) (take 27 (drop 2 b)) ≡ b) × (length b ≡ 31)
unfolding id_from_bytes
id_from_bytes-ok b id h = elim (Bool-cases (length b == 31)) [
  | inr other ↦ cc (rw other at h)
  | inl sized ↦ elim (Bool-cases (bytes_eq b (replicate 31 0))) [
    | inl zeros ↦ cc (rw (sized, zeros) at h)
    | inr full ↦ elim (Bool-cases (check_checksum b)) [
      | inr bad ↦ cc (rw (sized, full, bad) at h)
      | inl good ↦
          let len : length b ≡ 31 = (==_iff (length b) 31).0 sized in
          (
            sym (ok-injective (rw (sized, full, good) at h)),
            reassembled b len (check_checksum-ok b good),
            len,
          )
    ]
  ]
]
