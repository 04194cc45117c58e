-- ===== src/Claims/Types/RoundTrip.antt =====
-- NewClaimFromEntry, and the entries of the claims.
use mathlib.Core.Path.{subst}
use go_iden3_core.Prelude.{
  ℕ, zero, suc, replicate, ◌+◌, ◌<◌, ◌≤◌, ◌⊎◌, ◌^◌, ◌≡◌, ◌≢◌, inl, inr, refl, sym, ap, ◌∙◌, Bool,
  true, List, [], ◌∷◌, arith, length, take, All, length-take, bytes_eq,
}
use go_iden3_core.Result.{ok, ok-injective}
use go_iden3_core.Common.{Bytes, uint32_to_bytes, bytes_to_uint32}
use go_iden3_core.Common.Slices.{nth, copy_at, read-copy_at_self}
use go_iden3_core.Common.Words.{bytes_to_uint32-uint32_to_bytes, bytes_to_uint32-take}
use go_iden3_core.MerkleTree.Elem.{Entry, hash_zero}
use go_iden3_core.Claims.{
  Metadata, metadata_marshal, metadata_unmarshal, marshal_subject, unmarshal_subject,
  header_marshal, header_unmarshal, flags_byte, write,
}
use go_iden3_core.Claims.Leaves.{zero_entry}
use go_iden3_core.Claims.Header.{
  nth-write_self, nth-write_ne, length-write, HasShape, write-HasShape,
  header_unmarshal-header_marshal,
}
use go_iden3_core.Claims.Types.{
  header_of, new_metadata, claim_type_basic, write_slots, read_slots, index_slots, value_slots,
  ClaimBasic, claim_basic_entry, new_claim_basic_from_entry, basic, claim_of_type, all_in_field,
  new_claim_from_entry,
}
use go_iden3_core.Claims.Types.Slots.{
  AreSlots, room, write_slots-HasShape, read_slots-write_slots, read_slots-write,
  read_slots-write_slots_ne,
}

-- The metadata of a claim about its issuer, with a nonce.
abbrev pub own_metadata : Bytes → ℕ → Metadata
own_metadata t nonce = record (new_metadata (header_of t 0)) { rev_nonce = nonce }

module _ (t : Bytes) (nonce : ℕ) (e : Entry) (typed : length t ≡ 8) (shape : HasShape e) where
  headed : Entry
  headed = header_marshal (header_of t 0) e

  marked : Entry
  unfolding headed
  marked = write 4 0 (uint32_to_bytes nonce) headed

  metadata_marshal-own : metadata_marshal (own_metadata t nonce) e ≡ ok marked
  unfolding metadata_marshal marshal_subject marked headed new_metadata
  metadata_marshal-own = refl

  headed-HasShape : HasShape headed
  unfolding headed header_marshal
  headed-HasShape =
      write-HasShape 0 8 _ _ (omega arith) (write-HasShape 0 0 (take 8 t) e (omega arith) shape)

  header_unmarshal-marked : header_unmarshal marked ≡ ok (header_of t 0)
  unfolding marked headed header_unmarshal nth
  header_unmarshal-marked =
      ap (λ x. header_unmarshal (record { elems = x ∷ [] }))
        (nth-write_ne 4 0 (uint32_to_bytes nonce) headed 0 (omega arith))
      ∙ header_unmarshal-header_marshal (header_of t 0) e typed shape (omega arith) (omega arith)

  nonce_read : nonce < 2 ^ 32 → bytes_to_uint32 (nth marked.elems 4) ≡ ok nonce
  unfolding marked uint32_to_bytes
  nonce_read small =
      let bs = uint32_to_bytes nonce in
      ap bytes_to_uint32 (nth-write_self 4 0 bs headed (omega (arith, headed-HasShape.size)))
      ∙ sym (bytes_to_uint32-take (copy_at 0 (nth headed.elems 4) bs))
      ∙ ap bytes_to_uint32 (
          read-copy_at_self 0 4 (nth headed.elems 4) bs
            (omega (arith, headed-HasShape.elem_size 4 (omega arith))) refl)
      ∙ bytes_to_uint32-uint32_to_bytes nonce small

  metadata_unmarshal-marked : nonce < 2 ^ 32 → metadata_unmarshal marked ≡ ok (own_metadata t nonce)
  unfolding metadata_unmarshal unmarshal_subject new_metadata
  metadata_unmarshal-marked small = rw (header_unmarshal-marked, nonce_read small) refl

  -- Slots that the metadata does not stand in.
  read_slots-marked :
      (ss : List (ℕ × ℕ))
      → All (λ p. (0 ≢ p.0) ⊎ (8 ≤ p.1)) ss
      → All (λ p. (0 ≢ p.0) ⊎ (9 ≤ p.1)) ss
      → All (λ p. (4 ≢ p.0) ⊎ (4 ≤ p.1)) ss
      → read_slots ss marked ≡ read_slots ss e
  unfolding marked headed header_marshal uint32_to_bytes
  read_slots-marked ss a b c =
      let typed_e = write 0 0 (take 8 t) e in
      let eight : length (take 8 t) ≡ 8 = omega (arith, length-take 8 t, typed) in
      read_slots-write ss 4 0 (uint32_to_bytes nonce) headed (omega (arith, headed-HasShape.size)) c
      ∙ read_slots-write ss 0 8 (flags_byte (header_of t 0) ∷ []) typed_e
          (omega (arith, length-write 0 0 (take 8 t) e, shape.size)) b
      ∙ read_slots-write ss 0 0 (take 8 t) e (omega (arith, shape.size))
          (subst (λ n. All (λ p. (0 ≢ p.0) ⊎ (0 + n ≤ p.1)) ss) (sym eight) a)

nth-replicate : (n i : ℕ) (x : Bytes) → i < n → nth (replicate n x) i ≡ x
unfolding nth
nth-replicate zero i x h = elim h [ ]
nth-replicate (suc n) zero x h = refl
nth-replicate (suc n) (suc i) x h = nth-replicate n i x (omega (arith, h))

zero_entry-HasShape : HasShape zero_entry
zero_entry-HasShape = record {
  size = refl;
  elem_size = λ i small. ap (λ (x : Bytes). length x) (nth-replicate 8 i hash_zero small);
}

-- A basic claim with a nonce.
abbrev pub basic_claim : (nonce : ℕ) → (index_slot value_slot : Bytes) → ClaimBasic
basic_claim nonce index_slot value_slot = record {
  metadata = own_metadata claim_type_basic nonce;
  index_slot = index_slot;
  value_slot = value_slot;
}

abbrev basic_body : (index_slot value_slot : Bytes) → Entry
basic_body index_slot value_slot =
    write_slots value_slots value_slot (write_slots index_slots index_slot zero_entry)

index_slots-AreSlots : AreSlots index_slots
unfolding AreSlots
index_slots-AreSlots = omega arith

value_slots-AreSlots : AreSlots value_slots
unfolding AreSlots
value_slots-AreSlots = omega arith

module _ (check_in_field : ℕ → Bool) where
  -- NewClaimFromEntry of the entry of a basic claim, if all its elements are in the field, gives
  -- back the claim: its metadata with a revocation nonce of 32 bits, and its two slots, of 112 and
  -- 120 bytes.
  pub new_claim_from_entry-claim_basic_entry :
      (nonce : ℕ) (index_slot value_slot : Bytes) (e : Entry)
      → nonce < 2 ^ 32
      → length index_slot ≡ 112
      → length value_slot ≡ 120
      → claim_basic_entry (basic_claim nonce index_slot value_slot) ≡ ok e
      → all_in_field check_in_field e.elems ≡ true
      → new_claim_from_entry check_in_field e ≡ ok (basic (basic_claim nonce index_slot value_slot))
  unfolding new_claim_from_entry claim_of_type new_claim_basic_from_entry claim_basic_entry bytes_eq
      new_metadata room
  new_claim_from_entry-claim_basic_entry nonce index_slot value_slot e small full_index full_value
        made in_field =
      let body1 = write_slots index_slots index_slot zero_entry in
      let body = write_slots value_slots value_slot body1 in
      let shape1 =
        write_slots-HasShape index_slots index_slot zero_entry index_slots-AreSlots
          zero_entry-HasShape in
      let shape = write_slots-HasShape value_slots value_slot body1 value_slots-AreSlots shape1 in
      let t = claim_type_basic in
      let same : e ≡ marked t nonce body refl shape =
        ok-injective (sym made ∙ metadata_marshal-own t nonce body refl shape) in
      let index : read_slots index_slots (marked t nonce body refl shape) ≡ index_slot =
        read_slots-marked t nonce body refl shape index_slots
          (inr (omega arith), (inl (omega arith), (inl (omega arith), (inl (omega arith), tt))))
          (inr (omega arith), (inl (omega arith), (inl (omega arith), (inl (omega arith), tt))))
          (inl (omega arith), (inl (omega arith), (inl (omega arith), (inl (omega arith), tt))))
        ∙ read_slots-write_slots_ne index_slots value_slots value_slot body1 (omega arith)
        ∙ read_slots-write_slots index_slots index_slot zero_entry index_slots-AreSlots
            zero_entry-HasShape full_index in
      let value : read_slots value_slots (marked t nonce body refl shape) ≡ value_slot =
        read_slots-marked t nonce body refl shape value_slots
          (inl (omega arith), (inl (omega arith), (inl (omega arith), (inl (omega arith), tt))))
          (inl (omega arith), (inl (omega arith), (inl (omega arith), (inl (omega arith), tt))))
          (inr (omega arith), (inl (omega arith), (inl (omega arith), (inl (omega arith), tt))))
        ∙ read_slots-write_slots value_slots value_slot body1 value_slots-AreSlots shape1
            full_value in
      let read : metadata_unmarshal e ≡ ok (own_metadata t nonce) =
        ap metadata_unmarshal same ∙ metadata_unmarshal-marked t nonce body refl shape small in
      let type_read : bytes_eq t claim_type_basic ≡ true = refl in
      rw
        (
          in_field,
          read,
          ap (read_slots index_slots) same ∙ index,
          ap (read_slots value_slots) same ∙ value,
        )
        refl
