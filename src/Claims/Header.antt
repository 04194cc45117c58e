-- ===== src/Claims/Header.antt =====
-- The header of a claim, written into an entry and read back.
use go_iden3_core.Prelude.{
  ℕ, ◌*◌, ◌<◌, ◌≡◌, refl, ap, ◌∙◌, bit_and, Bool, true, false, ◌&&◌, some, [], ◌∷◌, arith, ◌==◌,
  length, take, length-take, take-all, drop, get_elem?, ℕ_discrete, ◌≢◌,
}
use go_iden3_core.Result.{ok}
use go_iden3_core.Common.{Bytes}
use go_iden3_core.Common.Bitmap.{every_below, every_below-at, same, same→eq}
use go_iden3_core.Common.Slices.{
  copy_at, nth, read-copy_at_self, read-copy_at_before, nth-update_at_self, nth-update_at_ne,
  length-update_at, length-copy_at,
}
use go_iden3_core.MerkleTree.Elem.{Entry}
use go_iden3_core.Claims.{
  ClaimHeader, flags_byte, byte2bool, write, header_marshal, header_unmarshal,
}

abbrev header : Bytes → ℕ → ℕ → Bool → Bool → ClaimHeader
header t s p x v = record {
  claim_type = t;
  subject = s;
  subject_pos = p;
  expiration = x;
  version = v;
}

abbrev flags_row : Bool → Bool → ℕ → ℕ → Bool
flags_row x v s p =
    bit_and (flags_byte (header [] s p x v)) 3 == s
    && bit_and (flags_byte (header [] s p x v)) 4 == p * 4
    && same (byte2bool (bit_and (flags_byte (header [] s p x v)) 8)) x
    && same (byte2bool (bit_and (flags_byte (header [] s p x v)) 16)) v

abbrev flags_rows : Bool → Bool → Bool
flags_rows x v = every_below 4 (λ s. every_below 2 (λ p. flags_row x v s p))

flags_table : (x v : Bool) → flags_rows x v ≡ true
unfolding every_below flags_byte byte2bool same
flags_table true true = refl
flags_table true false = refl
flags_table false true = refl
flags_table false false = refl

flags_row_lem : (s p : ℕ) (x v : Bool) → s < 4 → p < 2 → flags_row x v s p ≡ true
flags_row_lem s p x v hs hp =
    every_below-at 2 (flags_row x v s) p
      (every_below-at 4 (λ s. every_below 2 (flags_row x v s)) s (flags_table x v) hs) hp

pub get_elem?-take_one : (xs : Bytes) (y : ℕ) → take 1 xs ≡ y ∷ [] → get_elem? xs 0 ≡ some y
get_elem?-take_one [] y h = cc
get_elem?-take_one (x ∷ xs) y h = cc

-- Each flag is read back from the byte; the position of the subject as a multiple of 4.
flags_read :
    (c : ClaimHeader)
    → c.subject < 4
    → c.subject_pos < 2
    → (bit_and (flags_byte c) 3 ≡ c.subject)
      × (bit_and (flags_byte c) 4 ≡ c.subject_pos * 4)
      × (byte2bool (bit_and (flags_byte c) 8) ≡ c.expiration)
      × (byte2bool (bit_and (flags_byte c) 16) ≡ c.version)
unfolding flags_byte same
flags_read c hs hp =
    let row = flags_row_lem c.subject c.subject_pos c.expiration c.version hs hp in
    ground (
      arith,
      row,
      same→eq (byte2bool (bit_and (flags_byte c) 8)) c.expiration,
      same→eq (byte2bool (bit_and (flags_byte c) 16)) c.version,
    )

-- The element that a write hits, and the others.
module _ (i s : ℕ) (src : Bytes) (e : Entry) where
  pub nth-write_self :
      i < length e.elems → nth (write i s src e).elems i ≡ copy_at s (nth e.elems i) src
  unfolding write
  nth-write_self h = nth-update_at_self i (λ x. copy_at s x src) e.elems h

  pub nth-write_ne : (j : ℕ) → i ≢ j → nth (write i s src e).elems j ≡ nth e.elems j
  unfolding write
  nth-write_ne j h = nth-update_at_ne i j (λ x. copy_at s x src) e.elems h

  pub length-write : length (write i s src e).elems ≡ length e.elems
  unfolding write
  length-write = length-update_at i (λ x. copy_at s x src) e.elems

-- An entry of eight elements of 32 bytes.
pub record HasShape (e : Entry) : Type 0 where
  pub size : length e.elems ≡ 8
  pub elem_size : (i : ℕ) → i < 8 → length (nth e.elems i) ≡ 32

pub write-HasShape :
    (i s : ℕ) (src : Bytes) (e : Entry) → i < 8 → HasShape e → HasShape (write i s src e)
write-HasShape i s src e small h = record {
  size = length-write i s src e ∙ h.size;
  elem_size = λ j hj. elim (ℕ_discrete i j) [
    | yes same ↦ rw (← same) (
        ap (λ (x : Bytes). length x) (nth-write_self i s src e (omega (arith, h.size)))
        ∙ length-copy_at s (nth e.elems i) src
        ∙ h.elem_size i small)
    | no other ↦ ap (λ (x : Bytes). length x) (nth-write_ne i s src e j other) ∙ h.elem_size j hj
  ];
}

module _ (c : ClaimHeader) (e : Entry) (typed : length c.claim_type ≡ 8) (shape : HasShape e) where
  -- The first element after the header was written.
  pub nth-header_marshal :
      nth (header_marshal c e).elems 0
      ≡ copy_at 8 (copy_at 0 (nth e.elems 0) (take 8 c.claim_type)) (flags_byte c ∷ [])
  unfolding header_marshal
  nth-header_marshal =
      let e1 = write 0 0 (take 8 c.claim_type) e in
      let size : length e.elems ≡ 8 = shape.size in
      nth-write_self 0 8 (flags_byte c ∷ []) e1
        (omega (arith, length-write 0 0 (take 8 c.claim_type) e, size))
      ∙ ap (λ x. copy_at 8 x (flags_byte c ∷ []))
          (nth-write_self 0 0 (take 8 c.claim_type) e (omega (arith, size)))

  typed_bytes : Bytes
  typed_bytes = copy_at 0 (nth e.elems 0) (take 8 c.claim_type)

  length-typed_bytes : length typed_bytes ≡ 32
  unfolding typed_bytes
  length-typed_bytes =
      length-copy_at 0 (nth e.elems 0) (take 8 c.claim_type) ∙ shape.elem_size 0 (omega arith)

  type_read : take 8 (copy_at 8 typed_bytes (flags_byte c ∷ [])) ≡ c.claim_type
  unfolding typed_bytes
  type_read =
      read-copy_at_before 8 0 8 typed_bytes (flags_byte c ∷ []) (omega arith)
      ∙ read-copy_at_self 0 8 (nth e.elems 0) (take 8 c.claim_type)
          (omega (arith, length-take 8 c.claim_type, typed, shape.elem_size 0 (omega arith)))
          (omega (arith, length-take 8 c.claim_type, typed))
      ∙ take-all 8 c.claim_type (omega (arith, typed))

  flags_at : get_elem? (drop 8 (copy_at 8 typed_bytes (flags_byte c ∷ []))) 0 ≡ some (flags_byte c)
  flags_at = get_elem?-take_one _ (flags_byte c) (
      read-copy_at_self 8 1 typed_bytes (flags_byte c ∷ []) (omega (arith, length-typed_bytes))
        refl)

  -- A claim header with a subject below 4 and a subject position below 2, written into an entry of
  -- eight 32-byte elements, is read back as it was but for the subject position, which is read as
  -- 4 where it was 1.
  pub header_unmarshal-header_marshal :
      c.subject < 4
      → c.subject_pos < 2
      → header_unmarshal (header_marshal c e) ≡ ok (record c { subject_pos = c.subject_pos * 4 })
  unfolding header_unmarshal typed_bytes
  header_unmarshal-header_marshal hs hp =
      let (f0, f1, f2, f3) = flags_read c hs hp in
      rw (nth-header_marshal, flags_at, type_read, f0, f1, f2, f3) refl
