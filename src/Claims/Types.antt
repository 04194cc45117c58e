-- ===== src/Claims/Types.antt =====
-- core/claims/claim_types.go, claimBasic.go, claimOtherIden.go and claimKeyBabyJub.go: the types of
-- claims, and their entries.
pub mod Slots
pub mod RoundTrip
use go_iden3_core.Prelude.{
  ℕ, ◌-◌, Bool, true, false, not, ◌&&◌, Option, none, some, List, [], ◌∷◌, ◌++◌, ◌==◌,
  if◌then◌else◌, reverse, take, drop, length, bytes_eq,
}
use go_iden3_core.Result.{
  Result, ok, err, panic, ◌>>=◌, not_in_field, invalid_claim_type, invalid_header,
}
use go_iden3_core.Common.{Bytes, swap_endianness}
use go_iden3_core.Common.Slices.{nth}
use go_iden3_core.BigInt.{big_bytes, set_bytes}
use go_iden3_core.MerkleTree.Elem.{Entry, ElemBytes, big_int}
use go_iden3_core.Claims.{
  ClaimHeader, Metadata, metadata_marshal, metadata_unmarshal, write, uint64_to_bytes,
  bytes_to_uint64, claim_header_len, claim_rev_nonce_len, subject_self, subject_other_iden,
  subject_pos_index,
}
use go_iden3_core.Claims.Leaves.{zero_entry}

-- NewClaimTypeNum
unfoldable pub new_claim_type_num : ℕ → Bytes
new_claim_type_num num = reverse (uint64_to_bytes num)

abbrev pub claim_type_basic : Bytes
claim_type_basic = 0 ∷ 0 ∷ 0 ∷ 0 ∷ 0 ∷ 0 ∷ 0 ∷ 0 ∷ []

abbrev pub claim_type_key_baby_jub : Bytes
claim_type_key_baby_jub = 0 ∷ 0 ∷ 0 ∷ 0 ∷ 0 ∷ 0 ∷ 0 ∷ 1 ∷ []

abbrev pub claim_type_other_iden : Bytes
claim_type_other_iden = 0 ∷ 0 ∷ 0 ∷ 0 ∷ 0 ∷ 0 ∷ 0 ∷ 2 ∷ []

-- `ClaimHeader{Type: t, Subject: s}`
abbrev pub header_of : Bytes → ℕ → ClaimHeader
header_of t s = record {
  claim_type = t;
  subject = s;
  subject_pos = subject_pos_index;
  expiration = false;
  version = false;
}

abbrev pub claim_header_basic : ClaimHeader
claim_header_basic = header_of claim_type_basic subject_self

abbrev pub claim_header_key_baby_jub : ClaimHeader
claim_header_key_baby_jub = header_of claim_type_key_baby_jub subject_self

abbrev pub claim_header_other_iden : ClaimHeader
claim_header_other_iden = header_of claim_type_other_iden subject_other_iden

-- NewMetadata
unfoldable pub new_metadata : ClaimHeader → Metadata
new_metadata header = record {
  header = header;
  subject = none;
  expiration = 0;
  version = 0;
  rev_nonce = 0;
}

same_bool : Bool → Bool → Bool
same_bool true b = b
same_bool false b = not b

-- `==` of two headers.
unfoldable pub same_header : ClaimHeader → ClaimHeader → Bool
unfolding same_bool
same_header a b =
    bytes_eq a.claim_type b.claim_type
    && a.subject == b.subject
    && a.subject_pos == b.subject_pos
    && same_bool a.expiration b.expiration
    && same_bool a.version b.version

-- checkHeader
unfoldable pub check_header : ClaimHeader → Result (Unit {0})
check_header h =
    if bytes_eq h.claim_type claim_type_basic
    then (if not (same_header h claim_header_basic) then err invalid_header else ok tt)
    else if bytes_eq h.claim_type claim_type_key_baby_jub
    then (if not (same_header h claim_header_key_baby_jub) then err invalid_header else ok tt)
    else if bytes_eq h.claim_type claim_type_other_iden
    then (if not (same_header h claim_header_other_iden) then err invalid_header else ok tt)
    else ok tt

-- A loop over the elements `i` with their `start`: the next `31 - start` bytes of the slot go to the
-- element, from `start` on. The second half of the data is the value.
unfoldable pub write_slots : List (ℕ × ℕ) → Bytes → Entry → Entry
write_slots [] slot e = e
write_slots ((i, start) ∷ rest) slot e =
    write_slots rest (drop (31 - start) slot) (write i start (take (31 - start) slot) e)

unfoldable pub read_slots : List (ℕ × ℕ) → Entry → Bytes
read_slots [] e = []
read_slots ((i, start) ∷ rest) e =
    take (31 - start) (drop start (nth e.elems i)) ++ read_slots rest e

abbrev pub index_slots : List (ℕ × ℕ)
index_slots = (0, claim_header_len) ∷ (1, 0) ∷ (2, 0) ∷ (3, 0) ∷ []

abbrev pub index_subject_slots : List (ℕ × ℕ)
index_subject_slots = (0, claim_header_len) ∷ (2, 0) ∷ (3, 0) ∷ []

abbrev pub value_slots : List (ℕ × ℕ)
value_slots = (4, claim_rev_nonce_len) ∷ (5, 0) ∷ (6, 0) ∷ (7, 0) ∷ []

pub record ClaimBasic : Type 0 where
  pub metadata : Metadata
  pub index_slot : Bytes
  pub value_slot : Bytes

-- NewClaimBasic
unfoldable pub new_claim_basic : (index_slot value_slot : Bytes) → ClaimBasic
new_claim_basic index_slot value_slot = record {
  metadata = new_metadata claim_header_basic;
  index_slot = index_slot;
  value_slot = value_slot;
}

-- NewClaimBasicFromEntry
unfoldable pub new_claim_basic_from_entry : Entry → Result ClaimBasic
new_claim_basic_from_entry e = do
  m ← metadata_unmarshal e
  ok (record {
    metadata = m;
    index_slot = read_slots index_slots e;
    value_slot = read_slots value_slots e;
  })

-- ClaimBasic.Entry
unfoldable pub claim_basic_entry : ClaimBasic → Result Entry
claim_basic_entry c =
    metadata_marshal c.metadata
      (write_slots value_slots c.value_slot (write_slots index_slots c.index_slot zero_entry))

pub record ClaimOtherIden : Type 0 where
  pub metadata : Metadata
  pub index_slot : Bytes
  pub value_slot : Bytes

-- NewClaimOtherIden
unfoldable pub new_claim_other_iden : Bytes → (index_slot value_slot : Bytes) → ClaimOtherIden
new_claim_other_iden subject index_slot value_slot = record {
  metadata = record (new_metadata claim_header_other_iden) { subject = some subject };
  index_slot = index_slot;
  value_slot = value_slot;
}

-- NewClaimOtherIdenFromEntry
unfoldable pub new_claim_other_iden_from_entry : Entry → Result ClaimOtherIden
new_claim_other_iden_from_entry e = do
  m ← metadata_unmarshal e
  ok (record {
    metadata = m;
    index_slot = read_slots index_subject_slots e;
    value_slot = read_slots value_slots e;
  })

-- ClaimOtherIden.Entry
unfoldable pub claim_other_iden_entry : ClaimOtherIden → Result Entry
claim_other_iden_entry c =
    metadata_marshal c.metadata (
      write_slots value_slots c.value_slot
        (write_slots index_subject_slots c.index_slot zero_entry))

-- The type of the key is a uint64; the coordinates of a public key are not negative.
pub record ClaimKeyBabyJub : Type 0 where
  pub metadata : Metadata
  pub key_type : ℕ
  pub ax : ℕ
  pub ay : ℕ

-- NewClaimKeyBabyJub, of the two coordinates.
unfoldable pub new_claim_key_baby_jub : (x y : ℕ) → (sub_type : ℕ) → ClaimKeyBabyJub
new_claim_key_baby_jub x y sub_type = record {
  metadata = new_metadata claim_header_key_baby_jub;
  key_type = sub_type;
  ax = x;
  ay = y;
}

-- NewClaimKeyBabyJubFromEntry
unfoldable pub new_claim_key_baby_jub_from_entry : Entry → Result ClaimKeyBabyJub
new_claim_key_baby_jub_from_entry e = do
  m ← metadata_unmarshal e
  key_type ← bytes_to_uint64 (reverse (take 8 (nth e.elems 1)))
  ok (record {
    metadata = m;
    key_type = key_type;
    ax = set_bytes (swap_endianness (nth e.elems 2));
    ay = set_bytes (swap_endianness (nth e.elems 3));
  })

-- ClaimKeyBabyJub.Entry
unfoldable pub claim_key_baby_jub_entry : ClaimKeyBabyJub → Result Entry
claim_key_baby_jub_entry c =
    let e1 = write 1 0 (new_claim_type_num c.key_type) zero_entry in
    let e2 = write 2 0 (swap_endianness (big_bytes c.ax)) e1 in
    metadata_marshal c.metadata (write 3 0 (swap_endianness (big_bytes c.ay)) e2)

-- What NewClaimFromEntry returns.
pub data Claim : Type 0 where
  basic : ClaimBasic → Claim
  key_baby_jub : ClaimKeyBabyJub → Claim
  other_iden : ClaimOtherIden → Claim

-- Entry of the interface.
unfoldable pub claim_entry : Claim → Result Entry
claim_entry (basic c) = claim_basic_entry c
claim_entry (key_baby_jub c) = claim_key_baby_jub_entry c
claim_entry (other_iden c) = claim_other_iden_entry c

-- NewClaimFromEntry after the test of the elements.
unfoldable pub claim_of_type : Bytes → Entry → Result Claim
claim_of_type claim_type e =
    if bytes_eq claim_type claim_type_basic
    then (do c ← new_claim_basic_from_entry e; ok (basic c))
    else if bytes_eq claim_type claim_type_key_baby_jub
    then (do c ← new_claim_key_baby_jub_from_entry e; ok (key_baby_jub c))
    else if bytes_eq claim_type claim_type_other_iden
    then (do c ← new_claim_other_iden_from_entry e; ok (other_iden c))
    else err invalid_claim_type

-- The elements are tested with `utils.CheckBigIntInField`, which is not in the repository.
module _ (check_in_field : ℕ → Bool) where
  unfoldable pub all_in_field : List ElemBytes → Bool
  all_in_field [] = true
  all_in_field (x ∷ xs) = check_in_field (big_int x) && all_in_field xs

  -- NewClaimFromEntry
  unfoldable pub new_claim_from_entry : Entry → Result Claim
  new_claim_from_entry e =
      if not (all_in_field e.elems)
      then err not_in_field
      else do m ← metadata_unmarshal e; claim_of_type m.header.claim_type e
