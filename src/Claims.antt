-- ===== src/Claims.antt =====
-- core/claims/claim.go: the header and the metadata of a claim, written into an entry and read from
-- one. An entry that is written through a pointer is the argument and the result. A ClaimSubject and
-- a ClaimSubjectPos are bytes; an `int64` expiration is its 64-bit pattern.
pub mod Header
pub mod Leaves
pub mod Types
pub mod Text
use go_iden3_core.Prelude.{
  ℕ, zero, suc, ◌+◌, ◌*◌, ◌/◌, ◌%◌, ◌^◌, bit_and, bit_or, Bool, true, false, not, Option, none,
  some, List, [], ◌∷◌, ◌++◌, ◌==◌, if◌then◌else◌, length, take, drop, get_elem?, replicate,
}
use go_iden3_core.Result.{Result, ok, panic, ◌>>=◌, or_panic}
use go_iden3_core.Common.{Bytes, uint32_to_bytes, bytes_to_uint32}
use go_iden3_core.Common.Slices.{copy_at, update_at, nth}
use go_iden3_core.MerkleTree.Elem.{Entry}

abbrev pub claim_type_len : ℕ
claim_type_len = 8

abbrev pub claim_flags_len : ℕ
claim_flags_len = 4

abbrev pub claim_header_len : ℕ
claim_header_len = 12

abbrev pub claim_rev_nonce_len : ℕ
claim_rev_nonce_len = 4

abbrev pub subject_self : ℕ
subject_self = 0

abbrev pub subject_object : ℕ
subject_object = 1

abbrev pub subject_other_iden : ℕ
subject_other_iden = 2

abbrev pub subject_pos_index : ℕ
subject_pos_index = 0

abbrev pub subject_pos_value : ℕ
subject_pos_value = 1

pub record ClaimHeader : Type 0 where
  pub claim_type : Bytes
  pub subject : ℕ
  pub subject_pos : ℕ
  pub expiration : Bool
  pub version : Bool

unfoldable pub bool2byte : Bool → ℕ
bool2byte true = 1
bool2byte false = 0

unfoldable pub byte2bool : ℕ → Bool
byte2bool b = not (b == 0)

-- The flags, each or-ed into a byte; a shift drops what leaves the byte.
unfoldable pub flags_byte : ClaimHeader → ℕ
unfolding bool2byte
flags_byte c =
    bit_or (bit_or (bit_or c.subject (c.subject_pos * 4 % 256)) (bool2byte c.expiration * 8))
      (bool2byte c.version * 16)

-- `copy(data[i][s:], src)`
unfoldable pub write : ℕ → ℕ → Bytes → Entry → Entry
write i s src e = record e { elems = update_at i (λ x. copy_at s x src) e.elems }

-- ClaimHeader.Marshal
unfoldable pub header_marshal : ClaimHeader → Entry → Entry
header_marshal c e =
    write 0 claim_type_len (flags_byte c ∷ []) (write 0 0 (take claim_type_len c.claim_type) e)

-- ClaimHeader.Unmarshal
unfoldable pub header_unmarshal : Entry → Result ClaimHeader
header_unmarshal e = do
  let index0 = nth e.elems 0
  flags ← or_panic (get_elem? (drop claim_type_len index0) 0)
  ok (record {
    claim_type = take claim_type_len index0;
    subject = bit_and flags 0b00000011;
    subject_pos = bit_and flags (2 ^ 2);
    expiration = byte2bool (bit_and flags (2 ^ 3));
    version = byte2bool (bit_and flags (2 ^ 4));
  })

pub record Metadata : Type 0 where
  pub header : ClaimHeader
  pub subject : Option Bytes
  pub expiration : ℕ
  pub version : ℕ
  pub rev_nonce : ℕ

-- `binary.LittleEndian.PutUint64`, from two halves.
unfoldable pub uint64_to_bytes : ℕ → Bytes
uint64_to_bytes u = uint32_to_bytes u ++ uint32_to_bytes (u / 4294967296)

unfoldable pub bytes_to_uint64 : Bytes → Result ℕ
bytes_to_uint64 b = do
  low ← bytes_to_uint32 b
  high ← bytes_to_uint32 (drop 4 b)
  ok (low + 4294967296 * high)

-- The subject goes to the second element of the index or of the value; a missing subject is a nil
-- pointer.
unfoldable pub marshal_subject : Metadata → Entry → Result Entry
marshal_subject m e =
    if m.header.subject == subject_self
    then ok e
    else if m.header.subject_pos == subject_pos_index
    then (do id ← or_panic m.subject; ok (write 1 0 id e))
    else if m.header.subject_pos == subject_pos_value
    then (do id ← or_panic m.subject; ok (write 5 0 id e))
    else panic

-- Metadata.Marshal
unfoldable pub metadata_marshal : Metadata → Entry → Result Entry
metadata_marshal m e = do
  e1 ← marshal_subject m (header_marshal m.header e)
  let e2 = if m.header.version then write 0 12 (uint32_to_bytes m.version) e1 else e1
  let e3 =
      if m.header.expiration
      then write 4 claim_rev_nonce_len (uint64_to_bytes m.expiration) e2
      else e2
  ok (write 4 0 (uint32_to_bytes m.rev_nonce) e3)

-- The 31 bytes of an ID copied from an element.
unfoldable pub unmarshal_subject : ClaimHeader → Entry → Result (Option Bytes)
unmarshal_subject h e =
    if h.subject == subject_self
    then ok none
    else if h.subject_pos == subject_pos_index
    then ok (some (take 31 (nth e.elems 1)))
    else if h.subject_pos == subject_pos_value
    then ok (some (take 31 (nth e.elems 5)))
    else panic

-- Metadata.Unmarshal into a zero Metadata.
unfoldable pub metadata_unmarshal : Entry → Result Metadata
metadata_unmarshal e = do
  h ← header_unmarshal e
  id ← unmarshal_subject h e
  version ← if h.version then bytes_to_uint32 (drop 12 (nth e.elems 0)) else ok 0
  expiration ←
      if h.expiration then bytes_to_uint64 (drop claim_rev_nonce_len (nth e.elems 4)) else ok 0
  rev_nonce ← bytes_to_uint32 (nth e.elems 4)
  ok (record {
    header = h;
    subject = id;
    expiration = expiration;
    version = version;
    rev_nonce = rev_nonce;
  })

-- GetRevocationNonce
unfoldable pub get_revocation_nonce : Entry → Result ℕ
get_revocation_nonce e = bytes_to_uint32 (take 4 (nth e.elems 4))
