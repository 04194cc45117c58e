-- ===== src/Claims/Text.antt =====
-- The text forms of core/claims/claim.go and claim_types.go, and the generic claims of utils.go there.
use go_iden3_core.Prelude.{
  ℕ, ◌*◌, false, none, List, [], ◌∷◌, ◌++◌, ◌==◌, if◌then◌else◌, replicate, bytes_eq, take, drop,
}
use go_iden3_core.Result.{Result, ok, err, ◌>>=◌, invalid_text}
use go_iden3_core.Common.{Bytes}
use go_iden3_core.Common.Hex.{encode_to_string, hex_decode, hex_decode_into}
use go_iden3_core.BigInt.{copy_into}
use go_iden3_core.MerkleTree.Elem.{
  Entry, elem_bytes_len, data_len, new_data_from_bytes, elems_bytes_to_bytes,
}
use go_iden3_core.Claims.{
  Metadata, metadata_marshal, metadata_unmarshal, subject_self, subject_other_iden, subject_object,
  subject_pos_index, subject_pos_value,
}
use go_iden3_core.Claims.Types.{claim_type_basic, claim_type_key_baby_jub, claim_type_other_iden}

-- "Self", "OtherIden", "Object", "Index", "Value", "Basic", "KeyBabyJub", "str:" and "hex:"
abbrev pub self_text : Bytes
self_text = 83 ∷ 101 ∷ 108 ∷ 102 ∷ []

abbrev pub other_iden_text : Bytes
other_iden_text = 79 ∷ 116 ∷ 104 ∷ 101 ∷ 114 ∷ 73 ∷ 100 ∷ 101 ∷ 110 ∷ []

abbrev pub object_text : Bytes
object_text = 79 ∷ 98 ∷ 106 ∷ 101 ∷ 99 ∷ 116 ∷ []

abbrev pub index_text : Bytes
index_text = 73 ∷ 110 ∷ 100 ∷ 101 ∷ 120 ∷ []

abbrev pub value_text : Bytes
value_text = 86 ∷ 97 ∷ 108 ∷ 117 ∷ 101 ∷ []

abbrev pub basic_text : Bytes
basic_text = 66 ∷ 97 ∷ 115 ∷ 105 ∷ 99 ∷ []

abbrev pub key_baby_jub_text : Bytes
key_baby_jub_text = 75 ∷ 101 ∷ 121 ∷ 66 ∷ 97 ∷ 98 ∷ 121 ∷ 74 ∷ 117 ∷ 98 ∷ []

abbrev pub str_text : Bytes
str_text = 115 ∷ 116 ∷ 114 ∷ 58 ∷ []

abbrev pub hex_text : Bytes
hex_text = 104 ∷ 101 ∷ 120 ∷ 58 ∷ []

-- ClaimSubject.MarshalText and UnmarshalText
unfoldable pub subject_marshal_text : ℕ → Result Bytes
subject_marshal_text cs =
    if cs == subject_self
    then ok self_text
    else if cs == subject_other_iden
    then ok other_iden_text
    else if cs == subject_object
    then ok object_text
    else err invalid_text

unfoldable pub subject_unmarshal_text : Bytes → Result ℕ
subject_unmarshal_text b =
    if bytes_eq b self_text
    then ok subject_self
    else if bytes_eq b other_iden_text
    then ok subject_other_iden
    else if bytes_eq b object_text
    then ok subject_object
    else err invalid_text

-- ClaimSubjectPos.MarshalText and UnmarshalText
unfoldable pub subject_pos_marshal_text : ℕ → Result Bytes
subject_pos_marshal_text csp =
    if csp == subject_pos_index
    then ok index_text
    else if csp == subject_pos_value
    then ok value_text
    else err invalid_text

unfoldable pub subject_pos_unmarshal_text : Bytes → Result ℕ
subject_pos_unmarshal_text b =
    if bytes_eq b index_text
    then ok subject_pos_index
    else if bytes_eq b value_text
    then ok subject_pos_value
    else err invalid_text

-- ClaimType.MarshalText
unfoldable pub type_marshal_text : Bytes → Bytes
type_marshal_text ct =
    if bytes_eq ct claim_type_basic
    then str_text ++ basic_text
    else if bytes_eq ct claim_type_key_baby_jub
    then str_text ++ key_baby_jub_text
    else if bytes_eq ct claim_type_other_iden
    then str_text ++ other_iden_text
    else hex_text ++ encode_to_string ct

-- The names after "str:".
unfoldable pub named_type : Bytes → Result Bytes
named_type str =
    if bytes_eq str basic_text
    then ok claim_type_basic
    else if bytes_eq str key_baby_jub_text
    then ok claim_type_key_baby_jub
    else if bytes_eq str other_iden_text
    then ok claim_type_other_iden
    else err invalid_text

-- ClaimType.UnmarshalText
unfoldable pub type_unmarshal_text : Bytes → Result Bytes
type_unmarshal_text b =
    if bytes_eq (take 4 b) str_text
    then named_type (drop 4 b)
    else if bytes_eq (take 4 b) hex_text
    then hex_decode_into 8 (drop 4 b)
    else err invalid_text

pub record ClaimGeneric : Type 0 where
  pub metadata : Metadata
  pub entry : Entry

-- NewClaimGeneric
unfoldable pub new_claim_generic : Entry → Result ClaimGeneric
new_claim_generic e = do m ← metadata_unmarshal e; ok (record { metadata = m; entry = e })

-- ClaimGeneric.Entry, which also writes into the entry of the claim.
unfoldable pub claim_generic_entry : ClaimGeneric → Result Entry
claim_generic_entry c = metadata_marshal c.metadata c.entry

abbrev zero_metadata : Metadata
zero_metadata = record {
  header = record {
    claim_type = replicate 8 0;
    subject = 0;
    subject_pos = 0;
    expiration = false;
    version = false;
  };
  subject = none;
  expiration = 0;
  version = 0;
  rev_nonce = 0;
}

-- HexToClaimGeneric; the metadata is left zero.
unfoldable pub hex_to_claim_generic : Bytes → Result ClaimGeneric
hex_to_claim_generic h = do
  bytes_value ← hex_decode h
  let data_bytes = copy_into (replicate (elem_bytes_len * data_len) 0) bytes_value
  ok (record {
    metadata = zero_metadata;
    entry = record { elems = new_data_from_bytes data_bytes };
  })

-- HexArrayToClaimGenericArray, without the claims before an error.
unfoldable pub hex_array_to_claim_generic_array : List Bytes → Result (List ClaimGeneric)
hex_array_to_claim_generic_array [] = ok []
hex_array_to_claim_generic_array (h ∷ hs) = do
  claim ← hex_to_claim_generic h
  claims ← hex_array_to_claim_generic_array hs
  ok (claim ∷ claims)

-- ClaimToHex of the entry of a claim; ClaimArrayToHexArray maps it.
unfoldable pub claim_to_hex : Entry → Bytes
claim_to_hex e = encode_to_string (elems_bytes_to_bytes e.elems)

unfoldable pub claim_array_to_hex_array : List Entry → List Bytes
claim_array_to_hex_array [] = []
claim_array_to_hex_array (e ∷ es) = claim_to_hex e ∷ claim_array_to_hex_array es
