-- ===== src/Tests/Claiming.antt =====
-- A basic claim, its entry, and the claim that is read from the entry.
use go_iden3_core.Prelude.{bytes_eq, ℕ, ◌≡◌, refl, Bool, true, replicate, arith}
use go_iden3_core.Result.{Result, ok, err, panic}
use go_iden3_core.Common.{Bytes, uint32_to_bytes}
use go_iden3_core.Common.Slices.{copy_at, update_at}
use go_iden3_core.MerkleTree.Elem.{Entry}
use go_iden3_core.Claims.{
  metadata_marshal, marshal_subject, header_marshal, flags_byte, bool2byte, write,
}
use go_iden3_core.Common.Hex.{hex_decode_into, encode_to_string, decode_string}
use go_iden3_core.Claims.Leaves.{zero_entry}
use go_iden3_core.Claims.Text.{type_marshal_text, type_unmarshal_text, named_type}
use go_iden3_core.Claims.{uint64_to_bytes}
use go_iden3_core.Claims.Types.{new_claim_type_num, claim_type_other_iden}
use go_iden3_core.Claims.Types.{
  claim_basic_entry, basic, all_in_field, new_claim_from_entry, write_slots, new_metadata,
}
use go_iden3_core.Claims.Types.RoundTrip.{basic_claim, new_claim_from_entry-claim_basic_entry}

abbrev index5 : Bytes
index5 = replicate 112 5

abbrev value6 : Bytes
value6 = replicate 120 6

abbrev any : ℕ → Bool
any x = true

entry_or_zero : Result Entry → Entry
entry_or_zero (ok e) = e
entry_or_zero (err x) = zero_entry
entry_or_zero panic = zero_entry

claimed : Entry
unfolding entry_or_zero claim_basic_entry write_slots metadata_marshal marshal_subject
    header_marshal flags_byte bool2byte write copy_at update_at new_metadata uint32_to_bytes
claimed = entry_or_zero (claim_basic_entry (basic_claim 7 index5 value6))

claimed_eq : claim_basic_entry (basic_claim 7 index5 value6) ≡ ok claimed
unfolding claimed
claimed_eq = refl

claimed_in_field : all_in_field any claimed.elems ≡ true
unfolding claimed all_in_field
claimed_in_field = refl

new_claim_from_entry-claim_basic_entry_example :
    new_claim_from_entry any claimed ≡ ok (basic (basic_claim 7 index5 value6))
new_claim_from_entry-claim_basic_entry_example =
    new_claim_from_entry-claim_basic_entry any 7 index5 value6 claimed (omega arith) refl refl
      claimed_eq claimed_in_field

type_2 : new_claim_type_num 2 ≡ claim_type_other_iden
unfolding new_claim_type_num uint64_to_bytes uint32_to_bytes
type_2 = refl

type_5_text :
    type_unmarshal_text (type_marshal_text (new_claim_type_num 5)) ≡ ok (new_claim_type_num 5)
unfolding type_unmarshal_text type_marshal_text named_type new_claim_type_num uint64_to_bytes
    uint32_to_bytes bytes_eq hex_decode_into encode_to_string decode_string
type_5_text = refl
