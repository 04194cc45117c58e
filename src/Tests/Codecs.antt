-- ===== src/Tests/Codecs.antt =====
-- The byte forms of numbers, claims, identifiers and nodes, run on concrete values.
use go_iden3_core.Prelude.{
  ℕ, ◌≡◌, ◌≢◌, refl, ap, true, false, [], ◌∷◌, arith, replicate, length, take, drop, zero, suc,
  bytes_eq, ◌<◌, ◌++◌,
}
use go_iden3_core.Result.{ok, ◌>>=◌}
use go_iden3_core.Common.{Bytes, set_bit_big_endian, test_bit_big_endian}
use go_iden3_core.Common.Bitmap.{test_bit_big_endian-set_bit_big_endian}
use go_iden3_core.Common.Hex.{hex_encode, hex_decode_into}
use go_iden3_core.Common.Hex.RoundTrip.{hex_decode_into-hex_encode}
use go_iden3_core.BigInt.{replicate-IsBytes}
use go_iden3_core.Common.Slices.{nth}
use go_iden3_core.Db.{IsStorage}
use go_iden3_core.Db.Memory.{memory_storage}
use go_iden3_core.Db.Memory.IsStorage.{memory_storage-IsStorage}
use go_iden3_core.MerkleTree.Elem.{big_int, new_elem_bytes_from_big_int}
use go_iden3_core.MerkleTree.Elem.Shape.{big_int-new_elem_bytes_from_big_int}
use go_iden3_core.MerkleTree.Nodes.{middle, new_node_from_bytes, value}
use go_iden3_core.MerkleTree.Nodes.RoundTrip.{reparsed, new_node_from_bytes-value}
use go_iden3_core.Identifier.{
  sum16, calculate_checksum, check_checksum, decompose_id, new_id, id_from_bytes, type_bjp0,
}
use go_iden3_core.Identifier.Checksum.{id_from_bytes-new_id, id_from_bytes-ok}
use go_iden3_core.Claims.{ClaimHeader, header_marshal, header_unmarshal}
use go_iden3_core.Claims.Header.{HasShape, header_unmarshal-header_marshal}
use go_iden3_core.Tests.Env.{elem, entry, sha256}

memory_storage-IsStorage_example : IsStorage (memory_storage sha256)
memory_storage-IsStorage_example = memory_storage-IsStorage sha256 (λ j k e. e)

test_bit_big_endian-set_bit_big_endian_example :
    (set_bit_big_endian (replicate 30 0) 9 >>= λ c. test_bit_big_endian c 9) ≡ ok true
test_bit_big_endian-set_bit_big_endian_example =
    test_bit_big_endian-set_bit_big_endian (replicate 30 0) 9 (replicate-IsBytes 30) (omega arith) 9
      (omega arith)

hex_decode_into-hex_encode_example :
    hex_decode_into 2 (hex_encode (255 ∷ 10 ∷ [])) ≡ ok (255 ∷ 10 ∷ [])
hex_decode_into-hex_encode_example =
    hex_decode_into-hex_encode (255 ∷ 10 ∷ []) (omega arith, (omega arith, tt))

big_int-new_elem_bytes_from_big_int_example : big_int (new_elem_bytes_from_big_int 70000) ≡ 70000
big_int-new_elem_bytes_from_big_int_example =
    big_int-new_elem_bytes_from_big_int 70000 (omega arith)

new_node_from_bytes-value_example :
    new_node_from_bytes (value (middle (elem 3) (elem 4))) ≡ reparsed (middle (elem 3) (elem 4))
new_node_from_bytes-value_example =
    new_node_from_bytes-value (middle (elem 3) (elem 4))
      ((refl, (omega arith, replicate-IsBytes 31)), (refl, (omega arith, replicate-IsBytes 31)))

abbrev genesis : Bytes
genesis = replicate 27 11

checksum_ne : calculate_checksum type_bjp0 genesis ≢ 0 ∷ 0 ∷ []
unfolding calculate_checksum sum16
checksum_ne e = ground (arith, ap (λ (x : Bytes). take 2 x) e)

id_from_bytes-new_id_example :
    id_from_bytes (new_id type_bjp0 genesis) ≡ ok (new_id type_bjp0 genesis)
id_from_bytes-new_id_example = id_from_bytes-new_id type_bjp0 genesis refl refl checksum_ne

-- An identifier with one byte in its genesis, and its checksum.
abbrev id1 : Bytes
id1 = 0 ∷ 0 ∷ 7 ∷ (replicate 26 0 ++ 0 ∷ 7 ∷ [])

id1_eq : id_from_bytes id1 ≡ ok id1
unfolding id_from_bytes check_checksum decompose_id calculate_checksum sum16 bytes_eq
id1_eq = refl

id_from_bytes-ok_example :
    (id1 ≡ id1) × (new_id (take 2 id1) (take 27 (drop 2 id1)) ≡ id1) × (length id1 ≡ 31)
id_from_bytes-ok_example = id_from_bytes-ok id1 id1 id1_eq

abbrev header : ClaimHeader
header = record {
  claim_type = replicate 8 1;
  subject = 1;
  subject_pos = 1;
  expiration = true;
  version = false;
}

entry-HasShape : HasShape (entry 0 0)
unfolding nth
entry-HasShape = record { size = refl; elem_size = λ i h. sizes i h }
  where
    sizes : (i : ℕ) → i < 8 → length (nth (entry 0 0).elems i) ≡ 32
    sizes zero h = refl
    sizes (suc zero) h = refl
    sizes (suc (suc zero)) h = refl
    sizes (suc (suc (suc zero))) h = refl
    sizes (suc (suc (suc (suc zero)))) h = refl
    sizes (suc (suc (suc (suc (suc zero))))) h = refl
    sizes (suc (suc (suc (suc (suc (suc zero)))))) h = refl
    sizes (suc (suc (suc (suc (suc (suc (suc zero))))))) h = refl
    sizes (suc (suc (suc (suc (suc (suc (suc (suc i)))))))) h = absurd (omega arith)

-- A subject in the value, at position 1, is read as position 4.
header_unmarshal-header_marshal_example :
    header_unmarshal (header_marshal header (entry 0 0)) ≡ ok (record header { subject_pos = 4 })
header_unmarshal-header_marshal_example =
    header_unmarshal-header_marshal header (entry 0 0) refl entry-HasShape (omega arith)
      (omega arith)
