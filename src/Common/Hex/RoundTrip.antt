-- ===== src/Common/Hex/RoundTrip.antt =====
-- Decoding what was encoded.
use go_iden3_core.Prelude.{ℕ, ◌*◌, ◌/◌, ◌%◌, ◌<◌, ◌≡◌, refl, some, [], ◌∷◌, arith, length, ==_iff}
use go_iden3_core.Result.{ok}
use go_iden3_core.Common.{Bytes, IsBytes}
use go_iden3_core.Common.Hex.{
  hex_digit, encode_to_string, from_hex_char, decode_string, hex_encode, hex_decode,
  hex_decode_into,
}

from_hex_char-hex_digit : (n : ℕ) → n < 16 → from_hex_char (hex_digit n) ≡ some n
unfolding from_hex_char hex_digit
from_hex_char-hex_digit n h = ground arith

pub decode_string-encode_to_string :
    (bs : Bytes) → IsBytes bs → decode_string (encode_to_string bs) ≡ ok bs
unfolding decode_string encode_to_string
decode_string-encode_to_string [] h = refl
decode_string-encode_to_string (b ∷ bs) h =
    rw
      (
        from_hex_char-hex_digit (b / 16) (omega arith),
        from_hex_char-hex_digit (b % 16) (omega arith),
        decode_string-encode_to_string bs h.1,
      )
      (ground arith)

pub length-encode_to_string : (bs : Bytes) → length (encode_to_string bs) ≡ 2 * length bs
unfolding encode_to_string
length-encode_to_string [] = refl
length-encode_to_string (b ∷ bs) = omega (arith, length-encode_to_string bs)

-- HexDecode gives back the bytes that HexEncode wrote.
pub hex_decode-hex_encode : (bs : Bytes) → IsBytes bs → hex_decode (hex_encode bs) ≡ ok bs
unfolding hex_decode hex_encode
hex_decode-hex_encode bs h = decode_string-encode_to_string bs h

-- HexDecodeInto reads what HexEncode wrote into an array of the same length.
pub hex_decode_into-hex_encode :
    (bs : Bytes) → IsBytes bs → hex_decode_into (length bs) (hex_encode bs) ≡ ok bs
unfolding hex_decode_into hex_encode
hex_decode_into-hex_encode bs h = rw (
  (==_iff (length (encode_to_string bs) / 2) (length bs)).1
      (omega (arith, length-encode_to_string bs)),
  decode_string-encode_to_string bs h,
  (==_iff (length bs) (length bs)).1 refl,
)
