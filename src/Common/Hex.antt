-- ===== src/Common/Hex.antt =====
-- The hexadecimal functions of common/common.go, with `hex.EncodeToString` and `hex.Decode` of the
-- standard library written out. Text is the list of its bytes.
pub mod RoundTrip
use go_iden3_core.Prelude.{
  ℕ, zero, suc, ◌+◌, ◌-◌, ◌*◌, ◌/◌, ◌%◌, Bool, true, false, ◌&&◌, Option, none, some, List, [], ◌∷◌,
  ◌++◌, ltb, leb, ◌==◌, if◌then◌else◌, length,
}
use go_iden3_core.Result.{Result, ok, err, panic, invalid_length, bad_hex, ◌>>=◌}
use go_iden3_core.Common.{Bytes}

-- A digit of `hex.EncodeToString`.
unfoldable pub hex_digit : ℕ → ℕ
hex_digit n = if ltb n 10 then 48 + n else 87 + n

-- `hex.EncodeToString`
unfoldable pub encode_to_string : Bytes → Bytes
unfolding hex_digit
encode_to_string [] = []
encode_to_string (b ∷ bs) = hex_digit (b / 16) ∷ hex_digit (b % 16) ∷ encode_to_string bs

-- The value of a digit, in either case.
from_hex_char : ℕ → Option ℕ
from_hex_char c =
    if leb b'0' c && leb c b'9'
    then some (c - b'0')
    else if leb b'a' c && leb c b'f'
    then some (c - b'a' + 10)
    else if leb b'A' c && leb c b'F'
    then some (c - b'A' + 10)
    else none

digit_pair : Option ℕ → Option ℕ → Result ℕ
digit_pair (some a) (some b) = ok (a * 16 + b)
digit_pair (some a) none = err bad_hex
digit_pair none b = err bad_hex

-- `hex.DecodeString`, and the bytes that `hex.Decode` writes.
unfoldable pub decode_string : Bytes → Result Bytes
unfolding from_hex_char digit_pair
decode_string [] = ok []
decode_string (c ∷ []) = err bad_hex
decode_string (c ∷ d ∷ cs) = do
  b ← digit_pair (from_hex_char c) (from_hex_char d)
  bs ← decode_string cs
  ok (b ∷ bs)

-- `strings.TrimPrefix(h, "0x")`
unfoldable pub trim_0x : Bytes → Bytes
trim_0x (c ∷ d ∷ cs) = if c == b'0' && d == b'x' then cs else c ∷ d ∷ cs
trim_0x cs = cs

-- `fmt.Sprintf("0x%s", …)`
unfoldable pub hex_encode : Bytes → Bytes
hex_encode bs = b'0' ∷ b'x' ∷ encode_to_string bs

unfoldable pub hex_decode : Bytes → Result Bytes
unfolding trim_0x
hex_decode h = decode_string (trim_0x h)

-- The destination is given by its length, and its new content is the result.
unfoldable pub hex_decode_into : ℕ → Bytes → Result Bytes
unfolding trim_0x
hex_decode_into dst h =
    let digits = trim_0x h in
    if length digits / 2 == dst
    then (do bs ← decode_string digits; if length bs == dst then ok bs else err invalid_length)
    else err invalid_length
