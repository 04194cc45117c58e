-- ===== src/Common.antt =====
-- common/common.go: bitmaps, byte order, fixed-width integers and hexadecimal text. A byte string
-- is a list of numbers; `IsBytes` says that they are bytes. Text is the list of its bytes.
pub mod Bitmap
pub mod Maps
pub mod Words
pub mod Slices
pub mod Hex
use go_iden3_core.Prelude.{
  ℕ, zero, suc, ◌+◌, ◌-◌, ◌*◌, ◌/◌, ◌%◌, ◌^◌, ◌<◌, bit_and, bit_or, Bool, true, false, not, ◌&&◌,
  List, [], ◌∷◌, ◌++◌, reverse, ltb, leb, ◌==◌, if◌then◌else◌, length, get_elem?, set, All,
}
use go_iden3_core.Result.{Result, ok, err, panic, invalid_length, ◌>>=◌, or_panic}

abbrev pub Bytes : Type 0
Bytes = List ℕ

abbrev pub IsByte : ℕ → Type 0
IsByte b = b < 256

abbrev pub IsBytes : Bytes → Type 0
IsBytes = All IsByte

-- `b & (1 << i) != 0`
unfoldable pub bit_at : ℕ → ℕ → Bool
bit_at b i = not (bit_and b (2 ^ i) == 0)

unfoldable pub set_bit : Bytes → ℕ → Result Bytes
set_bit bitmap n = do
  b ← or_panic (get_elem? bitmap (n / 8))
  ok (set bitmap (n / 8) (bit_or b (2 ^ (n % 8))))

unfoldable pub test_bit : Bytes → ℕ → Result Bool
test_bit bitmap n = do b ← or_panic (get_elem? bitmap (n / 8)); ok (bit_at b (n % 8))

-- `uint(len(bitmap)) - n/8 - 1` wraps around below zero, and the index is then out of range.
big_endian_index : Bytes → ℕ → Result ℕ
big_endian_index bitmap n =
    if ltb (n / 8) (length bitmap) then ok (length bitmap - n / 8 - 1) else panic

unfoldable pub set_bit_big_endian : Bytes → ℕ → Result Bytes
unfolding big_endian_index
set_bit_big_endian bitmap n = do
  i ← big_endian_index bitmap n
  b ← or_panic (get_elem? bitmap i)
  ok (set bitmap i (bit_or b (2 ^ (n % 8))))

unfoldable pub test_bit_big_endian : Bytes → ℕ → Result Bool
unfolding big_endian_index bit_at
test_bit_big_endian bitmap n = do
  i ← big_endian_index bitmap n
  b ← or_panic (get_elem? bitmap i)
  ok (bit_at b (n % 8))

unfoldable pub swap_endianness : Bytes → Bytes
swap_endianness b = reverse b

-- `binary.LittleEndian.PutUint16` into two fresh bytes, and its inverse.
unfoldable pub uint16_to_bytes : ℕ → Bytes
uint16_to_bytes u = u % 256 ∷ u / 256 % 256 ∷ []

unfoldable pub bytes_to_uint16 : Bytes → Result ℕ
bytes_to_uint16 b = do
  b0 ← or_panic (get_elem? b 0)
  b1 ← or_panic (get_elem? b 1)
  ok (b0 + 256 * b1)

unfoldable pub uint32_to_bytes : ℕ → Bytes
uint32_to_bytes u = u % 256 ∷ u / 256 % 256 ∷ u / 65536 % 256 ∷ u / 16777216 % 256 ∷ []

unfoldable pub bytes_to_uint32 : Bytes → Result ℕ
bytes_to_uint32 b = do
  b0 ← or_panic (get_elem? b 0)
  b1 ← or_panic (get_elem? b 1)
  b2 ← or_panic (get_elem? b 2)
  b3 ← or_panic (get_elem? b 3)
  ok (b0 + 256 * b1 + 65536 * b2 + 16777216 * b3)

-- `binary.Write` in big endian order.
unfoldable pub uint32_to_eth_bytes : ℕ → Bytes
unfolding uint32_to_bytes
uint32_to_eth_bytes u = reverse (uint32_to_bytes u)

unfoldable pub eth_bytes_to_uint32 : Bytes → Result ℕ
eth_bytes_to_uint32 b = do
  b0 ← or_panic (get_elem? b 0)
  b1 ← or_panic (get_elem? b 1)
  b2 ← or_panic (get_elem? b 2)
  b3 ← or_panic (get_elem? b 3)
  ok (16777216 * b0 + 65536 * b1 + 256 * b2 + b3)
