-- ===== src/Common/Words.antt =====
-- The fixed-width integers of common/common.go: reading back what was written.
use go_iden3_core.Prelude.{ℕ, ◌<◌, ◌^◌, ◌≡◌, refl, ap, arith, take, get_elem?-take}
use go_iden3_core.Result.{ok}
use go_iden3_core.Common.{
  Bytes, IsBytes, uint16_to_bytes, bytes_to_uint16, uint32_to_bytes, bytes_to_uint32,
  uint32_to_eth_bytes, eth_bytes_to_uint32,
}

-- BytesToUint16 reads what Uint16ToBytes writes, for every 16-bit value.
pub bytes_to_uint16-uint16_to_bytes :
    (u : ℕ) → u < 2 ^ 16 → bytes_to_uint16 (uint16_to_bytes u) ≡ ok u
unfolding bytes_to_uint16 uint16_to_bytes
bytes_to_uint16-uint16_to_bytes u h = ap ok (omega arith)

-- BytesToUint32 reads back every 32-bit number that Uint32ToBytes writes.
pub bytes_to_uint32-uint32_to_bytes :
    (u : ℕ) → u < 2 ^ 32 → bytes_to_uint32 (uint32_to_bytes u) ≡ ok u
unfolding bytes_to_uint32 uint32_to_bytes
bytes_to_uint32-uint32_to_bytes u h = ap ok (omega arith)

pub eth_bytes_to_uint32-uint32_to_eth_bytes :
    (u : ℕ) → u < 2 ^ 32 → eth_bytes_to_uint32 (uint32_to_eth_bytes u) ≡ ok u
unfolding eth_bytes_to_uint32 uint32_to_eth_bytes
eth_bytes_to_uint32-uint32_to_eth_bytes u h = ap ok (omega arith)

pub uint16_to_bytes-IsBytes : (u : ℕ) → IsBytes (uint16_to_bytes u)
unfolding uint16_to_bytes
uint16_to_bytes-IsBytes u = omega arith

pub uint32_to_bytes-IsBytes : (u : ℕ) → IsBytes (uint32_to_bytes u)
unfolding uint32_to_bytes
uint32_to_bytes-IsBytes u = omega arith

-- The number is read from the first four bytes.
pub bytes_to_uint32-take : (b : Bytes) → bytes_to_uint32 (take 4 b) ≡ bytes_to_uint32 b
unfolding bytes_to_uint32
bytes_to_uint32-take b =
    rw
      (
        get_elem?-take 4 0 b (omega arith),
        get_elem?-take 4 1 b (omega arith),
        get_elem?-take 4 2 b (omega arith),
        get_elem?-take 4 3 b (omega arith),
      )
      refl
