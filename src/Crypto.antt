-- ===== src/Crypto.antt =====
-- The functions of go-iden3-crypto that the code calls, as parameters: `poseidon.PoseidonHash` on
-- an array of `poseidon.T` numbers, and `utils.CheckBigIntArrayInField`.
use go_iden3_core.Prelude.{ℕ, ◌<◌, ◌^◌, ◌≡◌, Bool, List}
use go_iden3_core.Result.{Result, ok}

pub record Crypto : Type 0 where
  pub poseidon_hash : List ℕ → Result ℕ
  pub check_in_field : List ℕ → Bool

-- `poseidon.T`
abbrev pub poseidon_t : ℕ
poseidon_t = 6

-- A hash is a field element, and is not zero: nobody knows an input that hashes to zero.
pub record IsHash (c : Crypto) : Type 0 where
  pub hash_pos : (xs : List ℕ) (v : ℕ) → c.poseidon_hash xs ≡ ok v → 0 < v
  pub hash-lt : (xs : List ℕ) (v : ℕ) → c.poseidon_hash xs ≡ ok v → v < 256 ^ 32
