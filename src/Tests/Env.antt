-- ===== src/Tests/Env.antt =====
-- A hash function and a storage to run the trees with, and a tree with two entries.
use go_iden3_core.Prelude.{ℕ, ◌+◌, ◌*◌, ◌%◌, ◌^◌, ◌<◌, refl, true, List, [], ◌∷◌, arith, replicate}
use go_iden3_core.Result.{ok, ok-injective}
use go_iden3_core.Common.{Bytes}
use go_iden3_core.BigInt.{replicate-IsBytes}
use go_iden3_core.Crypto.{Crypto, IsHash}
use go_iden3_core.Db.{Storage, IsStorage}
use go_iden3_core.Db.Memory.{memory_storage, new_memory_storage}
use go_iden3_core.Db.Memory.IsStorage.{memory_storage-IsStorage}
use go_iden3_core.MerkleTree.{MerkleTree}
use go_iden3_core.MerkleTree.Elem.{ElemBytes, Entry, hash_zero}
use go_iden3_core.MerkleTree.Spec.{empty}
use go_iden3_core.MerkleTree.AddEntry.{Holds}

unfoldable pub mix : List ℕ → ℕ
mix [] = 1
mix (x ∷ xs) = (x + 31 * mix xs) % 2 ^ 200 + 1

instance abbrev pub mixing : Crypto
mixing = record { poseidon_hash = λ xs. ok (mix xs); check_in_field = λ xs. true }

mix_bounds : (xs : List ℕ) → (0 < mix xs) × (mix xs < 256 ^ 32)
unfolding mix
mix_bounds [] = omega arith
mix_bounds (x ∷ xs) = omega arith

pub mixing-IsHash : IsHash mixing
mixing-IsHash = record {
  hash_pos = λ xs v e. omega (arith, mix_bounds xs, ok-injective e);
  hash-lt = λ xs v e. omega (arith, mix_bounds xs, ok-injective e);
}

abbrev pub sha256 : Bytes → Bytes
sha256 k = k

instance abbrev pub in_memory : Storage
in_memory = memory_storage sha256

pub in_memory-IsStorage : IsStorage in_memory
in_memory-IsStorage = memory_storage-IsStorage sha256 (λ j k e. e)

abbrev pub elem : ℕ → ElemBytes
elem n = n ∷ replicate 31 0

abbrev pub entry : ℕ → ℕ → Entry
entry i v = record {
  elems = elem i ∷ elem 0 ∷ elem 0 ∷ elem 0 ∷ elem v ∷ elem 0 ∷ elem 0 ∷ elem 0 ∷ [];
}

abbrev pub tree0 : MerkleTree
tree0 = record {
  storage = new_memory_storage;
  root_key = hash_zero;
  max_levels = 8;
  writable = true;
}

pub tree0-Holds : Holds tree0 empty
tree0-Holds = record { represents = refl; root_elem = (refl, replicate-IsBytes 32) }
