-- ===== src/Tests/Proofs.antt =====
-- Proofs that are generated, verified, serialized and parsed.
use go_iden3_core.Prelude.{◌≡◌, refl, false, none, some, [], ◌∷◌, arith, replicate, set}
use go_iden3_core.Result.{ok, err, panic}
use go_iden3_core.Common.{set_bit_big_endian, test_bit_big_endian}
use go_iden3_core.MerkleTree.Proof.{
  Proof, generate_proof, generate_loop, note_sibling, new_proof_from_bytes, bytes,
}
use go_iden3_core.MerkleTree.Proof.Verifies.{Correct, generate_proof-Correct}
use go_iden3_core.MerkleTree.Proof.RoundTrip.{IsWellFormed, count_bits, new_proof_from_bytes-bytes}
use go_iden3_core.Tests.Env.{mixing, in_memory, elem}
use go_iden3_core.Tests.Trees.{tree2, hi_of, tree2_Inserted}

unfoldable pub proof1 : Proof
unfolding hi_of tree2 generate_proof generate_loop note_sibling set_bit_big_endian
    test_bit_big_endian
proof1 = elim (generate_proof tree2 (hi_of 1) none) [
  | ok p ↦ p
  | err _ ↦ record { existence = false; depth = 0; notempties = []; siblings = []; node_aux = none }
  | panic ↦ record { existence = false; depth = 0; notempties = []; siblings = []; node_aux = none }
]

pub proof1_eq : generate_proof tree2 (hi_of 1) none ≡ ok proof1
unfolding proof1
proof1_eq = refl

pub tree2_levels : tree2.max_levels ≡ 8
unfolding tree2
tree2_levels = refl

generate_proof-Correct_example : Correct tree2 (hi_of 1) proof1
generate_proof-Correct_example =
    generate_proof-Correct tree2 tree2_Inserted.0 (hi_of 1) proof1 tree2_Inserted.1.holds
      (omega (arith, tree2_levels)) proof1_eq

-- A proof of absence with one sibling and a node beside the path.
abbrev proof2 : Proof
proof2 = record {
  existence = false;
  depth = 2;
  notempties = set (replicate 30 0) 29 2;
  siblings = elem 5 ∷ [];
  node_aux = some (record { h_index = elem 6; h_value = elem 7 });
}

proof2-IsWellFormed : IsWellFormed proof2
unfolding count_bits test_bit_big_endian
proof2-IsWellFormed = record {
  depth_byte = omega arith;
  bitmap = refl;
  counted = refl;
  elems = (refl, tt);
  aux = (refl, refl, refl);
}

new_proof_from_bytes-bytes_example : new_proof_from_bytes (bytes proof2) ≡ ok proof2
new_proof_from_bytes-bytes_example = new_proof_from_bytes-bytes proof2 proof2-IsWellFormed
