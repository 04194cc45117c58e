-- ===== src/Tests/Sharing.antt =====
-- The public data of an identity, published in a ring of four slots and read back.
use go_iden3_core.Prelude.{◌+◌, ◌%◌, ◌≡◌, refl, inl, none, [], ◌∷◌, arith, bytes_eq}
use go_iden3_core.Result.{Result, ok, err, panic}
use go_iden3_core.BigInt.{big_bytes, set_bytes, copy_into}
use go_iden3_core.Common.{swap_endianness}
use go_iden3_core.Db.Memory.{get, map_get}
use go_iden3_core.MerkleTree.Elem.{
  Hash, hash_zero, big_int, elem_bytes_to_poseidon_input, new_elem_bytes_from_big_int,
}
use go_iden3_core.Identifier.{iden_state}
use go_iden3_core.Public.{PublicData, PublicDataBlobs, check_blobs}
use go_iden3_core.Public.Blobs.{Consistent}
use go_iden3_core.Public.Cache.{
  CacheWriter, new_config_default, db_key_cache_idx, publish, get_public_data,
}
use go_iden3_core.Public.Cache.Last.{AtSlot}
use go_iden3_core.Public.Published.{get_public_data-publish}
use go_iden3_core.Tests.Env.{mixing, mix, in_memory, in_memory-IsStorage, tree0}
use go_iden3_core.Tests.Trees.{tree1}
use go_iden3_core.Tests.Dump.{
  tree1_shape, tree1-Holds, tree1_small, in_memory_starts, in_memory_commits,
}

hash_or_zero : Result Hash → Hash
hash_or_zero (ok h) = h
hash_or_zero (err x) = hash_zero
hash_or_zero panic = hash_zero

unfoldable three_roots : Hash
unfolding tree1 hash_or_zero iden_state elem_bytes_to_poseidon_input big_int
    new_elem_bytes_from_big_int set_bytes big_bytes swap_endianness copy_into mix
three_roots = hash_or_zero (iden_state tree1.root_key tree1.root_key tree1.root_key)

shared : PublicData
shared = record {
  iden_state = three_roots;
  claims_tree_root = tree1.root_key;
  revocations_tree_root = tree1.root_key;
  revocations_tree = tree1;
  roots_tree_root = tree1.root_key;
  roots_tree = tree1;
}

shared-Consistent : Consistent shared tree1_shape tree1_shape
unfolding shared three_roots
shared-Consistent = record {
  revocations_Holds = tree1-Holds;
  roots_Holds = tree1-Holds;
  revocations_root = refl;
  roots_root = refl;
  state = refl;
  state_full = refl;
  claims_full = tree1-Holds.root_elem.0;
}

first_slot : CacheWriter
first_slot = record {
  storage = record { prefix = []; kv = record { k = db_key_cache_idx; v = 0 ∷ [] } ∷ [] };
  cfg = new_config_default [];
}

first_slot-AtSlot : AtSlot first_slot 0
unfolding first_slot get map_get bytes_eq
first_slot-AtSlot = record { present = refl; inside = omega arith; is_byte = omega arith }

get_public_data-publish_example :
    (i' : CacheWriter) × (b : PublicDataBlobs) × (p' : PublicData) × (publish 2 shared first_slot
      ≡ ok i')
    × (get_public_data i' none ≡ ok b)
    × (check_blobs b tree0 tree0 ≡ ok p')
    × Consistent p' tree1_shape tree1_shape
    × (b.iden_state ≡ shared.iden_state)
    × AtSlot i' ((0 + 1) % i'.cfg.cache_len)
unfolding first_slot
get_public_data-publish_example =
    get_public_data-publish in_memory-IsStorage in_memory_starts in_memory_commits 2 shared
      first_slot 0 tree0 tree0 tree1_shape tree1_shape shared-Consistent tree1_small tree1_small
      first_slot-AtSlot (inl (omega arith))
