-- ===== src/Genesis.antt =====
-- core/genesis/genesis.go: the identifier of the initial claims. An extra claim is the entry that its
-- Entry gives.
use go_iden3_core.Prelude.{List, [], ◌∷◌}
use go_iden3_core.Result.{Result}
use go_iden3_core.Result as R
use go_iden3_core.Action.{Action, ◌>>=◌, return, current, lift, within}
use go_iden3_core.Common.{Bytes}
use go_iden3_core.Crypto.{Crypto}
use go_iden3_core.Db.{Storage}
use go_iden3_core.Db.Memory.{memory_storage, new_memory_storage}
use go_iden3_core.MerkleTree.Elem.{Entry, hash_zero}
use go_iden3_core.MerkleTree.{MerkleTree, new_merkle_tree, add_entry}
use go_iden3_core.Identifier.{iden_state, id_genesis_from_iden_state}
use go_iden3_core.Claims.Leaves.{add_leaf_roots_tree}
use go_iden3_core.Claims.Types.{ClaimKeyBabyJub, claim_key_baby_jub_entry}

module _ ⦃db : Storage⦄ ⦃c : Crypto⦄ where
  -- The claims tree and the roots tree.
  abbrev pub Trees : Type 0
  Trees = MerkleTree × MerkleTree

  -- AddClaim
  unfoldable pub add_claim : Entry → Action Trees (Unit {0})
  add_claim e = within (λ ts. ts.0) (λ clt ts. (clt, ts.1)) (λ clt. add_entry clt e)

  -- The loop over the extra claims.
  unfoldable pub add_claims : List Entry → Action Trees (Unit {0})
  add_claims [] = return tt
  add_claims (e ∷ es) = do _ ← add_claim e; add_claims es

  -- CalculateIdGenesisMT
  unfoldable pub calculate_id_genesis_mt :
      ClaimKeyBabyJub → (extra_genesis_claims : List Entry) → Action Trees Bytes
  calculate_id_genesis_mt claim_kop extra_genesis_claims = do
    e ← lift (claim_key_baby_jub_entry claim_kop)
    _ ← add_claim e
    _ ← add_claims extra_genesis_claims
    (clt, rot) ← current
    _ ← within (λ ts. ts.1) (λ mt ts. (ts.0, mt)) (λ mt. add_leaf_roots_tree mt clt.root_key)
    (clt', rot') ← current
    s ← lift (iden_state clt.root_key hash_zero rot'.root_key)
    return (id_genesis_from_iden_state s)

module _ (sha256 : Bytes → Bytes) ⦃c : Crypto⦄ where
  -- CalculateIdGenesis
  unfoldable pub calculate_id_genesis :
      ClaimKeyBabyJub → (extra_genesis_claims : List Entry) → Result Bytes
  calculate_id_genesis claim_kop extra_genesis_claims =
      R.◌>>=◌ (new_merkle_tree ⦃db = memory_storage sha256⦄ new_memory_storage 140) (λ clt.
        R.◌>>=◌ (new_merkle_tree ⦃db = memory_storage sha256⦄ new_memory_storage 140) (λ rot.
          (calculate_id_genesis_mt ⦃db = memory_storage sha256⦄ claim_kop extra_genesis_claims
            (clt, rot)).1))
