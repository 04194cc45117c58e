-- ===== src/Tests/Issuing.antt =====
-- An issuer over storages in memory and a chain that accepts every state: a claim is published, found on
-- the chain, proved and revoked.
use go_iden3_core.Prelude.{
  ℕ, ◌≡◌, ◌≢◌, ◌⊎◌, ◌∙◌, take-append, drop-append, refl, sym, ap, true, false, none, some, [], ◌∷◌,
  ◌++◌, length, take, drop, bytes_eq, arith,
}
use go_iden3_core.Result.{Result, ok, err, panic, ok-injective}
use go_iden3_core.Action.{followed}
use go_iden3_core.Common.{Bytes}
use go_iden3_core.Claims.{bool2byte}
use go_iden3_core.Db.Memory.{new_memory_storage}
use go_iden3_core.Db.Utils.{IsJson, store_json}
use go_iden3_core.MerkleTree.Elem.{hash_zero, Hash}
use go_iden3_core.MerkleTree.Proof.{Proof}
use go_iden3_core.Verifier.{IdenStateData}
use go_iden3_core.Chain.{IdenPubOnChainer, pos}
use go_iden3_core.Issuer.{
  Issuer, IssuerJson, IdenStateTreeRoots, new_tx, commit, set_iden_state_pending,
  set_iden_state_data_on_chain,
}
use go_iden3_core.Issuer.Methods.{
  sync_iden_state_public, unconfirmed, not_yet, too_few, or_zero, compare_states, settle,
}
use go_iden3_core.Issuer.Pending.{Settled, sync_iden_state_public-Settled}
use go_iden3_core.MerkleTree.Elem.{h_index}
use go_iden3_core.MerkleTree.Proof.{generate_proof, generate_loop, note_sibling}
use go_iden3_core.MerkleTree.Spec.{empty}
use go_iden3_core.Common.{uint32_to_bytes, bytes_to_uint32}
use go_iden3_core.Common.Slices.{nth, copy_at, update_at}
use go_iden3_core.Claims.{get_revocation_nonce, write}
use go_iden3_core.Claims.Leaves.{leaf_revocations_entry, add_leaf_revocations_tree}
use go_iden3_core.Verifier.{Verifier, CredentialValidity, verify_credential_validity}
use go_iden3_core.Action.{within}
use go_iden3_core.Issuer.Methods.{revoke_claim, in_revocations_tree}
use go_iden3_core.Issuer.Methods.Revoked.{verify_credential_validity-revoke_claim}
use go_iden3_core.Tests.Env.{
  mixing, mixing-IsHash, in_memory, in_memory-IsStorage, entry, tree0, tree0-Holds,
}
use go_iden3_core.Tests.Trees.{tree1, hi_of, hi_of_1, found_1}

instance abbrev pub accepting : IdenPubOnChainer
accepting = record {
  State = IdenStateData;
  ZkProof = ℕ;
  Transaction = ℕ;
  get_state = λ s id. ok s;
  set_state = λ s id new p. ok (record { block_ts = 1; block_n = 1; iden_state = new }, 0);
  init_state = λ s id old new p. ok (record { block_ts = 1; block_n = 1; iden_state = new }, 0);
  tx_confirm_blocks = λ s tx. ok (pos 5);
}

unfoldable pub write_data : IdenStateData → Result Bytes
write_data d = ok (d.block_ts ∷ d.block_n ∷ d.iden_state)

unfoldable pub read_data : Bytes → Result IdenStateData
read_data (t ∷ n ∷ h) = ok (record { block_ts = t; block_n = n; iden_state = h })
read_data _ = panic

unfoldable pub write_roots : IdenStateTreeRoots → Result Bytes
write_roots r = ok (
    length r.claims_tree_root
    ∷ (r.claims_tree_root
        ++ length r.revocations_tree_root ∷ (r.revocations_tree_root ++ r.roots_tree_root)))

unfoldable pub split : Bytes → Bytes × Bytes
split [] = ([], [])
split (n ∷ bs) = (take n bs, drop n bs)

unfoldable pub read_roots : Bytes → Result IdenStateTreeRoots
read_roots bs = ok (record {
  claims_tree_root = (split bs).0;
  revocations_tree_root = (split (split bs).1).0;
  roots_tree_root = (split (split bs).1).1;
})

abbrev pub empty_proof : Proof
empty_proof = record {
  existence = true;
  depth = 0;
  notempties = [];
  siblings = [];
  node_aux = none;
}

instance abbrev pub texts : IssuerJson ℕ
texts = record {
  state_data = record { marshal = write_data; unmarshal = read_data };
  tree_roots = record { marshal = write_roots; unmarshal = read_roots };
  tx = record { marshal = λ x. ok []; unmarshal = λ bs. ok none };
  proof = record { marshal = λ x. ok []; unmarshal = λ bs. ok empty_proof };
  hash = record { marshal = λ h. ok h; unmarshal = λ bs. ok bs };
}

split_cons : (a b : Bytes) → split (length a ∷ (a ++ b)) ≡ (a, b)
unfolding split
split_cons a b = λ i. (take-append a b i, drop-append a b i)

roots_kept : (r : IdenStateTreeRoots) (bs : Bytes) → write_roots r ≡ ok bs → read_roots bs ≡ ok r
unfolding write_roots read_roots
roots_kept r bs e =
    ap read_roots (sym (ok-injective e))
    ∙ rw (split_cons r.claims_tree_root _, split_cons r.revocations_tree_root r.roots_tree_root)
        refl

pub roots-IsJson : IsJson texts.tree_roots
roots-IsJson = record { unmarshal-marshal = roots_kept }

data-IsJson : IsJson texts.state_data
unfolding write_data read_data
data-IsJson = record { unmarshal-marshal = λ d bs e. ap read_data (sym (ok-injective e)) }

abbrev pub at_state : Hash → IdenStateData
at_state h = record { block_ts = 1; block_n = 1; iden_state = h }

-- A state that has been sent, and is on the chain.
abbrev pub sent : Issuer
sent = record {
  storage = new_memory_storage;
  id = 1 ∷ [];
  claims_tree = tree1;
  revocations_tree = tree0;
  roots_tree = tree0;
  iden_pub_on_chain = at_state (9 ∷ []);
  iden_pub_url = [];
  iden_state_data_on_chain = at_state hash_zero;
  iden_state_pending = 9 ∷ [];
  iden_state_pending_transacted = true;
  eth_tx_set_state = none;
  eth_tx_init_state = some 0;
  cfg = record { genesis_only = false; confirm_blocks = 3 };
}

unfoldable synced : Issuer
unfolding sync_iden_state_public unconfirmed not_yet too_few or_zero compare_states settle followed
    new_tx commit set_iden_state_pending set_iden_state_data_on_chain store_json write_data bytes_eq
    bool2byte tree1
synced = (sync_iden_state_public sent).0

synced_eq : sync_iden_state_public sent ≡ (synced, ok tt)
unfolding synced
synced_eq = refl

sync_iden_state_public-Settled_example :
    (synced ≡ sent)
    ⊎ ((d : IdenStateData) × (unconfirmed sent ≡ ok false)
        × (or_zero (accepting.get_state sent.iden_pub_on_chain sent.id) ≡ ok d)
        × Settled sent synced d)
sync_iden_state_public-Settled_example =
    sync_iden_state_public-Settled in_memory-IsStorage data-IsJson sent synced synced_eq

-- The same issuer after the claim is revoked.
unfoldable revoking : Issuer
unfolding revoke_claim in_revocations_tree within followed get_revocation_nonce tree1
    add_leaf_revocations_tree leaf_revocations_entry write copy_at update_at uint32_to_bytes
    bytes_to_uint32 nth
revoking = (revoke_claim (entry 1 7) sent).0

revoking_eq : revoke_claim (entry 1 7) sent ≡ (revoking, ok tt)
unfolding revoking
revoking_eq = refl

claim_nonce : get_revocation_nonce (entry 1 7) ≡ ok 7
unfolding revoking
claim_nonce = refl

hi_of_nonce :
    h_index (leaf_revocations_entry (record { nonce = 7; version = 0xffffffff })) ≡ ok (hi_of 7)
unfolding hi_of revoking
hi_of_nonce = refl

nonce_proof : Proof
unfolding revoking hi_of generate_proof generate_loop note_sibling
nonce_proof = elim (generate_proof revoking.revocations_tree (hi_of 7) none) [
  | ok p ↦ p
  | err _ ↦ empty_proof
  | panic ↦ empty_proof
]

nonce_proof_eq : generate_proof revoking.revocations_tree (hi_of 7) none ≡ ok nonce_proof
unfolding nonce_proof
nonce_proof_eq = refl

abbrev watcher : Verifier
watcher = record {
  get_state = λ id. ok (at_state (9 ∷ []));
  get_state_by_block = λ id n. ok (at_state (9 ∷ []));
  time_now = 5;
}

abbrev shown : CredentialValidity
shown = record {
  credential_existence = record {
    id = 1 ∷ [];
    iden_pub_url = [];
    iden_state_data = at_state (9 ∷ []);
    mtp_claim = empty_proof;
    claim = entry 1 7;
    revocations_tree_root = hash_zero;
    roots_tree_root = hash_zero;
  };
  iden_state_data = at_state (9 ∷ []);
  mtp_not_nonce = nonce_proof;
  claims_tree_root = hash_zero;
  roots_tree_root = hash_zero;
}

verify_credential_validity-revoke_claim_example :
    verify_credential_validity watcher shown 100 ≢ ok tt
verify_credential_validity-revoke_claim_example =
    verify_credential_validity-revoke_claim mixing-IsHash in_memory-IsStorage sent revoking empty
      (hi_of 1) (hi_of 7) 7 watcher shown 100 tree0-Holds (omega arith) hi_of_1 found_1 revoking_eq
      claim_nonce hi_of_nonce nonce_proof_eq
