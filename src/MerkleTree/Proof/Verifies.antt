-- ===== src/MerkleTree/Proof/Verifies.antt =====
-- The proofs that GenerateProof makes for the root of a tree are correct and verify.
use go_iden3_core.Prelude.{
  ℕ, zero, suc, ◌+◌, ◌≤◌, ◌<◌, ◌≡◌, ◌⊎◌, refl, ap, sym, bytes_eq→eq, ◌∙◌, inl, inr, Bool, true,
  false, none, List, [], arith, length, get_elem?, take, get_elem?-take, bytes_eq_refl, replicate,
}
use go_iden3_core.Result.{ok, err, ok-injective, Result-cases, entry_index_not_found, >>=-eq-ok}
use go_iden3_core.Common.{Bytes, test_bit_big_endian}
use go_iden3_core.Common.Bitmap.{test_bit_big_endian-replicate}
use go_iden3_core.BigInt.{replicate-IsBytes}
use go_iden3_core.Crypto.{Crypto}
use go_iden3_core.Db.{Storage}
use go_iden3_core.MerkleTree.Elem.{Hash, Entry, h_value, get_path}
use go_iden3_core.MerkleTree.Elem.Path.{get_path-take, length-get_path}
use go_iden3_core.MerkleTree.Nodes.{key}
use go_iden3_core.MerkleTree.{MerkleTree, middle_at, bit_of, get_data_by_index}
use go_iden3_core.MerkleTree.Spec.{Tree}
use go_iden3_core.MerkleTree.Lookup.{get_data_by_index-find}
use go_iden3_core.MerkleTree.AddEntry.{Holds}
use go_iden3_core.MerkleTree.Proof.{
  Proof, generate_proof, climb, next_sibling, start_key, root_from_proof, verify_proof, verdict,
  notempties_len,
}
use go_iden3_core.MerkleTree.Proof.Sibling.{ClearFrom}
use go_iden3_core.MerkleTree.Proof.Completeness.{Generated, generate_loop-Generated}

module _ ⦃c : Crypto⦄ where
  -- Only the first `n` directions of the path matter to `n` levels.
  climb-path :
      (n : ℕ) (p q : List Bool) (ne : Bytes) (sibs : List Hash) (left : ℕ) (mid : Hash) {r : Hash}
      → ((i : ℕ) → i < n → get_elem? q i ≡ get_elem? p i)
      → climb n p ne sibs left mid ≡ ok r
      → climb n q ne sibs left mid ≡ ok r
  unfolding climb
  climb-path zero p q ne sibs left mid same h = h
  climb-path (suc lvl) p q ne sibs left mid same h =
      let (bit, e1, h1) = >>=-eq-ok (test_bit_big_endian ne lvl) _ h in
      let ((sib, left'), e2, h2) = >>=-eq-ok (next_sibling bit sibs left) _ h1 in
      let (b, e3, h3) = >>=-eq-ok (bit_of p lvl) _ h2 in
      let (mid', e4, h4) = >>=-eq-ok (key (middle_at b mid sib)) _ h3 in
      rw (e1, e2, same lvl (omega arith), e3, e4)
        (climb-path lvl p q ne sibs left' mid' (λ i small. same i (omega arith)) h4)

  -- The root that a proof leads to, from its parts.
  root_from_proof-climb :
      (p : Proof) (hi hv mid root : Hash) (path : List Bool)
      → start_key p.existence p.node_aux hi hv ≡ ok mid
      → get_path p.depth hi ≡ ok path
      → climb p.depth path p.notempties p.siblings (length p.siblings) mid ≡ ok root
      → verify_proof root p hi hv ≡ ok true
  unfolding root_from_proof verify_proof
  root_from_proof-climb p hi hv mid root path e1 e2 e3 = rw (e1, e2, e3, bytes_eq_refl root)

module _ ⦃c : Crypto⦄ where
  -- VerifyProof accepts only if the proof leads to the root.
  pub verify_proof-ok :
      (root : Hash) (p : Proof) (hi hv : Hash)
      → verify_proof root p hi hv ≡ ok true
      → root_from_proof p hi hv ≡ ok root
  unfolding verify_proof verdict
  verify_proof-ok root p hi hv h = elim (Result-cases (root_from_proof p hi hv)) [
    | inl (r, climbed) ↦ climbed ∙ ap ok (sym (bytes_eq→eq root r (ok-injective (rw climbed at h))))
    | inr (inl (x, failed)) ↦ absurd (cc (ok-injective (rw failed at h)))
    | inr (inr failed) ↦ cc (rw failed at h)
  ]

empty_bitmap-ClearFrom : ClearFrom 0 (replicate notempties_len 0)
empty_bitmap-ClearFrom = record {
  size = refl;
  shape = replicate-IsBytes 30;
  clear = λ i low small. test_bit_big_endian-replicate 30 i (omega arith);
}

module _ ⦃c : Crypto⦄ ⦃db : Storage⦄ where
  -- A verdict on the index `hi` that agrees with GetDataByIndex and verifies against `root`; a
  -- proof of absence does so whatever value it is checked with.
  abbrev pub Correct : MerkleTree → Hash → Proof → Type 0
  Correct mt hi p =
      ((p.existence ≡ true)
        × (e : Entry) × (hv : Hash) × (get_data_by_index mt hi ≡ ok e.elems)
        × (h_value e ≡ ok hv)
        × (verify_proof mt.root_key p hi hv ≡ ok true))
      ⊎ ((p.existence ≡ false)
          × (get_data_by_index mt hi ≡ err entry_index_not_found)
          × ((hv : Hash) → verify_proof mt.root_key p hi hv ≡ ok true))

  Generated-Correct :
      (mt : MerkleTree) (t : Tree) (hi : Hash) (p : Proof) (path : List Bool)
      → Holds mt t
      → get_path mt.max_levels hi ≡ ok path
      → Generated hi 0 mt.max_levels path path mt.root_key t (replicate notempties_len 0) [] p
      → Correct mt hi p
  unfolding climb
  Generated-Correct mt t hi p path held bits g =
      let short : get_path p.depth hi ≡ ok (take p.depth path) =
        get_path-take p.depth mt.max_levels hi (omega (arith, g.shallow)) bits in
      let up : climb p.depth (take p.depth path) p.notempties p.siblings (length p.siblings) g.mid
          ≡ ok mt.root_key =
        climb-path p.depth path (take p.depth path) p.notempties p.siblings _ g.mid
          (λ i small. get_elem?-take p.depth i path small) g.climbs in
      elim g.says [
        | inl (yes_it, e, hv, found, value, start) ↦ inl (
          yes_it,
          e,
          hv,
          get_data_by_index-find mt t hi held.represents ∙ rw bits found,
          value,
          root_from_proof-climb p hi hv g.mid mt.root_key _ start short up,
        )
        | inr (not_it, found, start) ↦ inr (
          not_it,
          get_data_by_index-find mt t hi held.represents ∙ rw bits found,
          λ hv. root_from_proof-climb p hi hv g.mid mt.root_key _ (start hv) short up,
        )
      ]

  -- On a tree of at most 240 levels whose nodes represent an abstract tree, a proof that
  -- GenerateProof returns for the root is one of existence exactly if GetDataByIndex finds the
  -- index, and VerifyProof accepts it: with the value hash of the entry that is found, or with any
  -- value hash for a proof of absence.
  pub generate_proof-Correct :
      (mt : MerkleTree) (t : Tree) (hi : Hash) (p : Proof)
      → Holds mt t
      → mt.max_levels ≤ 240
      → generate_proof mt hi none ≡ ok p
      → Correct mt hi p
  unfolding generate_proof
  generate_proof-Correct mt t hi p held low h =
      let (path, bits, h1) = >>=-eq-ok (get_path mt.max_levels hi) _ h in
      let top : 0 + mt.max_levels ≡ mt.max_levels = omega arith in
      let g =
        generate_loop-Generated mt.storage hi mt.max_levels 0 path path mt.root_key t
          (replicate notempties_len 0) [] held.represents refl
          (length-get_path mt.max_levels hi bits) (omega arith) empty_bitmap-ClearFrom h1 in
      Generated-Correct mt t hi p path held bits (rw top at g)
