-- ===== src/MerkleTree/Proof/Completeness.antt =====
-- GenerateProof tells whether the index is in the tree, and RootFromProof leads from its proof back
-- to the root: the proof verifies.
use go_iden3_core.Prelude.{
  ℕ, zero, suc, ◌+◌, ◌≤◌, ◌<◌, ◌≡◌, ◌⊎◌, refl, sym, ap, ◌∙◌, inl, inr, Bool, true, false, none,
  some, List, [], ◌∷◌, ◌++◌, arith, length, drop, drop-eq_cons, if◌then◌else◌, bytes_eq,
  bytes_eq→eq, Bool-cases, get_elem?,
}
use mathlib.Core.Path.{subst}
use mathlib.Core.List.{append-nil, append_assoc}
use go_iden3_core.Result.{ok, err, entry_index_not_found, ok-injective, >>=-eq-ok}
use go_iden3_core.Common.{Bytes, test_bit_big_endian}
use go_iden3_core.Crypto.{Crypto}
use go_iden3_core.Db.{Storage}
use go_iden3_core.MerkleTree.Elem.{Hash, Entry, hi_hv, h_index, h_value, leaf_key}
use go_iden3_core.MerkleTree.Nodes.{key}
use go_iden3_core.MerkleTree.Nodes as N
use go_iden3_core.MerkleTree.{child, middle_at}
use go_iden3_core.MerkleTree.Spec.{Tree, empty, leaf, middle, Represents, side, find}
use go_iden3_core.MerkleTree.Lookup.{get_node-hash_zero, side-Represents}
use go_iden3_core.MerkleTree.Proof.{
  Proof, note_sibling, generate_loop, climb, next_sibling, start_key,
}
use go_iden3_core.MerkleTree.Proof.Sibling.{ClearFrom, Noted, note_sibling-Noted}

module _ ⦃c : Crypto⦄ where
  -- One level of RootFromProof, from the facts about that level.
  climb_step :
      (lvl : ℕ) (path : List Bool) (ne : Bytes) (sibs : List Hash) (left left' : ℕ)
      (mid k sib : Hash) (bit b : Bool)
      → test_bit_big_endian ne lvl ≡ ok bit
      → next_sibling bit sibs left ≡ ok (sib, left')
      → get_elem? path lvl ≡ some b
      → key (middle_at b mid sib) ≡ ok k
      → climb (suc lvl) path ne sibs left mid ≡ climb lvl path ne sibs left' k
  unfolding climb
  climb_step lvl path ne sibs left left' mid k sib bit b p q r s = rw (p, q, r, s)

  middle_at-child :
      (b : Bool) (kl kr : Hash) → middle_at b (child b kl kr) (child b kr kl) ≡ N.middle kl kr
  middle_at-child true kl kr = refl
  middle_at-child false kl kr = refl

  -- What a proof says of an index: it is in the tree with these data, or it is not; and the key
  -- from which the proof climbs, whatever value a proof of absence is checked against.
  abbrev pub Says : Hash → List Bool → Tree → Proof → Hash → Type 0
  Says hi path t p mid =
      ((p.existence ≡ true)
        × (e : Entry) × (hv : Hash) × (find hi path t ≡ ok e.elems)
        × (h_value e ≡ ok hv)
        × (start_key p.existence p.node_aux hi hv ≡ ok mid))
      ⊎ ((p.existence ≡ false)
          × (find hi path t ≡ err entry_index_not_found)
          × ((hv : Hash) → start_key p.existence p.node_aux hi hv ≡ ok mid))

  -- The part of a generated proof at and below level `lvl`, which climbs from `mid` to `k`.
  pub record Generated (hi : Hash) (lvl top : ℕ) (full path : List Bool) (k : Hash) (t : Tree)
      (ne : Bytes) (sibs : List Hash) (p : Proof) : Type 0 where
    pub deep : lvl ≤ p.depth
    pub shallow : p.depth < top
    pub below : (i : ℕ) → i < lvl → test_bit_big_endian p.notempties i ≡ test_bit_big_endian ne i
    pub clear : ClearFrom p.depth p.notempties
    pub more : List Hash
    pub prefix : p.siblings ≡ sibs ++ more
    pub mid : Hash
    pub says : Says hi path t p mid
    pub climbs :
        climb p.depth full p.notempties p.siblings (length p.siblings) mid
        ≡ climb lvl full p.notempties p.siblings (length sibs) k

module _ ⦃c : Crypto⦄ where
  pub hi_hv-inv :
      (e : Entry) {hi hv : Hash} → hi_hv e ≡ ok (hi, hv) → (h_index e ≡ ok hi) × (h_value e ≡ ok hv)
  unfolding hi_hv
  hi_hv-inv e h =
      let (hi', p, h1) = >>=-eq-ok (h_index e) _ h in
      let (hv', q, h2) = >>=-eq-ok (h_value e) _ h1 in (cc (p, h2), cc (q, h2))

  leaf_key-key :
      (e : Entry) {hi hv k : Hash}
      → hi_hv e ≡ ok (hi, hv)
      → key (N.leaf e) ≡ ok k
      → leaf_key hi hv ≡ ok k
  unfolding key
  leaf_key-key e hashed keyed = rw hashed at keyed

  abbrev leaf_proof : Bool → Hash → Hash → ℕ → Bytes → List Hash → Proof
  leaf_proof found nhi nhv lvl ne sibs = record {
    existence = found;
    depth = lvl;
    notempties = ne;
    siblings = sibs;
    node_aux = if found then none else some (record { h_index = nhi; h_value = nhv });
  }

  -- What GenerateProof says at a leaf.
  leaf_proof-Says :
      (hi nhi nhv k : Hash) (b : Bool) (path : List Bool) (e : Entry) (lvl : ℕ) (ne : Bytes)
      (sibs : List Hash)
      → hi_hv e ≡ ok (nhi, nhv)
      → key (N.leaf e) ≡ ok k
      → Says hi (b ∷ path) (leaf e) (leaf_proof (bytes_eq hi nhi) nhi nhv lvl ne sibs) k
  unfolding start_key find
  leaf_proof-Says hi nhi nhv k b path e lvl ne sibs hashed keyed =
      let (p, q) = hi_hv-inv e hashed in
      elim (Bool-cases (bytes_eq hi nhi)) [
        | inl same ↦ inl (
          same,
          e,
          nhv,
          rw (p, same),
          q,
          rw (same, bytes_eq→eq hi nhi same) (leaf_key-key e hashed keyed),
        )
        | inr other ↦
            inr (
              other,
              rw (p, other),
              λ hv. rw (other, start_key, other) (leaf_key-key e hashed keyed),
            )
      ]

  -- A proof that ends at this level.
  ended :
      (hi : Hash) (top : ℕ) (full path : List Bool) (k : Hash) (t : Tree) (p : Proof)
      → ClearFrom p.depth p.notempties
      → p.depth < top
      → Says hi path t p k
      → Generated hi p.depth top full path k t p.notempties p.siblings p
  ended hi top full path k t p clear room says = record {
    deep = omega arith;
    shallow = room;
    below = λ i h. refl;
    clear = clear;
    more = [];
    prefix = sym (append-nil p.siblings);
    mid = k;
    says = says;
    climbs = refl;
  }

  Says-middle :
      (hi : Hash) (b : Bool) (path : List Bool) (l r : Tree) (p : Proof) (mid : Hash)
      → Says hi path (side b l r) p mid
      → Says hi (b ∷ path) (middle l r) p mid
  unfolding find
  Says-middle hi b path l r p mid says = says

  -- A level that is added above the levels that were generated.
  extended :
      (hi : Hash) (lvl top : ℕ) (full path : List Bool) (b : Bool) (kl kr k : Hash) (l r : Tree)
      (ne ne' : Bytes) (sibs sibs' : List Hash) (p : Proof)
      → get_elem? full lvl ≡ some b
      → key (N.middle kl kr) ≡ ok k
      → Noted (child b kr kl) lvl ne sibs ne' sibs'
      → Generated hi (suc lvl) top full path (child b kl kr) (side b l r) ne' sibs' p
      → Generated hi lvl top full (b ∷ path) k (middle l r) ne sibs p
  extended hi lvl top full path b kl kr k l r ne ne' sibs sibs' p gp keyed n g = record {
    deep = omega (arith, g.deep);
    shallow = g.shallow;
    below = λ i h. g.below i (omega arith) ∙ n.below i h;
    clear = g.clear;
    more = n.added ++ g.more;
    prefix = g.prefix ∙ ap (λ x. x ++ g.more) n.appended ∙ append_assoc sibs n.added g.more;
    mid = g.mid;
    says = Says-middle hi b path l r p g.mid g.says;
    climbs =
        g.climbs
        ∙ climb_step lvl full p.notempties p.siblings (length sibs') (length sibs) (child b kl kr) k
            (child b kr kl) n.bit b (g.below lvl (omega arith) ∙ n.bit_eq)
            (ap (λ x. next_sibling n.bit x (length sibs')) g.prefix ∙ n.next g.more) gp
            (ap key (middle_at-child b kl kr) ∙ keyed);
  }

module _ ⦃c : Crypto⦄ ⦃db : Storage⦄ where
  pub generate_loop-Generated :
      (s : db.State) (hi : Hash) (rest lvl : ℕ) (full path : List Bool) (k : Hash) (t : Tree)
      (ne : Bytes) (sibs : List Hash) {p : Proof}
      → Represents (db.get s) k t
      → drop lvl full ≡ path
      → length path ≡ rest
      → lvl + rest ≤ 240
      → ClearFrom lvl ne
      → generate_loop s hi rest lvl full k ne sibs ≡ ok p
      → Generated hi lvl (lvl + rest) full path k t ne sibs p
  unfolding generate_loop find start_key
  generate_loop-Generated s hi zero lvl full path k t ne sibs held dp len low clear h = cc
  generate_loop-Generated s hi (suc rest) lvl full [] k t ne sibs held dp len low clear h =
      absurd (omega arith)
  generate_loop-Generated s hi (suc rest) lvl full (b ∷ path) k empty ne sibs {p} held dp len low
        clear h =
      subst (Generated hi lvl (lvl + suc rest) full (b ∷ path) k empty ne sibs)
        (ok-injective (rw (held, get_node-hash_zero) at h))
        (ended hi _ full (b ∷ path) k empty
          (record {
            existence = false;
            depth = lvl;
            notempties = ne;
            siblings = sibs;
            node_aux = none;
          })
          clear (omega arith) (inr (refl, refl, λ hv. ap ok (sym held))))
  generate_loop-Generated s hi (suc rest) lvl full (b ∷ path) k (leaf e) ne sibs held dp len low
        clear h =
      let ((nhi, nhv), hashed, eq) = >>=-eq-ok (hi_hv e) _ (rw held.0 at h) in
      subst (Generated hi lvl (lvl + suc rest) full (b ∷ path) k (leaf e) ne sibs) (ok-injective eq)
        (ended hi _ full (b ∷ path) k (leaf e) (leaf_proof (bytes_eq hi nhi) nhi nhv lvl ne sibs)
          clear (omega arith) (leaf_proof-Says hi nhi nhv k b path e lvl ne sibs hashed held.1))
  generate_loop-Generated s hi (suc rest) lvl full (b ∷ path) k (middle l r) ne sibs
        (kl, kr, node, keyed, _, hl, hr) dp len low clear h =
      let (gp, dp') = drop-eq_cons lvl full dp in
      let ((ne', sibs'), noted, deeper) =
        >>=-eq-ok (note_sibling (child b kr kl) lvl ne sibs) _ (rw (node, gp) at h) in
      let n = note_sibling-Noted (child b kr kl) lvl ne sibs clear (omega arith) noted in
      let g =
        generate_loop-Generated s hi rest (suc lvl) full path (child b kl kr) (side b l r) ne' sibs'
          (side-Represents _ b kl kr l r hl hr) dp' (omega arith) (omega arith) n.clear deeper in
      let top : suc lvl + rest ≡ lvl + suc rest = omega arith in
      extended hi lvl _ full path b kl kr k l r ne ne' sibs sibs' _ gp keyed n (rw top at g)
