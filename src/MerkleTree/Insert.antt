-- ===== src/MerkleTree/Insert.antt =====
-- addNode, pushLeaf and addLeaf build, in the transaction, the nodes of the tree that the abstract
-- insertion gives, and overwrite no node.
use go_iden3_core.Prelude.{
  ℕ, zero, suc, ◌≡◌, ◌≢◌, ◌⊎◌, refl, ap, ◌∙◌, sym, Bool, true, false, inl, inr, List, [], ◌∷◌,
  length, drop, drop-eq_cons, drop-eq_nil, bytes_eq, bytes_eq_ne, bytes_eq_refl, bytes_eq→eq,
  Bool-cases, arith,
}
use go_iden3_core.Result.{Result, ok, ok-injective, >>=-eq-ok, Result-cases}
use go_iden3_core.Common.{Bytes}
use go_iden3_core.BigInt.{replicate-IsBytes}
use go_iden3_core.Crypto.{Crypto, IsHash}
use go_iden3_core.Db.{Storage, IsStorage}
use go_iden3_core.MerkleTree.Elem.{Hash, Entry, IsElem, IsData, hash_zero, get_path, h_index}
use go_iden3_core.MerkleTree.Elem.Shape.{IsDigest-IsElem, IsDigest-ne-hash_zero}
use go_iden3_core.MerkleTree.Nodes.{Node, IsNode, key, value, new_node_from_bytes}
use go_iden3_core.MerkleTree.Nodes as N
use go_iden3_core.MerkleTree.Nodes.RoundTrip.{key-IsDigest, reparsed, new_node_from_bytes-value}
use go_iden3_core.MerkleTree.{
  MerkleTree, get_node, add_node, put_fresh, push_leaf, add_leaf, add_at_leaf, is_empty, same_bit,
  middle_at, child,
}
use go_iden3_core.MerkleTree.Spec.{Tree, Represents, push, insert, side, middle_of}
use go_iden3_core.MerkleTree.Spec as Spec
use go_iden3_core.MerkleTree.Lookup.{get_node-hash_zero, side-Represents}

-- What one reader finds, the other finds.
abbrev pub Extends : (Bytes → Result Bytes) → (Bytes → Result Bytes) → Type 0
Extends read read' = (k v : Bytes) → read k ≡ ok v → read' k ≡ ok v

get_node-Extends :
    (read read' : Bytes → Result Bytes) (k : Hash) (n : Node)
    → Extends read read'
    → get_node read k ≡ ok n
    → get_node read' k ≡ ok n
unfolding get_node
get_node-Extends read read' k n ext e = elim (Bool-cases (bytes_eq k hash_zero)) [
  | inl z ↦ rw z (rw z at e)
  | inr nz ↦
      let (v, found, parsed) = >>=-eq-ok (read k) new_node_from_bytes (rw nz at e) in
      rw (nz, ext k v found) parsed
]

module _ ⦃c : Crypto⦄ where
  pub Represents-Extends :
      (read read' : Bytes → Result Bytes)
      → Extends read read'
      → (t : Tree) (k : Hash) → Represents read k t
      → Represents read' k t
  Represents-Extends read read' ext Spec.empty k h = h
  Represents-Extends read read' ext (Spec.leaf e) k h =
      (get_node-Extends read read' k (N.leaf e) ext h.0, h.1, h.2)
  Represents-Extends read read' ext (Spec.middle l r) k (kl, kr, node, keyed, shape, hl, hr) = (
    kl,
    kr,
    get_node-Extends read read' k (N.middle kl kr) ext node,
    keyed,
    shape,
    Represents-Extends read read' ext l kl hl,
    Represents-Extends read read' ext r kr hr,
  )

reparsed-full : (n : Node) → n ≢ N.empty → reparsed n ≡ ok n
reparsed-full (N.middle l r) h = refl
reparsed-full (N.leaf e) h = refl
reparsed-full N.empty h = absurd (h refl)

hash_zero-IsElem : IsElem hash_zero
hash_zero-IsElem = (refl, replicate-IsBytes 32)

module _ ⦃c : Crypto⦄ ⦃db : Storage⦄ (hashes : IsHash c) (laws : IsStorage db) where
  -- What the second reader finds was found by the first, or is a node under the node's own key.
  abbrev pub AddsNodes : (Bytes → Result Bytes) → (Bytes → Result Bytes) → Type 0
  AddsNodes read read' =
      (k v : Bytes)
      → read' k ≡ ok v
      → (read k ≡ ok v) ⊎ ((n : Node) × (key n ≡ ok k) × (v ≡ value n))

  AddsNodes-trans :
      (read read' read'' : Bytes → Result Bytes)
      → AddsNodes read read'
      → AddsNodes read' read''
      → AddsNodes read read''
  AddsNodes-trans read read' read'' first second k v found = elim (second k v found) [
    | inl before ↦ first k v before
    | inr new ↦ inr new
  ]

  tx_put-AddsNodes :
      (s : db.State) (tx : db.Tx) (k : Hash) (n : Node)
      → key n ≡ ok k
      → AddsNodes (db.tx_get s tx) (db.tx_get s (db.tx_put s tx k (value n)))
  tx_put-AddsNodes s tx k n keyed j w found = elim (Bool-cases (bytes_eq k j)) [
    | inl same ↦ inr (
      n,
      keyed ∙ ap ok (bytes_eq→eq k j same),
      sym (ok-injective (simp (laws.tx_get-tx_put s tx k (value n) j, same) at found)),
    )
    | inr other ↦ inl (simp (laws.tx_get-tx_put s tx k (value n) j, other) at found)
  ]

  -- A node that addNode adds can be read at its key, nothing is lost, and only it is new.
  abbrev Added : db.State → db.Tx → db.Tx × Hash → Node → Type 0
  Added s tx r n =
      Extends (db.tx_get s tx) (db.tx_get s r.0)
      × (get_node (db.tx_get s r.0) r.1 ≡ ok n)
      × (key n ≡ ok r.1)
      × AddsNodes (db.tx_get s tx) (db.tx_get s r.0)

  put_fresh-Extends :
      (s : db.State) (tx : db.Tx) (k v : Bytes) {r : db.Tx × Hash}
      → put_fresh s tx k v ≡ ok r
      → (r ≡ (db.tx_put s tx k v, k)) × Extends (db.tx_get s tx) (db.tx_get s (db.tx_put s tx k v))
  unfolding put_fresh
  put_fresh-Extends s tx k v h = elim (Result-cases (db.tx_get s tx k)) [
    | inl (_, old) ↦ cc (rw (old, put_fresh) at h)
    | inr (inl (x, free)) ↦ (
      cc (rw (free, put_fresh) at h),
      λ j w found. elim (Bool-cases (bytes_eq k j)) [
        | inl same ↦ cc (found, free, bytes_eq→eq k j same)
        | inr other ↦ rw (laws.tx_get-tx_put s tx k v j, other) found
      ],
    )
    | inr (inr bad) ↦ cc (rw (bad, put_fresh) at h)
  ]

  get_node-tx_put :
      (s : db.State) (tx : db.Tx) (k : Hash) (n : Node)
      → k ≢ hash_zero
      → IsNode n
      → n ≢ N.empty
      → get_node (db.tx_get s (db.tx_put s tx k (value n))) k ≡ ok n
  unfolding get_node
  get_node-tx_put s tx k n nz shape full =
      rw
        (
          bytes_eq_ne k hash_zero nz,
          laws.tx_get-tx_put s tx k (value n) k,
          bytes_eq_refl k,
          new_node_from_bytes-value n shape,
        )
        (reparsed-full n full)

  add_node-Added :
      (mt : MerkleTree) (tx : db.Tx) (n : Node) {r : db.Tx × Hash}
      → IsNode n
      → n ≢ N.empty
      → is_empty n ≡ false
      → add_node mt tx n ≡ ok r
      → Added mt.storage tx r n
  unfolding add_node
  add_node-Added mt tx n {r} shape full not_empty h = elim (Bool-cases mt.writable) [
    | inl w ↦
        let (k, keyed, put) = >>=-eq-ok (key n) _ (rw (w, not_empty) at h) in
        let (eq, ext) = put_fresh-Extends mt.storage tx k (value n) put in
        let nz = IsDigest-ne-hash_zero hashes (key-IsDigest n keyed full) in
        rw eq (
          ext,
          get_node-tx_put mt.storage tx k n nz shape full,
          keyed,
          tx_put-AddsNodes mt.storage tx k n keyed,
        )
    | inr ro ↦ cc (rw ro at h)
  ]

  -- The transaction holds a tree under a new key, and all that it held; only nodes are new.
  pub record Grown (s : db.State) (tx : db.Tx) (r : db.Tx × Hash) (t : Tree) : Type 0 where
    pub holds : Represents (db.tx_get s r.0) r.1 t
    pub extends : Extends (db.tx_get s tx) (db.tx_get s r.0)
    pub elem : IsElem r.1
    pub adds : AddsNodes (db.tx_get s tx) (db.tx_get s r.0)

  leaf_Grown :
      (mt : MerkleTree) (tx : db.Tx) (e : Entry) {r : db.Tx × Hash}
      → IsData e.elems
      → add_node mt tx (N.leaf e) ≡ ok r
      → Grown mt.storage tx r (Spec.leaf e)
  leaf_Grown mt tx e shape h =
      let (ext, node, keyed, adds) = add_node-Added mt tx (N.leaf e) shape (λ p. cc) refl h in
      record {
        holds = (node, keyed, shape);
        extends = ext;
        elem = IsDigest-IsElem (key-IsDigest (N.leaf e) keyed (λ p. cc));
        adds = adds;
      }

  middle_Grown :
      (mt : MerkleTree) (tx : db.Tx) (b : Bool) (kt ks : Hash) (t sib : Tree) {r : db.Tx × Hash}
      → Represents (db.tx_get mt.storage tx) kt t
      → Represents (db.tx_get mt.storage tx) ks sib
      → IsElem kt
      → IsElem ks
      → add_node mt tx (middle_at b kt ks) ≡ ok r
      → Grown mt.storage tx r (middle_of b t sib)
  middle_Grown mt tx true kt ks t sib ht hs et es h =
      let (ext, node, keyed, adds) =
        add_node-Added mt tx (N.middle ks kt) (es, et) (λ p. cc) refl h in
      record {
        holds = (
          ks,
          kt,
          node,
          keyed,
          (es, et),
          Represents-Extends _ _ ext sib ks hs,
          Represents-Extends _ _ ext t kt ht,
        );
        extends = ext;
        elem = IsDigest-IsElem (key-IsDigest (N.middle ks kt) keyed (λ p. cc));
        adds = adds;
      }
  middle_Grown mt tx false kt ks t sib ht hs et es h =
      let (ext, node, keyed, adds) =
        add_node-Added mt tx (N.middle kt ks) (et, es) (λ p. cc) refl h in
      record {
        holds = (
          kt,
          ks,
          node,
          keyed,
          (et, es),
          Represents-Extends _ _ ext t kt ht,
          Represents-Extends _ _ ext sib ks hs,
        );
        extends = ext;
        elem = IsDigest-IsElem (key-IsDigest (N.middle kt ks) keyed (λ p. cc));
        adds = adds;
      }

  -- What was added to a transaction that had grown.
  Grown-trans :
      {s : db.State} {tx : db.Tx} {d r : db.Tx × Hash} {t t' : Tree}
      → Grown s tx d t
      → Grown s d.0 r t'
      → Grown s tx r t'
  Grown-trans first g = record {
    holds = g.holds;
    extends = λ k v h. g.extends k v (first.extends k v h);
    elem = g.elem;
    adds = AddsNodes-trans _ _ _ first.adds g.adds;
  }

  -- The case of pushLeaf where the paths agree.
  push_deeper :
      (mt : MerkleTree) (tx : db.Tx) (b : Bool) (t : Tree) (d : db.Tx × Hash) {r : db.Tx × Hash}
      → Grown mt.storage tx d t
      → add_node mt d.0 (middle_at b d.1 hash_zero) ≡ ok r
      → Grown mt.storage tx r (middle_of b t Spec.empty)
  push_deeper mt tx b t d g h =
      Grown-trans g
        (middle_Grown mt d.0 b d.1 hash_zero t Spec.empty g.holds refl g.elem hash_zero-IsElem h)

  -- The case of pushLeaf where the paths part.
  push_apart :
      (mt : MerkleTree) (tx : db.Tx) (e o : Entry) (b : Bool) (ke ko : Hash) (d : db.Tx × Hash)
      {r : db.Tx × Hash}
      → IsData e.elems
      → key (N.leaf e) ≡ ok ke
      → Represents (db.tx_get mt.storage tx) ko (Spec.leaf o)
      → add_node mt tx (N.leaf e) ≡ ok d
      → add_node mt d.0 (middle_at b ke ko) ≡ ok r
      → Grown mt.storage tx r (middle_of b (Spec.leaf e) (Spec.leaf o))
  push_apart mt tx e o b ke ko d shape keyed old h h' =
      let g = leaf_Grown mt tx e shape h in
      let same : d.1 ≡ ke = cc (g.holds.1, keyed) in
      Grown-trans g (
        middle_Grown mt d.0 b ke ko (Spec.leaf e) (Spec.leaf o) (rw same at g.holds)
          (Represents-Extends _ _ g.extends (Spec.leaf o) ko old) (rw same at g.elem)
          (IsDigest-IsElem (key-IsDigest (N.leaf o) old.1 (λ p. cc))) h')

  -- pushLeaf builds the tree of `push`.
  push_leaf-push :
      (mt : MerkleTree) (tx : db.Tx) (e o : Entry) (ko : Hash) (rest lvl : ℕ)
      (pn po pn' po' : List Bool) {r : db.Tx × Hash}
      → IsData e.elems
      → Represents (db.tx_get mt.storage tx) ko (Spec.leaf o)
      → drop lvl pn ≡ pn'
      → drop lvl po ≡ po'
      → length pn' ≡ rest
      → push_leaf mt tx (N.leaf e) (N.leaf o) rest lvl pn po ≡ ok r
      → (t : Tree) × (push e o pn' po' ≡ ok t) × Grown mt.storage tx r t
  unfolding push_leaf push
  push_leaf-push mt tx e o ko (suc (suc rest)) lvl pn po (b ∷ b' ∷ pn') (a ∷ po') shape old dn do'
        len h =
      let (gn, dn') = drop-eq_cons lvl pn dn in
      let (go, do'') = drop-eq_cons lvl po do' in
      elim (Bool-cases (same_bit b a)) [
        | inl same ↦
            let (d, deep, added) =
              >>=-eq-ok (push_leaf mt tx (N.leaf e) (N.leaf o) (suc rest) (suc lvl) pn po) _
                (rw (gn, go, same) at h) in
            let (t, pushed, g) =
              push_leaf-push mt tx e o ko (suc rest) (suc lvl) pn po (b' ∷ pn') po' shape old dn'
                do'' (omega arith) deep in
            (middle_of b t Spec.empty, rw (same, pushed), push_deeper mt tx b t d g added)
        | inr apart ↦
            let (ke, new_keyed, h2) =
              >>=-eq-ok (key (N.leaf e)) _ (rw (gn, go, apart, old.1) at h) in
            let (d, added, h3) = >>=-eq-ok (add_node mt tx (N.leaf e)) _ h2 in
            (
              middle_of b (Spec.leaf e) (Spec.leaf o),
              rw apart,
              push_apart mt tx e o b ke ko d shape new_keyed old added h3,
            )
      ]
  push_leaf-push mt tx e o ko (suc (suc rest)) lvl pn po (b ∷ b' ∷ pn') [] shape old dn do' len h =
      cc (rw (drop-eq_nil lvl po do', (drop-eq_cons lvl pn dn).0) at h)
  push_leaf-push mt tx e o ko zero lvl pn po pn' po' shape old dn do' len h = cc
  push_leaf-push mt tx e o ko (suc zero) lvl pn po pn' po' shape old dn do' len h = cc
  push_leaf-push mt tx e o ko (suc (suc rest)) lvl pn po pn' po' shape old dn do' len h =
      absurd (omega arith)

  insert-leaf :
      (levels lvl : ℕ) (e o : Entry) (b : Bool) (path : List Bool) {hi new_hi : Hash}
      {po : List Bool} {t : Tree}
      → h_index o ≡ ok hi
      → h_index e ≡ ok new_hi
      → bytes_eq hi new_hi ≡ false
      → get_path levels hi ≡ ok po
      → push e o (b ∷ path) (drop lvl po) ≡ ok t
      → insert levels e lvl (b ∷ path) (Spec.leaf o) ≡ ok t
  unfolding insert
  insert-leaf levels lvl e o b path p q r s pushed = rw (p, q, r, s) pushed

  child-IsElem : (b : Bool) (kl kr : Hash) → IsElem kl → IsElem kr → IsElem (child b kl kr)
  child-IsElem true kl kr hl hr = hr
  child-IsElem false kl kr hl hr = hl

  -- addLeaf builds the tree of `insert`.
  pub add_leaf-insert :
      (mt : MerkleTree) (tx : db.Tx) (e : Entry) (rest lvl : ℕ) (path path' : List Bool) (t : Tree)
      (k : Hash) {r : db.Tx × Hash}
      → IsData e.elems
      → Extends (db.get mt.storage) (db.tx_get mt.storage tx)
      → Represents (db.get mt.storage) k t
      → drop lvl path ≡ path'
      → length path' ≡ rest
      → add_leaf mt tx e k rest lvl path ≡ ok r
      → (t' : Tree) × (insert mt.max_levels e lvl path' t ≡ ok t') × Grown mt.storage tx r t'
  unfolding add_leaf insert add_at_leaf
  add_leaf-insert mt tx e zero lvl path path' t k shape reads held dp len h = cc
  add_leaf-insert mt tx e (suc rest) lvl path [] t k shape reads held dp len h =
      absurd (omega arith)
  add_leaf-insert mt tx e (suc rest) lvl path (b ∷ path') Spec.empty k shape reads held dp len h =
      (Spec.leaf e, refl, leaf_Grown mt tx e shape (rw (held, get_node-hash_zero) at h))
  add_leaf-insert mt tx e (suc rest) lvl path (b ∷ path') (Spec.leaf o) k shape reads held dp len
        h =
      let (hi, old_hi, h1) = >>=-eq-ok (h_index o) _ (rw held.0 at h) in
      let (new_hi, hi_eq, h2) = >>=-eq-ok (h_index e) _ h1 in
      elim (Bool-cases (bytes_eq hi new_hi)) [
        | inl same ↦ cc (rw same at h2)
        | inr other ↦
            let (po, path_eq, h3) = >>=-eq-ok (get_path mt.max_levels hi) _ (rw other at h2) in
            let (t', pushed, g) =
              push_leaf-push mt tx e o k (suc rest) lvl path po (b ∷ path') (drop lvl po) shape
                (Represents-Extends _ _ reads (Spec.leaf o) k held) dp refl len h3 in
            (t', insert-leaf mt.max_levels lvl e o b path' old_hi hi_eq other path_eq pushed, g)
      ]
  add_leaf-insert mt tx e (suc rest) lvl path (b ∷ path') (Spec.middle l r) k shape reads
        (kl, kr, node, keyed, (el, er), hl, hr) dp len h =
      let (gp, dp') = drop-eq_cons lvl path dp in
      let (d, deep, added) =
        >>=-eq-ok (add_leaf mt tx e (child b kl kr) rest (suc lvl) path) _ (rw (node, gp) at h) in
      let (t', inserted, g) =
        add_leaf-insert mt tx e rest (suc lvl) path path' (side b l r) (child b kl kr) shape reads
          (side-Represents _ b kl kr l r hl hr) dp' (omega arith) deep in
      (
        middle_of b t' (side b r l),
        rw inserted,
        Grown-trans g (
            middle_Grown mt d.0 b d.1 (child b kr kl) t' (side b r l) g.holds
              (Represents-Extends _ _ (λ j v f. g.extends j v (reads j v f)) (side b r l)
                (child b kr kl) (side-Represents _ b kr kl r l hr hl))
              g.elem (child-IsElem b kr kl er el) added),
      )
