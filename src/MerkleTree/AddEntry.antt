-- ===== src/MerkleTree/AddEntry.antt =====
-- AddEntry on a storage that represents a tree: the new state represents the tree with the entry
-- inserted, so that GetDataByIndex finds the entry and everything that it found before.
use go_iden3_core.Prelude.{
  ℕ, ◌≡◌, ◌≢◌, ◌⊎◌, refl, sym, ap, ◌∙◌, Bool, true, inl, inr, List, ◌∷◌, arith, length, bytes_eq_ne,
  bytes_eq_refl, Bool-cases,
}
use go_iden3_core.Result.{Result, ok, ◌>>=◌, >>=-eq-ok, Result-cases}
use go_iden3_core.Common.{Bytes}
use go_iden3_core.Crypto.{Crypto, IsHash}
use go_iden3_core.Db.{Storage, IsStorage}
use go_iden3_core.MerkleTree.Elem.{
  Hash, Entry, IsElem, IsData, get_path, h_index, check_entry_in_field,
}
use go_iden3_core.MerkleTree.Elem.Path.{length-get_path}
use go_iden3_core.MerkleTree.Nodes.{Node, key, value, db_entry_type_root}
use go_iden3_core.MerkleTree.{
  MerkleTree, get_node, add_entry, add_checked, new_root, commit_root, db_insert, root_node_value,
  get_data_by_index,
}
use go_iden3_core.MerkleTree.Spec.{Tree, empty, leaf, middle, Represents, find, insert}
use go_iden3_core.MerkleTree.Spec.FindInsert.{find-insert_self, find-insert_other}
use go_iden3_core.MerkleTree.Insert.{Extends, AddsNodes, Represents-Extends, Grown, add_leaf-insert}
use go_iden3_core.MerkleTree.Lookup.{get_data_by_index-find}

-- Two readers agree on the keys of nodes, which are 32 bytes.
abbrev pub Agrees : (Bytes → Result Bytes) → (Bytes → Result Bytes) → Type 0
Agrees read read' = (k : Bytes) → length k ≡ 32 → read' k ≡ read k

get_node-Agrees :
    (read read' : Bytes → Result Bytes) (k : Hash)
    → Agrees read read'
    → length k ≡ 32
    → get_node read' k ≡ get_node read k
unfolding get_node
get_node-Agrees read read' k agrees len = rw (agrees k len)

module _ ⦃c : Crypto⦄ where
  pub Represents-Agrees :
      (read read' : Bytes → Result Bytes)
      → Agrees read read'
      → (t : Tree) (k : Hash) → length k ≡ 32
      → Represents read k t
      → Represents read' k t
  Represents-Agrees read read' agrees empty k len h = h
  Represents-Agrees read read' agrees (leaf e) k len h =
      (get_node-Agrees read read' k agrees len ∙ h.0, h.1, h.2)
  Represents-Agrees read read' agrees (middle l r) k len (kl, kr, node, keyed, shape, hl, hr) = (
    kl,
    kr,
    get_node-Agrees read read' k agrees len ∙ node,
    keyed,
    shape,
    Represents-Agrees read read' agrees l kl shape.0.0 hl,
    Represents-Agrees read read' agrees r kr shape.1.0 hr,
  )

  find_at_path :
      (levels : ℕ) (hi : Hash) (path : List Bool) (t : Tree)
      → get_path levels hi ≡ ok path
      → (get_path levels hi >>= λ p. find hi p t) ≡ find hi path t
  find_at_path levels hi path t e = rw e

  find_kept :
      (levels : ℕ) (e : Entry) (hi h : Hash) (path : List Bool) (t t' : Tree)
      → h_index e ≡ ok hi
      → get_path levels hi ≡ ok path
      → insert levels e 0 path t ≡ ok t'
      → h ≢ hi
      → (get_path levels h >>= λ p. find h p t') ≡ (get_path levels h >>= λ p. find h p t)
  find_kept levels e hi h path t t' eh bits ins ne = elim (Result-cases (get_path levels h)) [
    | inl (p, bits_h) ↦ rw bits_h (
        find-insert_other levels e 0 path p p t eh ne bits_h refl
          (length-get_path levels hi bits ∙ sym (length-get_path levels h bits_h)) ins)
    | inr (inl (x, failed)) ↦ rw failed
    | inr (inr failed) ↦ rw failed
  ]

module _ ⦃c : Crypto⦄ ⦃db : Storage⦄ where
  -- The storage of `mt` has the nodes of `t` under the root key.
  pub record Holds (mt : MerkleTree) (t : Tree) : Type 0 where
    pub represents : Represents (db.get mt.storage) mt.root_key t
    pub root_elem : IsElem mt.root_key

  -- The root of `mt` has moved to a tree with `e` inserted along the path of its index, and the
  -- root record names the new root. Every other key of the storage keeps its value, so that the
  -- nodes of the trees before are kept, and what is found at another key was found before or is a
  -- node under the node's own key.
  pub record Inserted (mt mt' : MerkleTree) (e : Entry) (t t' : Tree) : Type 0 where
    pub hi : Hash
    pub path : List Bool
    pub hi_eq : h_index e ≡ ok hi
    pub path_eq : get_path mt.max_levels hi ≡ ok path
    pub inserted : insert mt.max_levels e 0 path t ≡ ok t'
    pub holds : Holds mt' t'
    pub levels : mt'.max_levels ≡ mt.max_levels
    pub still_writable : mt'.writable ≡ mt.writable
    pub keeps_old : Represents (db.get mt'.storage) mt.root_key t
    pub root_record : db.get mt'.storage root_node_value ≡ ok (db_entry_type_root ∷ mt'.root_key)
    pub keeps :
        (k v : Bytes)
        → k ≢ root_node_value
        → db.get mt.storage k ≡ ok v
        → db.get mt'.storage k ≡ ok v
    pub only_nodes :
        (k v : Bytes)
        → k ≢ root_node_value
        → db.get mt'.storage k ≡ ok v
        → (db.get mt.storage k ≡ ok v) ⊎ ((n : Node) × (key n ≡ ok k) × (v ≡ value n))

  module _ (hashes : IsHash c) (laws : IsStorage db) where
    commit_root-ok :
        (mt mt' : MerkleTree) (r : db.Tx × Hash)
        → commit_root mt r ≡ (mt', ok tt)
        → (s : db.State) × (db.commit mt.storage
              (db_insert mt.storage r.0 root_node_value db_entry_type_root r.1)
            ≡ ok s)
          × (mt' ≡ record mt { storage = s; root_key = r.1 })
    unfolding commit_root
    commit_root-ok mt mt' (tx, k) h =
        elim (Result-cases
          (db.commit mt.storage (db_insert mt.storage tx root_node_value db_entry_type_root k))) [
            | inl (s, done) ↦ (s, done, cc (rw (done, commit_root) at h))
            | inr (inl (x, failed)) ↦ cc (rw (failed, commit_root) at h)
            | inr (inr failed) ↦ cc (rw (failed, commit_root) at h)
          ]

    -- What is read once the root record is written.
    root_write-get :
        (s s' : db.State) (tx : db.Tx) (k : Hash)
        → db.commit s (db_insert s tx root_node_value db_entry_type_root k) ≡ ok s'
        → (j : Bytes) → j ≢ root_node_value
        → db.get s' j ≡ db.tx_get s tx j
    unfolding db_insert
    root_write-get s s' tx k done j other =
        rw
          (
            laws.get-commit s s' _ j done,
            laws.tx_get-tx_put s tx root_node_value (db_entry_type_root ∷ k) j,
            bytes_eq_ne root_node_value j (λ e. other (sym e)),
          )
          refl

    root_write-record :
        (s s' : db.State) (tx : db.Tx) (k : Hash)
        → db.commit s (db_insert s tx root_node_value db_entry_type_root k) ≡ ok s'
        → db.get s' root_node_value ≡ ok (db_entry_type_root ∷ k)
    unfolding db_insert
    root_write-record s s' tx k done =
        rw
          (
            laws.get-commit s s' _ root_node_value done,
            laws.tx_get-tx_put s tx root_node_value (db_entry_type_root ∷ k) root_node_value,
            bytes_eq_refl root_node_value,
          )
          refl

    root_write-Agrees :
        (s s' : db.State) (tx : db.Tx) (k : Hash)
        → db.commit s (db_insert s tx root_node_value db_entry_type_root k) ≡ ok s'
        → Agrees (db.tx_get s tx) (db.get s')
    root_write-Agrees s s' tx k done j len =
        root_write-get s s' tx k done j
          (λ e. absurd (omega (arith, ap (λ (l : Bytes). length l) e)))

    add_checked-ok :
        (mt mt' : MerkleTree) (e : Entry)
        → add_checked mt e ≡ (mt', ok tt)
        → (r : db.Tx × Hash) × (new_root mt e ≡ ok r) × (commit_root mt r ≡ (mt', ok tt))
    unfolding add_checked
    add_checked-ok mt mt' e h = elim (Result-cases (new_root mt e)) [
      | inl (r, built) ↦ (r, built, rw (built, add_checked) at h)
      | inr (inl (x, failed)) ↦ cc (rw (failed, add_checked) at h)
      | inr (inr failed) ↦ cc (rw (failed, add_checked) at h)
    ]

    add_entry-ok :
        (mt mt' : MerkleTree) (e : Entry)
        → add_entry mt e ≡ (mt', ok tt)
        → (mt.writable ≡ true)
          × (check_entry_in_field e ≡ true)
          × (r : db.Tx × Hash) × (new_root mt e ≡ ok r)
          × (commit_root mt r ≡ (mt', ok tt))
    unfolding add_entry
    add_entry-ok mt mt' e h = elim (Bool-cases mt.writable) [
      | inr ro ↦ cc (rw ro at h)
      | inl w ↦ elim (Bool-cases (check_entry_in_field e)) [
        | inr out ↦ cc (simp (w, out) at h)
        | inl inside ↦
            let (r, built, committed) = add_checked-ok mt mt' e (simp (w, inside) at h) in
            (w, inside, r, built, committed)
      ]
    ]

    new_root-insert :
        (mt : MerkleTree) (e : Entry) (t : Tree) (r : db.Tx × Hash)
        → IsData e.elems
        → Holds mt t
        → new_root mt e ≡ ok r
        → (tx : db.Tx) × (hi : Hash) × (path : List Bool) × (t' : Tree) × (h_index e ≡ ok hi)
          × (get_path mt.max_levels hi ≡ ok path)
          × (insert mt.max_levels e 0 path t ≡ ok t')
          × Grown hashes laws mt.storage tx r t'
          × Extends (db.get mt.storage) (db.tx_get mt.storage r.0)
          × AddsNodes hashes laws (db.get mt.storage) (db.tx_get mt.storage r.0)
    unfolding new_root
    new_root-insert mt e t r shape held h =
        let (tx, started, h1) = >>=-eq-ok (db.new_tx mt.storage) _ h in
        let (hi, eh, h2) = >>=-eq-ok (h_index e) _ h1 in
        let (path, bits, h3) = >>=-eq-ok (get_path mt.max_levels hi) _ h2 in
        let reads : Extends (db.get mt.storage) (db.tx_get mt.storage tx) =
          λ k v found. laws.tx_get-new_tx mt.storage tx k started ∙ found in
        let (t', ins, g) =
          add_leaf-insert hashes laws mt tx e mt.max_levels 0 path path t mt.root_key shape reads
            held.represents refl (length-get_path mt.max_levels hi bits) h3 in
        let adds : AddsNodes hashes laws (db.get mt.storage) (db.tx_get mt.storage r.0) =
          λ k v found. elim (g.adds k v found) [
            | inl before ↦ inl (sym (laws.tx_get-new_tx mt.storage tx k started) ∙ before)
            | inr new ↦ inr new
          ] in
        (tx, hi, path, t', eh, bits, ins, g, λ k v found. g.extends k v (reads k v found), adds)

    -- If the storage has the nodes of a tree under the root key, the hash and the storage keep
    -- their laws, the entry has eight 32-byte elements, and AddEntry returns no error, then the
    -- new state holds the tree with the entry inserted along the path of its index, each node
    -- under its own key, and the root record names the new root; every other key of the storage
    -- keeps its value, so that the old tree is still under the old root key, and what is found at
    -- another key was found before or is a node under the node's own key; the bound on the levels
    -- and the permission to write stay.
    pub add_entry-insert :
        (mt mt' : MerkleTree) (e : Entry) (t : Tree)
        → IsData e.elems
        → Holds mt t
        → add_entry mt e ≡ (mt', ok tt)
        → (t' : Tree) × Inserted mt mt' e t t'
    add_entry-insert mt mt' e t shape held h =
        let (w, inside, r, built, committed) = add_entry-ok mt mt' e h in
        let (tx, hi, path, t', eh, bits, ins, g, ext, adds) =
          new_root-insert mt e t r shape held built in
        let (s, done, eq) = commit_root-ok mt mt' r committed in
        let agrees = root_write-Agrees mt.storage s r.0 r.1 done in
        (
          t',
          rw eq (record {
            hi = hi;
            path = path;
            hi_eq = eh;
            path_eq = bits;
            inserted = ins;
            holds = record {
              represents = Represents-Agrees _ _ agrees t' r.1 g.elem.0 g.holds;
              root_elem = g.elem;
            };
            levels = refl;
            still_writable = refl;
            keeps_old =
                Represents-Agrees _ _ agrees t mt.root_key held.root_elem.0
                  (Represents-Extends _ _ ext t mt.root_key held.represents);
            root_record = root_write-record mt.storage s r.0 r.1 done;
            keeps =
                λ k v other found. root_write-get mt.storage s r.0 r.1 done k other ∙ ext k v found;
            only_nodes = λ k v other found.
                adds k v (sym (root_write-get mt.storage s r.0 r.1 done k other) ∙ found);
          }),
        )

    -- If the storage has the nodes of a tree under the root key, the hash and the storage keep
    -- their laws, the entry has eight 32-byte elements, and AddEntry returns no error, then
    -- GetDataByIndex at the entry's index hash returns the entry's data.
    pub get_data_by_index-add_entry_self :
        (mt mt' : MerkleTree) (e : Entry) (t : Tree) (hi : Hash)
        → IsData e.elems
        → Holds mt t
        → h_index e ≡ ok hi
        → add_entry mt e ≡ (mt', ok tt)
        → get_data_by_index mt' hi ≡ ok e.elems
    get_data_by_index-add_entry_self mt mt' e t hi shape held eh done =
        let (t', at) = add_entry-insert mt mt' e t shape held done in
        let same : at.hi ≡ hi = cc (at.hi_eq, eh) in
        get_data_by_index-find mt' t' hi at.holds.represents
        ∙ rw at.levels (
            find_at_path mt.max_levels hi at.path t' (rw same at at.path_eq)
            ∙ find-insert_self mt.max_levels e 0 at.path t eh at.inserted)

    -- If the storage has the nodes of a tree under the root key, the hash and the storage keep
    -- their laws, the entry has eight 32-byte elements, and AddEntry returns no error, then
    -- GetDataByIndex returns at every other index hash what it returned before, an error included.
    pub get_data_by_index-add_entry_other :
        (mt mt' : MerkleTree) (e : Entry) (t : Tree) (hi h : Hash)
        → IsData e.elems
        → Holds mt t
        → h_index e ≡ ok hi
        → add_entry mt e ≡ (mt', ok tt)
        → h ≢ hi
        → get_data_by_index mt' h ≡ get_data_by_index mt h
    get_data_by_index-add_entry_other mt mt' e t hi h shape held eh done ne =
        let (t', at) = add_entry-insert mt mt' e t shape held done in
        let same : at.hi ≡ hi = cc (at.hi_eq, eh) in
        get_data_by_index-find mt' t' h at.holds.represents
        ∙ rw at.levels
            (find_kept mt.max_levels e hi h at.path t t' eh (rw same at at.path_eq) at.inserted ne)
        ∙ sym (get_data_by_index-find mt t h held.represents)
