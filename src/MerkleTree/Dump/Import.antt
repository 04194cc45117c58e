-- ===== src/MerkleTree/Dump/Import.antt =====
-- ImportTree of what DumpTree wrote gives the same tree in another storage.
use mathlib.Core.Path.{subst}
use mathlib.Core.List.{append_assoc, append-nil}
use go_iden3_core.Prelude.{
  ℕ, zero, suc, ◌≡◌, ◌≤◌, ◌<◌, refl, sym, ap, ◌∙◌, true, false, none, inl, inr, List, [], ◌∷◌, ◌++◌,
  arith, Bool-cases, if◌then◌else◌, length, length-append, All, bytes_eq, bytes_eq→eq,
  bytes_eq_refl, bytes_eq_ne,
}
use go_iden3_core.Result.{Result, ok, err, panic, eof, no_err, ok-injective}
use go_iden3_core.Common.{Bytes, uint16_to_bytes}
use go_iden3_core.BigInt.{copy_into-full, copy_into}
use go_iden3_core.Crypto.{Crypto}
use go_iden3_core.Db.{Storage, IsStorage}
use go_iden3_core.MerkleTree.Elem.{Hash, hash_zero}
use go_iden3_core.MerkleTree.Elem.Shape.{length-elems_bytes_to_bytes}
use go_iden3_core.MerkleTree.Nodes.{Node, IsNode, key, value}
use go_iden3_core.MerkleTree.Nodes as N
use go_iden3_core.MerkleTree.{MerkleTree, get_node, is_empty, root_node_value}
use go_iden3_core.MerkleTree.Spec.{Tree}
use go_iden3_core.MerkleTree.AddEntry.{Holds, Agrees, Represents-Agrees}
use go_iden3_core.MerkleTree.Dump.{
  walk, serialize_kv, deserialize_kv, dump_nodes, dump_tree, walk_from, import_loop, import_root,
  import_tree,
}
use go_iden3_core.MerkleTree.Dump.Serial.{
  serialize_kv-Fits, deserialize_kv-serialize_kv, deserialize_kv-shorter, import_loop-ok,
}
use go_iden3_core.MerkleTree.Dump.Walk.{IsStored, Gives, height, walk-Represents, Represents-walk}

value-le : (n : Node) → IsNode n → length (value n) ≤ 0xffff
unfolding value
value-le (N.middle l r) (hl, hr) = omega (arith, length-append l r, hl.0, hr.0)
value-le (N.leaf e) h = omega (arith, length-elems_bytes_to_bytes e.elems h.1, h.0)
value-le N.empty h = omega arith

module _ ⦃c : Crypto⦄ ⦃db : Storage⦄ where
  -- The nodes are written to a transaction, each under its key.
  put_nodes : db.State → db.Tx → List Node → db.Tx
  put_nodes s tx [] = tx
  put_nodes s tx (n ∷ ns) = elim (if is_empty n then err eof else key n) [
    | ok k ↦ put_nodes s (db.tx_put s tx k (value n)) ns
    | err _ ↦ put_nodes s tx ns
    | panic ↦ put_nodes s tx ns
  ]

  put_nodes-empty :
      (s : db.State) (tx : db.Tx) (n : Node) (ns : List Node)
      → is_empty n ≡ true
      → put_nodes s tx (n ∷ ns) ≡ put_nodes s tx ns
  unfolding put_nodes
  put_nodes-empty s tx n ns e = rw (e, put_nodes) refl

  put_nodes-full :
      (s : db.State) (tx : db.Tx) (n : Node) (ns : List Node) (k : Hash)
      → is_empty n ≡ false
      → key n ≡ ok k
      → put_nodes s tx (n ∷ ns) ≡ put_nodes s (db.tx_put s tx k (value n)) ns
  unfolding put_nodes
  put_nodes-full s tx n ns k e h = rw (e, h, put_nodes) refl

  module _ (laws : IsStorage db) (read : Bytes → Result Bytes) where
    -- What a transaction has for a key stays, since the nodes all come from one storage.
    put_nodes-keeps :
        (s : db.State) (tx : db.Tx) (ns : List Node) (n : Node) (k : Hash)
        → All (IsStored read) ns
        → get_node read k ≡ ok n
        → db.tx_get s tx k ≡ ok (value n)
        → db.tx_get s (put_nodes s tx ns) k ≡ ok (value n)
    unfolding put_nodes
    put_nodes-keeps s tx [] n k stored node has = has
    put_nodes-keeps s tx (m ∷ ns) n k stored node has = elim (Bool-cases (is_empty m)) [
      | inl e ↦ rw (put_nodes-empty s tx m ns e) (put_nodes-keeps s tx ns n k stored.1 node has)
      | inr full ↦
          let (j, keyed, node', _, _) = stored.0 full in
          rw (put_nodes-full s tx m ns j full keyed) (
            put_nodes-keeps s (db.tx_put s tx j (value m)) ns n k stored.1 node
              (laws.tx_get-tx_put s tx j (value m) k ∙ written m j node'))
    ]
      where
        written :
            (m : Node) (j : Hash)
            → get_node read j ≡ ok m
            → (if bytes_eq j k then ok (value m) else db.tx_get s tx k) ≡ ok (value n)
        written m j node' = elim (Bool-cases (bytes_eq j k)) [
          | inl same ↦ rw same (
              ap (λ (x : Node). ok (value x))
                (ok-injective (sym (rw (bytes_eq→eq j k same) at node') ∙ node)))
          | inr other ↦ rw other has
        ]

    put_nodes-Gives :
        (s : db.State) (tx : db.Tx) (ns : List Node)
        → All (IsStored read) ns
        → All (Gives (db.tx_get s (put_nodes s tx ns))) ns
    put_nodes-Gives s tx [] stored = tt
    put_nodes-Gives s tx (n ∷ ns) stored =
        let all = λ (x : db.Tx). All (Gives (db.tx_get s x)) (n ∷ ns) in
        elim (Bool-cases (is_empty n)) [
          | inl e ↦
              subst all (sym (put_nodes-empty s tx n ns e))
                (λ full. cc (rw e at full), put_nodes-Gives s tx ns stored.1)
          | inr full ↦
              let (j, keyed, node, _, _) = stored.0 full in
              let tx' = db.tx_put s tx j (value n) in
              let here : db.tx_get s tx' j ≡ ok (value n) =
                laws.tx_get-tx_put s tx j (value n) j ∙ rw (bytes_eq_refl j) refl in
              let kept = put_nodes-keeps s tx' ns n j stored.1 node here in
              subst all (sym (put_nodes-full s tx n ns j full keyed)) (
                λ _ k e.
                    subst (λ (x : Hash). db.tx_get s (put_nodes s tx' ns) x ≡ ok (value n))
                      (ok-injective (sym keyed ∙ e)) kept,
                put_nodes-Gives s tx' ns stored.1,
              )
        ]

  -- The records of the nodes are read back into a transaction.
  record Dumped (s : db.State) (ns : List Node) : Type 0 where
    pub out : Bytes
    pub dumps : dump_nodes ns ≡ ok out
    pub imports :
        (tx : db.Tx) (fuel : ℕ) (rest : Bytes)
        → length (out ++ rest) < fuel
        → (fuel' : ℕ) × (length rest < fuel')
          × (import_loop fuel s tx (out ++ rest) ≡ import_loop fuel' s (put_nodes s tx ns) rest)

  import_record :
      (s : db.State) (tx : db.Tx) (fuel : ℕ) (k v rest entry : Bytes)
      → serialize_kv k v ≡ ok entry
      → length (entry ++ rest) < fuel
      → (fuel' : ℕ) × (length rest < fuel')
        × (import_loop fuel s tx (entry ++ rest) ≡ import_loop fuel' s (db.tx_put s tx k v) rest)
  import_record s tx zero k v rest entry e small = elim small [ ]
  import_record s tx (suc fuel) k v rest entry e small =
      let read = deserialize_kv-serialize_kv k v rest entry e in
      (
        fuel,
        omega (arith, deserialize_kv-shorter (entry ++ rest) k v rest read),
        import_loop-ok fuel s tx (entry ++ rest) k v rest read,
      )

  dump_nodes-empty :
      (n : Node) (ns : List Node) → is_empty n ≡ true → dump_nodes (n ∷ ns) ≡ dump_nodes ns
  unfolding dump_nodes
  dump_nodes-empty n ns e = rw (e, dump_nodes) refl

  dump_nodes-full :
      (n : Node) (ns : List Node) (k : Hash) (more entry : Bytes)
      → is_empty n ≡ false
      → key n ≡ ok k
      → dump_nodes ns ≡ ok more
      → serialize_kv k (value n) ≡ ok entry
      → dump_nodes (n ∷ ns) ≡ ok (entry ++ more)
  unfolding dump_nodes no_err
  dump_nodes-full n ns k more entry e h hm he = rw (e, h, hm, he, dump_nodes) refl

  dump_nodes-Dumped :
      (read : Bytes → Result Bytes) (s : db.State) (ns : List Node)
      → All (IsStored read) ns
      → Dumped s ns
  unfolding put_nodes dump_nodes
  dump_nodes-Dumped read s [] stored = record {
    out = [];
    dumps = refl;
    imports = λ tx fuel rest small. (fuel, small, refl);
  }
  dump_nodes-Dumped read s (n ∷ ns) stored =
      let d = dump_nodes-Dumped read s ns stored.1 in
      elim (Bool-cases (is_empty n)) [
        | inl e ↦ record {
          out = d.out;
          dumps = dump_nodes-empty n ns e ∙ d.dumps;
          imports = λ tx fuel rest small.
              let (fuel', less, same) = d.imports tx fuel rest small in
              (
                fuel',
                less,
                same
                    ∙ ap (λ (x : db.Tx). import_loop fuel' s x rest)
                        (sym (put_nodes-empty s tx n ns e)),
              );
        }
        | inr full ↦
            let (k, keyed, node, shape, len) = stored.0 full in
            let entry = length k ∷ (uint16_to_bytes (length (value n)) ++ (k ++ value n)) in
            let written : serialize_kv k (value n) ≡ ok entry =
              serialize_kv-Fits k (value n) (omega arith, value-le n shape) in
            record {
              out = entry ++ d.out;
              dumps = dump_nodes-full n ns k d.out entry full keyed d.dumps written;
              imports = λ tx fuel rest small.
                  let (fuel1, less1, same1) =
                    import_record s tx fuel k (value n) (d.out ++ rest) entry written (
                      subst (λ (x : Bytes). length x < fuel) (append_assoc entry d.out rest)
                        small) in
                  let (fuel2, less2, same2) =
                    d.imports (db.tx_put s tx k (value n)) fuel1 rest less1 in
                  (
                    fuel2,
                    less2,
                    ap (import_loop fuel s tx) (append_assoc entry d.out rest)
                        ∙ same1
                        ∙ same2
                        ∙ ap (λ (x : db.Tx). import_loop fuel2 s x rest)
                            (sym (put_nodes-full s tx n ns k full keyed)),
                  );
            }
      ]

  -- ImportTree from the transaction on, where the commit cannot fail.
  import_tree-import_root :
      (mt : MerkleTree) (bs : Bytes) (tx : db.Tx) (k : Hash) (s : db.State)
      → import_root mt bs ≡ ok (tx, k)
      → db.commit mt.storage tx ≡ ok s
      → import_tree mt bs ≡ ok (record mt { storage = s; root_key = k })
  unfolding import_tree
  import_tree-import_root mt bs tx k s e h = rw (e, h) refl

  import_root-import_loop :
      (mt : MerkleTree) (bs v : Bytes) (tx tx' : db.Tx)
      → db.new_tx mt.storage ≡ ok tx
      → import_loop (suc (length bs)) mt.storage tx bs ≡ ok tx'
      → db.tx_get mt.storage tx' root_node_value ≡ ok v
      → import_root mt bs ≡ ok (tx', copy_into hash_zero v)
  unfolding import_root
  import_root-import_loop mt bs v tx tx' e h g = rw (e, h, g) refl

  dump_tree-Dumped :
      (mt : MerkleTree) (fuel : ℕ) (ns : List Node) (out last : Bytes)
      → walk (db.get mt.storage) fuel mt.root_key ≡ ok ns
      → dump_nodes ns ≡ ok out
      → serialize_kv root_node_value mt.root_key ≡ ok last
      → dump_tree fuel mt none ≡ ok (out ++ last)
  unfolding dump_tree walk_from
  dump_tree-Dumped mt fuel ns out last e h g = rw (e, h, g) refl

  import_loop-end :
      (fuel : ℕ) (s : db.State) (tx : db.Tx) → 0 < fuel → import_loop fuel s tx [] ≡ ok tx
  unfolding import_loop deserialize_kv
  import_loop-end zero s tx h = elim h [ ]
  import_loop-end (suc fuel) s tx h = refl

  module _ (laws : IsStorage db) where
    root_put-Agrees :
        (s s' : db.State) (tx : db.Tx) (k : Hash)
        → db.commit s (db.tx_put s tx root_node_value k) ≡ ok s'
        → Agrees (db.tx_get s tx) (db.get s')
    root_put-Agrees s s' tx k done j len =
        rw
          (
            laws.get-commit s s' _ j done,
            laws.tx_get-tx_put s tx root_node_value k j,
            bytes_eq_ne root_node_value j
                (λ e. absurd (omega (arith, ap (λ (l : Bytes). length l) e))),
          )
          refl

    -- If the storage keeps its laws and always starts and commits a transaction, and the nodes
    -- under a tree's root key are those of an abstract tree whose height is below the fuel of the
    -- walk, then DumpTree writes some bytes, ImportTree of them into any tree succeeds, and that
    -- tree then has the same root key and the same abstract tree.
    pub import_tree-dump_tree :
        (starts : (s : db.State) → (tx : db.Tx) × (db.new_tx s ≡ ok tx))
        (commits : (s : db.State) (tx : db.Tx) → (s' : db.State) × (db.commit s tx ≡ ok s'))
        (mt to : MerkleTree) (t : Tree) (fuel : ℕ)
        → Holds mt t
        → height t < fuel
        → (bs : Bytes) × (mt' : MerkleTree) × (dump_tree fuel mt none ≡ ok bs)
          × (import_tree to bs ≡ ok mt')
          × Holds mt' t
          × (mt'.root_key ≡ mt.root_key)
    import_tree-dump_tree starts commits mt to t fuel held small =
        let read = db.get mt.storage in
        let s = to.storage in
        let (tx, started) = starts s in
        let w = walk-Represents read fuel mt.root_key t held.root_elem.0 held.represents small in
        let d = dump_nodes-Dumped read s w.nodes w.stored in
        let written =
          serialize_kv-Fits root_node_value mt.root_key
            (omega arith, omega (arith, held.root_elem)) in
        let last =
          length root_node_value
          ∷ (uint16_to_bytes (length mt.root_key) ++ (root_node_value ++ mt.root_key)) in
        let bs = d.out ++ last in
        let nodes_in = put_nodes s tx w.nodes in
        let all_in = db.tx_put s nodes_in root_node_value mt.root_key in
        let (fuel1, less1, same1) = d.imports tx (suc (length bs)) last (omega arith) in
        let shorter = subst (λ (x : Bytes). length x < fuel1) (sym (append-nil last)) less1 in
        let (fuel2, less2, same2) =
          import_record s nodes_in fuel1 root_node_value mt.root_key [] last written shorter in
        let looped : import_loop (suc (length bs)) s tx bs ≡ ok all_in =
          same1
          ∙ ap (import_loop fuel1 s nodes_in) (sym (append-nil last))
          ∙ same2
          ∙ import_loop-end fuel2 s all_in less2 in
        let root : db.tx_get s all_in root_node_value ≡ ok mt.root_key =
          laws.tx_get-tx_put s nodes_in root_node_value mt.root_key root_node_value
          ∙ rw (bytes_eq_refl root_node_value) refl in
        let (s', done) = commits s all_in in
        let full : copy_into hash_zero mt.root_key ≡ mt.root_key =
          copy_into-full hash_zero mt.root_key (omega (arith, held.root_elem)) in
        let imported =
          import_tree-import_root to bs all_in mt.root_key s'
            (import_root-import_loop to bs mt.root_key tx all_in started looped root
              ∙ ap (λ (k : Hash). ok (all_in, k)) full)
            done in
        let moved =
          Represents-walk read (db.tx_get s nodes_in) fuel mt.root_key t w.nodes held.represents
            w.walks (put_nodes-Gives laws read s tx w.nodes w.stored) in
        (
          bs,
          record to { storage = s'; root_key = mt.root_key },
          dump_tree-Dumped mt fuel w.nodes d.out last w.walks d.dumps written,
          imported,
          record {
            represents =
                Represents-Agrees _ _ (root_put-Agrees s s' nodes_in mt.root_key done) t mt.root_key
                  held.root_elem.0 moved;
            root_elem = held.root_elem;
          },
          refl,
        )
