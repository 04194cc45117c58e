-- ===== src/MerkleTree/Spec/FindInsert.antt =====
-- Look-up after insertion on the abstract tree: the new index has the new data, and every other
-- index has what it had.
use go_iden3_core.Prelude.{
  ℕ, suc, ◌≡◌, ◌≢◌, refl, Bool, true, false, inl, inr, List, [], ◌∷◌, arith, if◌then◌else◌, length,
  drop, bytes_eq, bytes_eq_refl, bytes_eq→eq, bytes_eq_ne, bytes_ne, Bool-cases, drop-eq_cons,
}
use go_iden3_core.Result.{ok, err, entry_index_not_found, >>=-eq-ok}
use go_iden3_core.Crypto.{Crypto}
use go_iden3_core.MerkleTree.Elem.{Hash, Entry, get_path, h_index}
use go_iden3_core.MerkleTree.{same_bit}
use go_iden3_core.MerkleTree.Spec.{Tree, empty, leaf, middle, side, middle_of, find, push, insert}

module _ ⦃c : Crypto⦄ where
  find-middle_of_same :
      (h : Hash) (b : Bool) (path : List Bool) (t s : Tree)
      → find h (b ∷ path) (middle_of b t s) ≡ find h path t
  unfolding find
  find-middle_of_same h true path t s = refl
  find-middle_of_same h false path t s = refl

  find-middle_of_other :
      (h : Hash) (a b : Bool) (path : List Bool) (t s : Tree)
      → same_bit b a ≡ false
      → find h (a ∷ path) (middle_of b t s) ≡ find h path s
  unfolding find
  find-middle_of_other h true true path t s e = cc
  find-middle_of_other h true false path t s e = refl
  find-middle_of_other h false true path t s e = refl
  find-middle_of_other h false false path t s e = cc

  same_bit→eq : (a b : Bool) → same_bit a b ≡ true → a ≡ b
  same_bit→eq a b h = ground arith

  find-leaf :
      (h : Hash) (b : Bool) (path : List Bool) (e : Entry) {he : Hash}
      → h_index e ≡ ok he
      → find h (b ∷ path) (leaf e)
        ≡ (if bytes_eq h he then ok e.elems else err entry_index_not_found)
  unfolding find
  find-leaf h b path e p = rw p

  find-leaf_self :
      (h : Hash) (b : Bool) (path : List Bool) (e : Entry)
      → h_index e ≡ ok h
      → find h (b ∷ path) (leaf e) ≡ ok e.elems
  find-leaf_self h b path e p = rw (find-leaf h b path e p, bytes_eq_refl h)

  find-leaf_other :
      (h : Hash) (path : List Bool) (e : Entry) {he : Hash}
      → h_index e ≡ ok he
      → h ≢ he
      → find h path (leaf e) ≡ err entry_index_not_found
  unfolding find
  find-leaf_other h [] e p ne = refl
  find-leaf_other h (b ∷ path) e {he} p ne = rw (p, bytes_eq_ne h he ne)

  find-empty : (h : Hash) (path : List Bool) → find h path empty ≡ err entry_index_not_found
  unfolding find
  find-empty h [] = refl
  find-empty h (b ∷ path) = refl

  find-push_self :
      (e o : Entry) (pn po : List Bool) {hi : Hash} {t : Tree}
      → h_index e ≡ ok hi
      → push e o pn po ≡ ok t
      → find hi pn t ≡ ok e.elems
  unfolding push
  find-push_self e o (b ∷ b' ∷ pn) (a ∷ po) {hi} eh h = elim (Bool-cases (same_bit b a)) [
    | inl same ↦
        let (t', deep, eq) = >>=-eq-ok (push e o (b' ∷ pn) po) _ (rw same at h) in
        cc
          (find-push_self e o (b' ∷ pn) po eh deep, eq, find-middle_of_same hi b (b' ∷ pn) t' empty)
    | inr apart ↦
        let eq = rw apart at h in
        cc (find-leaf_self hi b' pn e eh, eq, find-middle_of_same hi b (b' ∷ pn) (leaf e) (leaf o))
  ]
  find-push_self e o (b ∷ b' ∷ pn) [] eh h = cc
  find-push_self e o (b ∷ []) po eh h = cc
  find-push_self e o [] po eh h = cc

  -- The leaf that was pushed down is found along its own path.
  find-push_old :
      (e o : Entry) (pn po : List Bool) {ho : Hash} {t : Tree}
      → h_index o ≡ ok ho
      → length pn ≡ length po
      → push e o pn po ≡ ok t
      → find ho po t ≡ ok o.elems
  unfolding push
  find-push_old e o (b ∷ b' ∷ pn) (a ∷ []) oh len h = absurd (omega arith)
  find-push_old e o (b ∷ b' ∷ pn) (a ∷ a' ∷ po) {ho} oh len h = elim (Bool-cases (same_bit b a)) [
    | inl same ↦
        let (t', deep, eq) = >>=-eq-ok (push e o (b' ∷ pn) (a' ∷ po)) _ (rw same at h) in
        cc (
          find-push_old e o (b' ∷ pn) (a' ∷ po) oh (omega arith) deep,
          eq,
          find-middle_of_same ho b (a' ∷ po) t' empty,
          same_bit→eq b a same,
        )
    | inr apart ↦
        let eq = rw apart at h in
        cc (
          find-leaf_self ho a' po o oh,
          eq,
          find-middle_of_other ho a b (a' ∷ po) (leaf e) (leaf o) apart,
        )
  ]
  find-push_old e o (b ∷ b' ∷ pn) [] oh len h = cc
  find-push_old e o (b ∷ []) po oh len h = cc
  find-push_old e o [] po oh len h = cc

  -- No third index is found below the two leaves.
  find-push_none :
      (e o : Entry) (pn po path : List Bool) {he ho h : Hash} {t : Tree}
      → h_index e ≡ ok he
      → h_index o ≡ ok ho
      → h ≢ he
      → h ≢ ho
      → push e o pn po ≡ ok t
      → find h path t ≡ err entry_index_not_found
  unfolding push find
  find-push_none e o pn po [] eh oh new_ne old_ne h = refl
  find-push_none e o (b ∷ b' ∷ pn) (a ∷ po) (d ∷ path) {h = i} eh oh new_ne old_ne h =
      elim (Bool-cases (same_bit b a)) [
        | inl same ↦
            let (t', deep, eq) = >>=-eq-ok (push e o (b' ∷ pn) po) _ (rw same at h) in
            elim (Bool-cases (same_bit b d)) [
              | inl along ↦ cc (
                find-push_none e o (b' ∷ pn) po path eh oh new_ne old_ne deep,
                eq,
                find-middle_of_same i b path t' empty,
                same_bit→eq b d along,
              )
              | inr off ↦ cc (eq, find-middle_of_other i d b path t' empty off, find-empty i path)
            ]
        | inr apart ↦
            let eq = rw apart at h in
            elim (Bool-cases (same_bit b d)) [
              | inl along ↦ cc (
                find-leaf_other i path e eh new_ne,
                eq,
                find-middle_of_same i b path (leaf e) (leaf o),
                same_bit→eq b d along,
              )
              | inr off ↦ cc (
                find-leaf_other i path o oh old_ne,
                eq,
                find-middle_of_other i d b path (leaf e) (leaf o) off,
              )
            ]
      ]
  find-push_none e o (b ∷ b' ∷ pn) [] (d ∷ path) eh oh new_ne old_ne h = cc
  find-push_none e o (b ∷ []) po (d ∷ path) eh oh new_ne old_ne h = cc
  find-push_none e o [] po (d ∷ path) eh oh new_ne old_ne h = cc

  -- Insertion at a leaf, taken apart.
  insert-leaf_inv :
      (levels lvl : ℕ) (e o : Entry) (b : Bool) (path : List Bool) {t : Tree}
      → insert levels e lvl (b ∷ path) (leaf o) ≡ ok t
      → (ho : Hash) × (he : Hash) × (po : List Bool) × (h_index o ≡ ok ho)
        × (h_index e ≡ ok he)
        × (bytes_eq ho he ≡ false)
        × (get_path levels ho ≡ ok po)
        × (push e o (b ∷ path) (drop lvl po) ≡ ok t)
  unfolding insert
  insert-leaf_inv levels lvl e o b path h =
      let (ho, oh, h1) = >>=-eq-ok (h_index o) _ h in
      let (he, eh, h2) = >>=-eq-ok (h_index e) _ h1 in
      elim (Bool-cases (bytes_eq ho he)) [
        | inl same ↦ cc (rw same at h2)
        | inr other ↦
            let (po, bits, h3) = >>=-eq-ok (get_path levels ho) _ (rw other at h2) in
            (ho, he, po, oh, eh, other, bits, h3)
      ]

  -- The inserted data are found at their index.
  pub find-insert_self :
      (levels : ℕ) (e : Entry) (lvl : ℕ) (path : List Bool) (t : Tree) {hi : Hash} {t' : Tree}
      → h_index e ≡ ok hi
      → insert levels e lvl path t ≡ ok t'
      → find hi path t' ≡ ok e.elems
  unfolding insert
  find-insert_self levels e lvl [] t eh h = cc
  find-insert_self levels e lvl (b ∷ path) empty {hi} eh h = cc (h, find-leaf_self hi b path e eh)
  find-insert_self levels e lvl (b ∷ path) (leaf o) eh h =
      let (ho, he, po, _, _, _, _, pushed) = insert-leaf_inv levels lvl e o b path h in
      find-push_self e o (b ∷ path) (drop lvl po) eh pushed
  find-insert_self levels e lvl (b ∷ path) (middle l r) {hi} eh h =
      let (t', deep, eq) = >>=-eq-ok (insert levels e (suc lvl) path (side b l r)) _ h in
      cc (
        find-insert_self levels e (suc lvl) path (side b l r) eh deep,
        eq,
        find-middle_of_same hi b path t' (side b r l),
      )

  find-middle :
      (h : Hash) (d b : Bool) (path : List Bool) (l r t' : Tree)
      → (d ≡ b → find h path t' ≡ find h path (side b l r))
      → find h (d ∷ path) (middle_of b t' (side b r l)) ≡ find h (d ∷ path) (middle l r)
  unfolding find
  find-middle h true true path l r t' same = same refl
  find-middle h true false path l r t' same = refl
  find-middle h false true path l r t' same = refl
  find-middle h false false path l r t' same = same refl

  -- At every other index the same is found, or not found, as before.
  pub find-insert_other :
      (levels : ℕ) (e : Entry) (lvl : ℕ) (path path2 p2 : List Bool) (t : Tree) {he h : Hash}
      {t' : Tree}
      → h_index e ≡ ok he
      → h ≢ he
      → get_path levels h ≡ ok p2
      → drop lvl p2 ≡ path2
      → length path ≡ length path2
      → insert levels e lvl path t ≡ ok t'
      → find h path2 t' ≡ find h path2 t
  unfolding insert
  find-insert_other levels e lvl [] path2 p2 t eh ne bits dp len ins = cc
  find-insert_other levels e lvl (b ∷ path) path2 p2 empty {h = i} eh ne bits dp len ins =
      cc (ins, find-leaf_other i path2 e eh ne, find-empty i path2)
  find-insert_other levels e lvl (b ∷ path) [] p2 t eh ne bits dp len ins = absurd (omega arith)
  find-insert_other levels e lvl (b ∷ path) (d ∷ path2) p2 (leaf o) {he} {h = i} eh ne bits dp len
        ins =
      let (ho, he', po, oh, eh', _, old_bits, pushed) = insert-leaf_inv levels lvl e o b path ins in
      elim (Bool-cases (bytes_eq i ho)) [
        | inl same ↦
            let is_old : i ≡ ho = bytes_eq→eq i ho same in
            let along : drop lvl po ≡ d ∷ path2 = cc (is_old, old_bits, bits, dp) in
            cc (
              is_old,
              find-leaf_self ho d path2 o oh,
              find-push_old e o (b ∷ path) (d ∷ path2) oh len (rw along at pushed),
            )
        | inr other ↦
            let other_ne : i ≢ ho = bytes_ne i ho other in
            cc (
              find-push_none e o (b ∷ path) (drop lvl po) (d ∷ path2) eh oh ne other_ne pushed,
              find-leaf_other i (d ∷ path2) o oh other_ne,
            )
      ]
  find-insert_other levels e lvl (b ∷ path) (d ∷ path2) p2 (middle l r) {h = i} {t'} eh ne bits dp
        len ins =
      let (t1, deep, eq) = >>=-eq-ok (insert levels e (suc lvl) path (side b l r)) _ ins in
      let kept = λ (turn : d ≡ b).
        find-insert_other levels e (suc lvl) path path2 p2 (side b l r) eh ne bits
          (drop-eq_cons lvl p2 dp).1 (omega arith) deep in
      cc (eq, find-middle i d b path2 l r t1 kept)
