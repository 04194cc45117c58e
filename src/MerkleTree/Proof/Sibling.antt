-- ===== src/MerkleTree/Proof/Sibling.antt =====
-- What noting one sibling does to the bitmap and the list, and how RootFromProof reads it again.
use go_iden3_core.Prelude.{
  ℕ, suc, ◌≤◌, ◌<◌, ◌≡◌, refl, sym, ap, ◌∙◌, inl, inr, Bool, true, false, List, [], ◌∷◌, ◌++◌,
  arith, ◌==◌, if◌then◌else◌, length, bytes_eq, bytes_eq→eq, Bool-cases, length-append,
  get_elem?-append_length,
}
use mathlib.Core.Path.{subst}
use mathlib.Core.List.{append-nil, append_assoc}
use go_iden3_core.Result.{ok, >>=-eq-ok}
use go_iden3_core.Common.{Bytes, IsBytes, set_bit_big_endian, test_bit_big_endian}
use go_iden3_core.Common.Bitmap.{set_bit_big_endian_total, test_bit_big_endian-set_bit_big_endian}
use go_iden3_core.MerkleTree.Elem.{Hash, hash_zero}
use go_iden3_core.MerkleTree.Proof.{note_sibling, next_sibling, notempties_len}

-- A bitmap of a proof whose bits from `lvl` on are clear.
pub record ClearFrom (lvl : ℕ) (ne : Bytes) : Type 0 where
  pub size : length ne ≡ notempties_len
  pub shape : IsBytes ne
  pub clear : (i : ℕ) → lvl ≤ i → i < 240 → test_bit_big_endian ne i ≡ ok false

pub record Noted (sib : Hash) (lvl : ℕ) (ne : Bytes) (sibs : List Hash) (ne' : Bytes)
    (sibs' : List Hash) : Type 0 where
  pub clear : ClearFrom (suc lvl) ne'
  pub below : (i : ℕ) → i < lvl → test_bit_big_endian ne' i ≡ test_bit_big_endian ne i
  pub bit : Bool
  pub bit_eq : test_bit_big_endian ne' lvl ≡ ok bit
  pub added : List Hash
  pub appended : sibs' ≡ sibs ++ added
  -- reading the sibling of this level again
  pub next :
      (more : List Hash) → next_sibling bit (sibs' ++ more) (length sibs') ≡ ok (sib, length sibs)

module _ (sib : Hash) (lvl : ℕ) (ne : Bytes) (sibs : List Hash) (c : ClearFrom lvl ne)
    (low : lvl < 240) where
  set_reads :
      {ne' : Bytes} (i : ℕ)
      → set_bit_big_endian ne lvl ≡ ok ne'
      → i < 240
      → test_bit_big_endian ne' i ≡ (if lvl == i then ok true else test_bit_big_endian ne i)
  set_reads i e small = rw e at (
      test_bit_big_endian-set_bit_big_endian ne lvl c.shape (omega (arith, c.size)) i
        (omega (arith, c.size)))

  set_clear : {ne' : Bytes} → set_bit_big_endian ne lvl ≡ ok ne' → ClearFrom (suc lvl) ne'
  set_clear {ne'} e =
      let (ne2, e2, size, shape) =
        set_bit_big_endian_total ne lvl c.shape (omega (arith, c.size)) in
      let same : ne2 ≡ ne' = cc (e, e2) in
      record {
        size = rw same at size ∙ c.size;
        shape = rw same at shape;
        clear = λ i above small. ground (arith, set_reads i e small, c.clear i);
      }

  note_empty_sibling : sib ≡ hash_zero → Noted sib lvl ne sibs ne sibs
  unfolding next_sibling
  note_empty_sibling e = record {
    clear = record { size = c.size; shape = c.shape; clear = λ i above. c.clear i (omega arith) };
    below = λ i h. refl;
    bit = false;
    bit_eq = c.clear lvl (omega arith) low;
    added = [];
    appended = sym (append-nil sibs);
    next = λ more. rw e;
  }

  read_last :
      (more : List Hash)
      → next_sibling true ((sibs ++ sib ∷ []) ++ more) (length (sibs ++ sib ∷ []))
        ≡ ok (sib, length sibs)
  unfolding next_sibling
  read_last more =
      let size : length (sibs ++ sib ∷ []) ≡ suc (length sibs) =
        omega (arith, length-append sibs (sib ∷ [])) in
      rw (size, append_assoc sibs (sib ∷ []) more, get_elem?-append_length sibs more sib)

  note_full_sibling :
      {ne' : Bytes}
      → set_bit_big_endian ne lvl ≡ ok ne'
      → Noted sib lvl ne sibs ne' (sibs ++ sib ∷ [])
  note_full_sibling e = record {
    clear = set_clear e;
    below = λ i h. ground (arith, set_reads i e (omega arith));
    bit = true;
    bit_eq = ground (arith, set_reads lvl e low);
    added = sib ∷ [];
    appended = refl;
    next = read_last;
  }

  -- An empty sibling leaves bitmap and list as they are, another is noted in both.
  pub note_sibling-Noted :
      {ne' : Bytes} {sibs' : List Hash}
      → note_sibling sib lvl ne sibs ≡ ok (ne', sibs')
      → Noted sib lvl ne sibs ne' sibs'
  unfolding note_sibling
  note_sibling-Noted {ne'} {sibs'} e = elim (Bool-cases (bytes_eq sib hash_zero)) [
    | inl none ↦
        let same : ok (ne, sibs) ≡ ok (ne', sibs') = rw none at e in
        let same_ne : ne ≡ ne' = cc same in
        let same_sibs : sibs ≡ sibs' = cc same in
        subst (λ x. Noted sib lvl ne sibs ne' x) same_sibs
          (subst (λ x. Noted sib lvl ne sibs x sibs) same_ne
            (note_empty_sibling (bytes_eq→eq sib hash_zero none)))
    | inr full ↦
        let (ne2, e2, same) = >>=-eq-ok (set_bit_big_endian ne lvl) _ (rw full at e) in
        let same_ne : ne2 ≡ ne' = cc same in
        let same_sibs : sibs ++ sib ∷ [] ≡ sibs' = cc same in
        rw same_sibs at (note_full_sibling (e2 ∙ ap ok same_ne))
  ]
