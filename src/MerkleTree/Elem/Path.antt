-- ===== src/MerkleTree/Elem/Path.antt =====
-- The path of a hash has as many directions as it was asked for.
use go_iden3_core.Prelude.{take, ap, refl, ◌≤◌, ℕ, zero, suc, ◌≡◌, Bool, List, arith, length}
use go_iden3_core.Result.{ok, >>=-eq-ok, ok-injective}
use go_iden3_core.Common.{test_bit}
use go_iden3_core.MerkleTree.Elem.{Hash, bits_from, get_path}

bits_from-length : (k n : ℕ) (h : Hash) {p : List Bool} → bits_from k n h ≡ ok p → length p ≡ k
unfolding bits_from
bits_from-length zero n h e = cc
bits_from-length (suc k) n h e =
    let (b, _, e1) = >>=-eq-ok (test_bit h n) _ e in
    let (p, bits, e2) = >>=-eq-ok (bits_from k (suc n) h) _ e1 in
    let rest = bits_from-length k (suc n) h bits in ground arith

pub length-get_path :
    (levels : ℕ) (h : Hash) {p : List Bool} → get_path levels h ≡ ok p → length p ≡ levels
unfolding get_path
length-get_path levels h e = bits_from-length levels 0 h e

bits_from-take :
    (m k n : ℕ) (h : Hash) {p : List Bool}
    → m ≤ k
    → bits_from k n h ≡ ok p
    → bits_from m n h ≡ ok (take m p)
unfolding bits_from
bits_from-take zero k n h le e = refl
bits_from-take (suc m) zero n h le e = absurd (omega arith)
bits_from-take (suc m) (suc k) n h {p} le e =
    let (b, bit, e1) = >>=-eq-ok (test_bit h n) _ e in
    let (q, bits, e2) = >>=-eq-ok (bits_from k (suc n) h) _ e1 in
    rw (bit, bits_from-take m k (suc n) h (omega arith) bits)
      (ap (λ (x : List Bool). ok (take (suc m) x)) (ok-injective e2))

-- A shorter path is the beginning of a longer one.
pub get_path-take :
    (m k : ℕ) (h : Hash) {p : List Bool}
    → m ≤ k
    → get_path k h ≡ ok p
    → get_path m h ≡ ok (take m p)
unfolding get_path
get_path-take m k h le e = bits_from-take m k 0 h le e
