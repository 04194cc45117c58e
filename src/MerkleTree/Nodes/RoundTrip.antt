-- ===== src/MerkleTree/Nodes/RoundTrip.antt =====
-- Nodes written to the storage and parsed again, and the keys of nodes.
use go_iden3_core.Prelude.{
  ◌≡◌, refl, ◌≢◌, [], ◌∷◌, ◌++◌, arith, length, length-append, take-append_of_length,
  drop-append_of_length, take-all, ==_iff,
}
use go_iden3_core.Result.{Result, ok, err, node_data_bad_size, >>=-eq-ok}
use go_iden3_core.Crypto.{Crypto}
use go_iden3_core.MerkleTree.Elem.{Hash, elems_bytes_to_bytes, elems_from_bytes, hi_hv, leaf_key}
use go_iden3_core.MerkleTree.Elem.Shape.{
  elems_from_bytes-elems_bytes_to_bytes, length-elems_bytes_to_bytes, IsDigest, hash_elems-IsDigest,
  hash_elems_key-IsDigest,
}
use go_iden3_core.MerkleTree.Nodes.{
  Node, middle, leaf, empty, IsNode, new_node_from_bytes, value, key,
}

-- What parsing the stored bytes of a node gives.
abbrev pub reparsed : Node → Result Node
reparsed (middle l r) = ok (middle l r)
reparsed (leaf e) = ok (leaf e)
reparsed empty = err node_data_bad_size

-- NewNodeFromBytes gives back a middle or a leaf node of well-formed elements that Value wrote,
-- and refuses what Value writes for an empty node.
pub new_node_from_bytes-value : (n : Node) → IsNode n → new_node_from_bytes (value n) ≡ reparsed n
unfolding new_node_from_bytes value
new_node_from_bytes-value (middle l r) (hl, hr) =
    rw
      (
        (==_iff (length (l ++ r)) 64).1 (omega (arith, length-append l r, hl.0, hr.0)),
        take-append_of_length 32 l r hl.0,
        drop-append_of_length 32 l r hl.0,
        take-all 32 r (omega (arith, hr.0)),
      )
      refl
new_node_from_bytes-value (leaf e) h =
    let read : elems_from_bytes 8 (elems_bytes_to_bytes e.elems) ≡ e.elems =
      rw h.0 at (elems_from_bytes-elems_bytes_to_bytes e.elems h.1) in
    rw
      (
        (==_iff (length (elems_bytes_to_bytes e.elems)) 256).1
            (omega (arith, length-elems_bytes_to_bytes e.elems h.1, h.0)),
        read,
      )
      refl
new_node_from_bytes-value empty h = refl

module _ ⦃c : Crypto⦄ where
  pub key-IsDigest : (n : Node) {k : Hash} → key n ≡ ok k → n ≢ empty → IsDigest k
  unfolding key
  key-IsDigest (middle l r) e h = hash_elems-IsDigest (l ∷ r ∷ []) e
  key-IsDigest (leaf d) e h =
      let ((hi, hv), _, eq) = >>=-eq-ok (hi_hv d) _ e in
      unfold leaf_key in hash_elems_key-IsDigest 1 (hi ∷ hv ∷ []) eq
  key-IsDigest empty e h = absurd (h refl)
