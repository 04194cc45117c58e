-- ===== src/MerkleTree/Dump/Lines.antt =====
-- The claims that DumpClaims lists, and what ImportDumpedClaims adds.
use mathlib.Core.List.{map-append}
use mathlib.Core.Path.{fun_ext}
use go_iden3_core.Prelude.{
  ℕ, zero, suc, ◌≡◌, ◌<◌, refl, sym, ap, ◌∙◌, true, none, List, [], ◌∷◌, ◌++◌, map, arith, ◌==◌,
  ==_iff, length, All,
}
use go_iden3_core.Result.{Result, ok, and_then}
use go_iden3_core.Common.{Bytes, IsBytes}
use go_iden3_core.Common.Hex.{hex_encode, hex_decode_into, encode_to_string, hex_digit, trim_0x}
use go_iden3_core.Common.Hex.RoundTrip.{hex_decode_into-hex_encode, length-encode_to_string}
use go_iden3_core.Crypto.{Crypto}
use go_iden3_core.Db.{Storage}
use go_iden3_core.MerkleTree.Elem.{Hash, Entry, IsData, elems_bytes_to_bytes, new_data_from_bytes}
use go_iden3_core.MerkleTree.Elem.Shape.{
  elems_from_bytes-elems_bytes_to_bytes, length-elems_bytes_to_bytes, elems_bytes_to_bytes-IsBytes,
}
use go_iden3_core.MerkleTree.Nodes as N
use go_iden3_core.MerkleTree.Nodes.{Node}
use go_iden3_core.MerkleTree.{MerkleTree, add_entry}
use go_iden3_core.MerkleTree.Spec.{Tree, empty, leaf, middle, Represents}
use go_iden3_core.MerkleTree.Lookup.{get_node-hash_zero}
use go_iden3_core.MerkleTree.AddEntry.{Holds}
use go_iden3_core.MerkleTree.Dump.{
  walk, walk_from, claims_of, dump_claims, parse_claim, import_claim, import_dumped_claims,
}
use go_iden3_core.MerkleTree.Dump.Walk.{height}

-- The line of an entry.
abbrev pub line : Entry → Bytes
line e = hex_encode (elems_bytes_to_bytes e.elems)

-- The entries of a tree, from left to right.
unfoldable pub leaves : Tree → List Entry
leaves empty = []
leaves (leaf e) = e ∷ []
leaves (middle l r) = leaves l ++ leaves r

trim_0x-encode_to_string :
    (bs : Bytes) → IsBytes bs → trim_0x (encode_to_string bs) ≡ encode_to_string bs
unfolding trim_0x encode_to_string hex_digit
trim_0x-encode_to_string [] h = refl
trim_0x-encode_to_string (b ∷ bs) h = ground arith

hex_decode_into-encode_to_string :
    (bs : Bytes) → IsBytes bs → hex_decode_into (length bs) (encode_to_string bs) ≡ ok bs
unfolding hex_decode_into
hex_decode_into-encode_to_string bs h =
    rw (trim_0x-encode_to_string bs h)
      (unfold hex_encode trim_0x in hex_decode_into-hex_encode bs h)

parse_claim-line : (e : Entry) → IsData e.elems → parse_claim (line e) ≡ ok e
unfolding parse_claim new_data_from_bytes hex_encode trim_0x
parse_claim-line e (size, shape) =
    let bs = elems_bytes_to_bytes e.elems in
    let len : length bs ≡ 256 = omega (arith, length-elems_bytes_to_bytes e.elems shape, size) in
    let bytes : IsBytes bs = elems_bytes_to_bytes-IsBytes e.elems shape in
    let sized : (length (encode_to_string bs) == 512) ≡ true =
      (==_iff _ 512).1 (omega (arith, length-encode_to_string bs, len)) in
    let read = hex_decode_into-encode_to_string bs bytes in
    rw (sized, rw len at read)
      (ap (λ (d : List Bytes). ok (record { elems = d }))
        (rw size at (elems_from_bytes-elems_bytes_to_bytes e.elems shape)))

claims_of-append : (xs ys : List Node) → claims_of (xs ++ ys) ≡ claims_of xs ++ claims_of ys
unfolding claims_of
claims_of-append [] ys = refl
claims_of-append (N.leaf e ∷ xs) ys = rw (claims_of-append xs ys) refl
claims_of-append (N.middle l r ∷ xs) ys = claims_of-append xs ys
claims_of-append (N.empty ∷ xs) ys = claims_of-append xs ys

module _ ⦃c : Crypto⦄ where
  claims_of-walk :
      (read : Bytes → Result Bytes) (fuel : ℕ) (k : Hash) (t : Tree)
      → Represents read k t
      → height t < fuel
      → (ns : List Node) × (walk read fuel k ≡ ok ns) × (claims_of ns ≡ map line (leaves t))
  unfolding walk claims_of leaves height
  claims_of-walk read zero k t held small = elim small [ ]
  claims_of-walk read (suc fuel) k empty held small =
      (N.empty ∷ [], rw (held, get_node-hash_zero read) refl, refl)
  claims_of-walk read (suc fuel) k (leaf e) (node, _, _) small = (N.leaf e ∷ [], rw node refl, refl)
  claims_of-walk read (suc fuel) k (middle l r) (kl, kr, node, _, _, hl, hr) small =
      let (ls, el, cl) = claims_of-walk read fuel kl l hl (omega arith) in
      let (rs, er, cr) = claims_of-walk read fuel kr r hr (omega arith) in
      (
        N.middle kl kr ∷ (ls ++ rs),
        rw (node, el, er) refl,
        claims_of-append ls rs ∙ rw (cl, cr) (sym (map-append line (leaves l) (leaves r))),
      )

module _ ⦃c : Crypto⦄ ⦃db : Storage⦄ where
  -- If the nodes under a tree's root key are those of an abstract tree whose height is below the
  -- fuel of the walk, DumpClaims gives one line for each entry of the abstract tree, from left to
  -- right, its elements in hexadecimal.
  pub dump_claims-leaves :
      (mt : MerkleTree) (t : Tree) (fuel : ℕ)
      → Holds mt t
      → height t < fuel
      → dump_claims fuel mt none ≡ ok (map line (leaves t))
  unfolding dump_claims walk_from
  dump_claims-leaves mt t fuel held small =
      let (ns, walked, same) =
        claims_of-walk (db.get mt.storage) fuel mt.root_key t held.represents small in
      rw (walked, same) refl

  -- Entries that are added one after the other, up to the first that is refused.
  unfoldable pub add_entries : MerkleTree → List Entry → MerkleTree × Result (Unit {0})
  unfolding and_then
  add_entries mt [] = (mt, ok tt)
  add_entries mt (e ∷ es) = and_then (add_entry mt e) (λ mt'. add_entries mt' es)

  import_claim-line :
      (mt : MerkleTree) (e : Entry) → IsData e.elems → import_claim mt (line e) ≡ add_entry mt e
  unfolding import_claim
  import_claim-line mt e shape = rw (parse_claim-line e shape, import_claim) refl

  -- ImportDumpedClaims of the lines of some entries of eight 32-byte elements does what AddEntry
  -- of each of them does, in order, up to the first that is refused.
  pub import_dumped_claims-add_entries :
      (mt : MerkleTree) (es : List Entry)
      → All (λ e. IsData e.elems) es
      → import_dumped_claims mt (map line es) ≡ add_entries mt es
  unfolding import_dumped_claims add_entries
  import_dumped_claims-add_entries mt [] shape = refl
  import_dumped_claims-add_entries mt (e ∷ es) shape =
      ap (λ r. and_then r (λ mt'. import_dumped_claims mt' (map line es)))
        (import_claim-line mt e shape.0)
      ∙ ap (λ f. and_then (add_entry mt e) f)
          (fun_ext (λ mt'. import_dumped_claims-add_entries mt' es shape.1))
