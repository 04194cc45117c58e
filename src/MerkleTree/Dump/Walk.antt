-- ===== src/MerkleTree/Dump/Walk.antt =====
-- The walk over the nodes of a tree ends, and its nodes give the tree again wherever they are stored.
use go_iden3_core.Prelude.{
  ℕ, zero, suc, ◌≡◌, ◌≢◌, ◌<◌, max, refl, sym, ◌∙◌, false, List, [], ◌∷◌, ◌++◌, arith, length, All,
  All-append, bytes_eq_ne,
}
use go_iden3_core.Result.{Result, ok, >>=-eq-ok, ok-injective}
use go_iden3_core.Common.{Bytes}
use go_iden3_core.Crypto.{Crypto}
use go_iden3_core.MerkleTree.Elem.{Hash, hash_zero}
use go_iden3_core.MerkleTree.Nodes.{Node, IsNode, key, value, new_node_from_bytes}
use go_iden3_core.MerkleTree.Nodes as N
use go_iden3_core.MerkleTree.Nodes.RoundTrip.{reparsed, new_node_from_bytes-value}
use go_iden3_core.MerkleTree.{get_node, is_empty}
use go_iden3_core.MerkleTree.Spec.{Tree, empty, leaf, middle, Represents}
use go_iden3_core.MerkleTree.Lookup.{get_node-hash_zero}
use go_iden3_core.MerkleTree.Dump.{walk}

-- How many levels a tree has.
unfoldable pub height : Tree → ℕ
height empty = 0
height (leaf e) = 0
height (middle l r) = suc (max (height l) (height r))

module _ ⦃c : Crypto⦄ where
  -- A node that is stored under its own key, unless it is empty.
  abbrev pub IsStored : (Bytes → Result Bytes) → Node → Type 0
  IsStored read n =
      (is_empty n ≡ false)
      → (k : Hash) × (key n ≡ ok k) × (get_node read k ≡ ok n) × IsNode n × (length k ≡ 32)

  pub get_node-ne-hash_zero :
      (read : Bytes → Result Bytes) (k : Hash) (n : Node)
      → is_empty n ≡ false
      → get_node read k ≡ ok n
      → k ≢ hash_zero
  get_node-ne-hash_zero read k n full h e =
      let same : n ≡ N.empty = ok-injective (sym (rw e at h) ∙ get_node-hash_zero read) in
      cc (rw same at full)

  pub record Walked (read : Bytes → Result Bytes) (fuel : ℕ) (k : Hash) (t : Tree) : Type 0 where
    pub nodes : List Node
    pub walks : walk read fuel k ≡ ok nodes
    pub stored : All (IsStored read) nodes

  -- The walk ends if there is more fuel than levels.
  pub walk-Represents :
      (read : Bytes → Result Bytes) (fuel : ℕ) (k : Hash) (t : Tree)
      → length k ≡ 32
      → Represents read k t
      → height t < fuel
      → Walked read fuel k t
  unfolding walk height
  walk-Represents read zero k t len held small = elim small [ ]
  walk-Represents read (suc fuel) k empty len held small = record {
    nodes = N.empty ∷ [];
    walks = rw (held, get_node-hash_zero read) refl;
    stored = (λ e. cc, tt);
  }
  walk-Represents read (suc fuel) k (leaf e) len (node, keyed, shape) small = record {
    nodes = N.leaf e ∷ [];
    walks = rw node refl;
    stored = (λ _. (k, keyed, node, shape, len), tt);
  }
  walk-Represents read (suc fuel) k (middle l r) len (kl, kr, node, keyed, shape, hl, hr) small =
      let wl = walk-Represents read fuel kl l shape.0.0 hl (omega arith) in
      let wr = walk-Represents read fuel kr r shape.1.0 hr (omega arith) in
      record {
        nodes = N.middle kl kr ∷ (wl.nodes ++ wr.nodes);
        walks = rw (node, wl.walks, wr.walks) refl;
        stored = (
          λ _. (k, keyed, node, shape, len),
          All-append (IsStored read) wl.nodes wr.nodes wl.stored wr.stored,
        );
      }

  -- The reader gives the bytes of the node under its key, unless the node is empty.
  abbrev pub Gives : (Bytes → Result Bytes) → Node → Type 0
  Gives read n = is_empty n ≡ false → (k : Hash) → key n ≡ ok k → read k ≡ ok (value n)

  get_node-Gives :
      (read : Bytes → Result Bytes) (k : Hash) (n : Node)
      → k ≢ hash_zero
      → IsNode n
      → is_empty n ≡ false
      → read k ≡ ok (value n)
      → get_node read k ≡ ok n
  unfolding get_node
  get_node-Gives read k n ne shape full h =
      rw (bytes_eq_ne k hash_zero ne, h) (new_node_from_bytes-value n shape ∙ full_reparsed n full)
    where
      full_reparsed : (n : Node) → is_empty n ≡ false → reparsed n ≡ ok n
      full_reparsed (N.middle l r) e = refl
      full_reparsed (N.leaf d) e = refl
      full_reparsed N.empty e = cc

  All-append_left {κ} : (P : Node → Type κ) (xs ys : List Node) → All P (xs ++ ys) → All P xs
  All-append_left P [] ys h = tt
  All-append_left P (x ∷ xs) ys h = (h.0, All-append_left P xs ys h.1)

  All-append_right {κ} : (P : Node → Type κ) (xs ys : List Node) → All P (xs ++ ys) → All P ys
  All-append_right P [] ys h = h
  All-append_right P (x ∷ xs) ys h = All-append_right P xs ys h.1

  -- Where all nodes of a walk can be read, they represent the same tree.
  pub Represents-walk :
      (read read' : Bytes → Result Bytes) (fuel : ℕ) (k : Hash) (t : Tree) (ns : List Node)
      → Represents read k t
      → walk read fuel k ≡ ok ns
      → All (Gives read') ns
      → Represents read' k t
  unfolding walk
  Represents-walk read read' fuel k empty ns held h gives = held
  Represents-walk read read' zero k (leaf e) ns held h gives = cc
  Represents-walk read read' zero k (middle l r) ns held h gives = cc
  Represents-walk read read' (suc fuel) k (leaf e) ns (node, keyed, shape) h gives =
      let eq : N.leaf e ∷ [] ≡ ns = ok-injective (rw node at h) in
      let all : All (Gives read') (N.leaf e ∷ []) = rw (← eq) at gives in
      (
        get_node-Gives read' k (N.leaf e) (get_node-ne-hash_zero read k (N.leaf e) refl node) shape
            refl (all.0 refl k keyed),
        keyed,
        shape,
      )
  Represents-walk read read' (suc fuel) k (middle l r) ns (kl, kr, node, keyed, shape, hl, hr) h
        gives =
      let (ls, el, h1) = >>=-eq-ok (walk read fuel kl) _ (rw node at h) in
      let (rs, er, h2) = >>=-eq-ok (walk read fuel kr) _ h1 in
      let eq : N.middle kl kr ∷ (ls ++ rs) ≡ ns = ok-injective h2 in
      let all : All (Gives read') (N.middle kl kr ∷ (ls ++ rs)) = rw (← eq) at gives in
      (
        kl,
        kr,
        get_node-Gives read' k (N.middle kl kr)
            (get_node-ne-hash_zero read k (N.middle kl kr) refl node) shape refl
            (all.0 refl k keyed),
        keyed,
        shape,
        Represents-walk read read' fuel kl l ls hl el (All-append_left (Gives read') ls rs all.1),
        Represents-walk read read' fuel kr r rs hr er (All-append_right (Gives read') ls rs all.1),
      )
