-- ===== src/MerkleTree/Dump/Serial.antt =====
-- The records that DumpTree writes are read back by ImportTree.
use mathlib.Core.List.{append_assoc}
use go_iden3_core.Prelude.{
  ℕ, zero, suc, ◌+◌, ◌≡◌, ◌≢◌, ◌≤◌, ◌<◌, refl, sym, ap, false, inl, inr, [], ◌∷◌, ◌++◌, arith, ltb,
  ge→ltb, Bool-cases, length, take, drop, length-append, take-append_of_length,
  drop-append_of_length, length-drop,
}
use go_iden3_core.Result.{ok-injective, ok, panic, >>=-eq-ok, Result-cases}
use go_iden3_core.Common.{Bytes, uint16_to_bytes, bytes_to_uint16}
use go_iden3_core.Common.Words.{bytes_to_uint16-uint16_to_bytes}
use go_iden3_core.Db.{Storage}
use go_iden3_core.MerkleTree.Dump.{serialize_kv, deserialize_kv, import_loop, is_eof}

-- A key and a value that fit into a record.
abbrev pub Fits : Bytes → Bytes → Type 0
Fits k v = (length k ≤ 0xff) × (length v ≤ 0xffff)

pub serialize_kv-Fits :
    (k v : Bytes)
    → Fits k v
    → serialize_kv k v ≡ ok (length k ∷ (uint16_to_bytes (length v) ++ (k ++ v)))
unfolding serialize_kv
serialize_kv-Fits k v (hk, hv) = ground (arith, ge→ltb 0xff (length k), ge→ltb 0xffff (length v))

serialize_kv-ok :
    (k v : Bytes) {bs : Bytes}
    → serialize_kv k v ≡ ok bs
    → Fits k v × (bs ≡ length k ∷ (uint16_to_bytes (length v) ++ (k ++ v)))
unfolding serialize_kv
serialize_kv-ok k v h = elim (Bool-cases (ltb 0xff (length k))) [
  | inl long ↦ cc (rw long at h)
  | inr short ↦ elim (Bool-cases (ltb 0xffff (length v))) [
    | inl long ↦ cc (rw (short, long) at h)
    | inr low ↦ ((ground arith, ground arith), sym (ok-injective (rw (short, low) at h)))
  ]
]

deserialize_record :
    (k v rest : Bytes)
    → Fits k v
    → deserialize_kv (length k ∷ (uint16_to_bytes (length v) ++ ((k ++ v) ++ rest)))
      ≡ ok (k, v, rest)
unfolding deserialize_kv uint16_to_bytes
deserialize_record k v rest (hk, hv) =
    let len : bytes_to_uint16 (uint16_to_bytes (length v)) ≡ ok (length v) =
      bytes_to_uint16-uint16_to_bytes (length v) (omega arith) in
    let long : ltb (length ((k ++ v) ++ rest)) (length k + length v) ≡ false =
      ge→ltb _ _ (omega (arith, length-append (k ++ v) rest, length-append k v)) in
    let first : take (length k) ((k ++ v) ++ rest) ≡ k =
      rw (append_assoc k v rest) (take-append_of_length (length k) k (v ++ rest) refl) in
    let second : drop (length k) ((k ++ v) ++ rest) ≡ v ++ rest =
      rw (append_assoc k v rest) (drop-append_of_length (length k) k (v ++ rest) refl) in
    let third : drop (length k + length v) ((k ++ v) ++ rest) ≡ rest =
      drop-append_of_length (length k + length v) (k ++ v) rest (length-append k v) in
    rw (len, long, first, second, third, take-append_of_length (length v) v rest refl) refl

-- A record that serializeKV wrote is read back, and what stands behind it is left.
pub deserialize_kv-serialize_kv :
    (k v rest bs : Bytes) → serialize_kv k v ≡ ok bs → deserialize_kv (bs ++ rest) ≡ ok (k, v, rest)
unfolding uint16_to_bytes
deserialize_kv-serialize_kv k v rest bs h =
    let (fits, eq) = serialize_kv-ok k v h in rw eq (deserialize_record k v rest fits)

pub deserialize_kv-shorter :
    (bs k v rest : Bytes) → deserialize_kv bs ≡ ok (k, v, rest) → length rest < length bs
unfolding deserialize_kv
deserialize_kv-shorter [] k v rest h = cc
deserialize_kv-shorter (a ∷ []) k v rest h = cc
deserialize_kv-shorter (a ∷ b ∷ []) k v rest h = cc
deserialize_kv-shorter (a ∷ b ∷ c ∷ bs) k v rest h =
    let (n, len, h1) = >>=-eq-ok (bytes_to_uint16 (b ∷ c ∷ [])) _ h in
    elim (Bool-cases (ltb (length bs) (a + n))) [
      | inl long ↦ cc (rw long at h1)
      | inr short ↦
          let left : drop (a + n) bs ≡ rest =
            ap (λ (x : Bytes × Bytes × Bytes). x.2) (ok-injective (rw short at h1)) in
          omega (arith, length-drop (a + n) bs, ap (λ (x : Bytes). length x) left)
    ]

deserialize_kv-no_panic : (bs : Bytes) → deserialize_kv bs ≢ panic
unfolding deserialize_kv bytes_to_uint16
deserialize_kv-no_panic [] h = cc
deserialize_kv-no_panic (a ∷ []) h = cc
deserialize_kv-no_panic (a ∷ b ∷ []) h = cc
deserialize_kv-no_panic (a ∷ b ∷ c ∷ bs) h = ground arith

module _ ⦃db : Storage⦄ where
  pub import_loop-ok :
      (fuel : ℕ) (s : db.State) (tx : db.Tx) (bs k v rest : Bytes)
      → deserialize_kv bs ≡ ok (k, v, rest)
      → import_loop (suc fuel) s tx bs ≡ import_loop fuel s (db.tx_put s tx k v) rest
  unfolding import_loop
  import_loop-ok fuel s tx bs k v rest h = rw (h, import_loop)

  -- The loop of ImportTree ends, with a transaction or an error, within one round more than the
  -- number of bytes that it reads: with that much fuel it does not run out and does not panic.
  pub import_loop-no_panic :
      (fuel : ℕ) (s : db.State) (tx : db.Tx) (bs : Bytes)
      → length bs < fuel
      → import_loop fuel s tx bs ≢ panic
  unfolding import_loop
  import_loop-no_panic zero s tx bs small h = absurd (omega arith)
  import_loop-no_panic (suc fuel) s tx bs small h = elim (Result-cases (deserialize_kv bs)) [
    | inl ((k, v, rest), e) ↦
        import_loop-no_panic fuel s (db.tx_put s tx k v) rest
          (omega (arith, deserialize_kv-shorter bs k v rest e)) (rw (e, import_loop) at h)
    | inr (inl (x, e)) ↦ elim (Bool-cases (is_eof x)) [
      | inl end ↦ cc (rw (end) at (rw (e, import_loop) at h))
      | inr other ↦ cc (rw (other) at (rw (e, import_loop) at h))
    ]
    | inr (inr e) ↦ deserialize_kv-no_panic bs e
  ]
