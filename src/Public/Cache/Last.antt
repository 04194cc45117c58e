-- ===== src/Public/Cache/Last.antt =====
-- What GetPublicData of writerhttp.go reads after a Publish.
use native.Mathlib.Nat.{mod-lt, mod-eq_of_lt, mod_self, suc-mod}
use go_iden3_core.Prelude.{
  ℕ, zero, suc, ◌+◌, ◌%◌, ◌<◌, ◌≡◌, ◌⊎◌, inl, inr, refl, sym, ap, ◌∙◌, none, [], ◌∷◌, length, ltb,
  ltb→lt, ge→ltb, take-length, bytes_eq, Bool-cases, arith,
}
use go_iden3_core.Result.{ok}
use go_iden3_core.Common.{Bytes}
use go_iden3_core.Db.{Storage, IsStorage}
use go_iden3_core.Db.Utils.Number.{tx_get-tx_put_same, tx_get-tx_put_other}
use go_iden3_core.MerkleTree.Elem.{Hash}
use go_iden3_core.Public.{PublicDataBlobs}
use go_iden3_core.Public.Cache.{
  CacheWriter, key_idx, byte_mod, hash_of, cache_idx, prev_cache_idx, next_cache_idx, put_blobs,
  publish_blobs, read_blobs, asked_slot, get_public_data, db_key_cache_idx, db_key_iden_state,
  db_key_claims_root, db_key_roots_root, db_key_roots_tree, db_key_revocations_root,
  db_key_revocations_tree,
}

-- The four hashes have 32 bytes.
pub record AreHashes (b : PublicDataBlobs) : Type 0 where
  pub state : length b.iden_state ≡ 32
  pub claims : length b.claims_tree_root ≡ 32
  pub revocations : length b.revocations_tree_root ≡ 32
  pub roots : length b.roots_tree_root ≡ 32

hash_of-full : (h : Hash) → length h ≡ 32 → hash_of h ≡ ok h
unfolding hash_of
hash_of-full h e = rw (ge→ltb (length h) 32 (omega (arith, e)), sym e) (ap ok (take-length h))

byte_mod-ok : (a n : ℕ) → 0 < n → byte_mod a n ≡ ok (a % n)
unfolding byte_mod
byte_mod-ok a n positive = ground arith

-- The slot before 0, if the slots divide the bytes.
wraps_to_last : (n : ℕ) → 256 % suc n ≡ 0 → 255 % suc n ≡ n
wraps_to_last n e = elim (Bool-cases (ltb (255 % suc n) n)) [
  | inl less ↦
      let small =
        mod-eq_of_lt {n = suc (255 % suc n)} {m = suc n} (omega (arith, ltb→lt _ n less)) in
      omega (arith, suc-mod 255 (suc n), e, small)
  | inr more ↦ ground (arith, mod-lt 255 {m = suc n} (omega arith))
]

-- The slot before the next one.
before_next :
    (idx n : ℕ)
    → idx < n
    → n < 256
    → (idx + 1 < n) ⊎ (256 % n ≡ 0)
    → (((idx + 1) % n + 255) % 256) % n ≡ idx
before_next idx zero less small fits = elim less [ ]
before_next idx (suc m) less small fits = elim (Bool-cases (ltb (idx + 1) (suc m))) [
  | inl inside ↦
      rw (mod-eq_of_lt {n = idx + 1} {m = suc m} (ltb→lt _ _ inside))
        (ap (λ x. x % suc m) (omega (arith, small, less)) ∙ mod-eq_of_lt {n = idx} {m = suc m} less)
  | inr last ↦
      let here : idx ≡ m = ground arith in
      let divides : 256 % suc m ≡ 0 = elim fits [ inl inside ↦ ground arith | inr e ↦ e ] in
      let zero_next : (idx + 1) % suc m ≡ 0 =
        ap (λ x. x % suc m) (omega (arith, here)) ∙ mod_self (suc m) in
      ap (λ x. ((x + 255) % 256) % suc m) zero_next ∙ wraps_to_last m divides ∙ sym here
]

module _ ⦃db : Storage⦄ where
  -- The slot that the next Publish writes, in a ring of at most 255 slots.
  pub record AtSlot (i : CacheWriter) (idx : ℕ) : Type 0 where
    pub present : db.get i.storage db_key_cache_idx ≡ ok (idx ∷ [])
    pub inside : idx < i.cfg.cache_len
    pub is_byte : i.cfg.cache_len < 256

  module _ (laws : IsStorage db) (s : db.State) (tx : db.Tx) (idx : ℕ) (b : PublicDataBlobs) where
    read_cache_idx :
        db.tx_get s (put_blobs s tx idx b) db_key_cache_idx ≡ db.tx_get s tx db_key_cache_idx
    unfolding put_blobs key_idx bytes_eq
    read_cache_idx =
        tx_get-tx_put_other laws s _ _ _ _ refl
        ∙ tx_get-tx_put_other laws s _ _ _ _ refl
        ∙ tx_get-tx_put_other laws s _ _ _ _ refl
        ∙ tx_get-tx_put_other laws s _ _ _ _ refl
        ∙ tx_get-tx_put_other laws s _ _ _ _ refl
        ∙ tx_get-tx_put_other laws s _ _ _ _ refl

    read_iden_state :
        db.tx_get s (put_blobs s tx idx b) (key_idx db_key_iden_state idx) ≡ ok b.iden_state
    unfolding put_blobs key_idx bytes_eq
    read_iden_state =
        tx_get-tx_put_other laws s _ _ _ _ refl
        ∙ tx_get-tx_put_other laws s _ _ _ _ refl
        ∙ tx_get-tx_put_other laws s _ _ _ _ refl
        ∙ tx_get-tx_put_other laws s _ _ _ _ refl
        ∙ tx_get-tx_put_other laws s _ _ _ _ refl
        ∙ tx_get-tx_put_same laws s _ _ _

    read_claims_root :
        db.tx_get s (put_blobs s tx idx b) (key_idx db_key_claims_root idx) ≡ ok b.claims_tree_root
    unfolding put_blobs key_idx bytes_eq
    read_claims_root =
        tx_get-tx_put_other laws s _ _ _ _ refl
        ∙ tx_get-tx_put_other laws s _ _ _ _ refl
        ∙ tx_get-tx_put_other laws s _ _ _ _ refl
        ∙ tx_get-tx_put_other laws s _ _ _ _ refl
        ∙ tx_get-tx_put_same laws s _ _ _

    read_roots_root :
        db.tx_get s (put_blobs s tx idx b) (key_idx db_key_roots_root idx) ≡ ok b.roots_tree_root
    unfolding put_blobs key_idx bytes_eq
    read_roots_root =
        tx_get-tx_put_other laws s _ _ _ _ refl
        ∙ tx_get-tx_put_other laws s _ _ _ _ refl
        ∙ tx_get-tx_put_other laws s _ _ _ _ refl
        ∙ tx_get-tx_put_same laws s _ _ _

    read_roots_tree :
        db.tx_get s (put_blobs s tx idx b) (key_idx db_key_roots_tree idx) ≡ ok b.roots_tree
    unfolding put_blobs key_idx bytes_eq
    read_roots_tree =
        tx_get-tx_put_other laws s _ _ _ _ refl
        ∙ tx_get-tx_put_other laws s _ _ _ _ refl
        ∙ tx_get-tx_put_same laws s _ _ _

    read_revocations_root :
        db.tx_get s (put_blobs s tx idx b) (key_idx db_key_revocations_root idx)
        ≡ ok b.revocations_tree_root
    unfolding put_blobs key_idx bytes_eq
    read_revocations_root =
        tx_get-tx_put_other laws s _ _ _ _ refl ∙ tx_get-tx_put_same laws s _ _ _

    read_revocations_tree :
        db.tx_get s (put_blobs s tx idx b) (key_idx db_key_revocations_tree idx)
        ≡ ok b.revocations_tree
    unfolding put_blobs key_idx bytes_eq
    read_revocations_tree = tx_get-tx_put_same laws s _ _ _

  module _ (laws : IsStorage db) (i : CacheWriter) (idx : ℕ) (at : AtSlot i idx) where
    next-AtSlot :
        (tx : db.Tx)
        → db.new_tx i.storage ≡ ok tx
        → next_cache_idx i tx
          ≡ ok (db.tx_put i.storage tx db_key_cache_idx ((idx + 1) % i.cfg.cache_len ∷ []), idx)
    unfolding next_cache_idx cache_idx
    next-AtSlot tx started =
        let small : (idx + 1) % 256 ≡ idx + 1 = omega (arith, at.inside, at.is_byte) in
        rw
          (
            laws.tx_get-new_tx i.storage tx db_key_cache_idx started,
            at.present,
            small,
            byte_mod-ok (idx + 1) i.cfg.cache_len (omega (arith, at.inside)),
          )
          refl

  module _ (laws : IsStorage db) (s s' : db.State) (tx tx' : db.Tx) (idx : ℕ) (b : PublicDataBlobs)
      (done : db.commit s (put_blobs s tx idx b) ≡ ok s') where
    kept : (k : Bytes) → db.get s' k ≡ db.tx_get s (put_blobs s tx idx b) k
    kept k = laws.get-commit s s' (put_blobs s tx idx b) k done

    reads :
        db.new_tx s' ≡ ok tx'
        → (k : Bytes) → db.tx_get s' tx' k ≡ db.tx_get s (put_blobs s tx idx b) k
    reads started k = laws.tx_get-new_tx s' tx' k started ∙ kept k

    read_blobs-put_blobs : db.new_tx s' ≡ ok tx' → AreHashes b → read_blobs s' tx' idx ≡ ok b
    unfolding read_blobs
    read_blobs-put_blobs started hashes =
        rw
          (
            reads started (key_idx db_key_iden_state idx) ∙ read_iden_state laws s tx idx b,
            reads started (key_idx db_key_claims_root idx) ∙ read_claims_root laws s tx idx b,
            reads started (key_idx db_key_revocations_root idx)
                ∙ read_revocations_root laws s tx idx b,
            reads started (key_idx db_key_revocations_tree idx)
                ∙ read_revocations_tree laws s tx idx b,
            reads started (key_idx db_key_roots_root idx) ∙ read_roots_root laws s tx idx b,
            reads started (key_idx db_key_roots_tree idx) ∙ read_roots_tree laws s tx idx b,
            hash_of-full b.iden_state hashes.state,
            hash_of-full b.claims_tree_root hashes.claims,
            hash_of-full b.revocations_tree_root hashes.revocations,
            hash_of-full b.roots_tree_root hashes.roots,
          )
          refl

  module _ (laws : IsStorage db) (starts : (s : db.State) → (tx : db.Tx) × (db.new_tx s ≡ ok tx))
      (commits : (s : db.State) (tx : db.Tx) → (s' : db.State) × (db.commit s tx ≡ ok s')) where
    pub publish_blobs-get_public_data :
        (b : PublicDataBlobs) (i : CacheWriter) (idx : ℕ)
        → AreHashes b
        → AtSlot i idx
        → (idx + 1 < i.cfg.cache_len) ⊎ (256 % i.cfg.cache_len ≡ 0)
        → (i' : CacheWriter) × (publish_blobs b i ≡ ok i')
          × (get_public_data i' none ≡ ok b)
          × AtSlot i' ((idx + 1) % i'.cfg.cache_len)
    unfolding publish_blobs get_public_data asked_slot prev_cache_idx cache_idx
    publish_blobs-get_public_data b i idx hashes at fits =
        let n = i.cfg.cache_len in
        let next = (idx + 1) % n in
        let (tx, started) = starts i.storage in
        let tx1 = db.tx_put i.storage tx db_key_cache_idx (next ∷ []) in
        let (s', done) = commits i.storage (put_blobs i.storage tx1 idx b) in
        let (tx', started') = starts s' in
        let i' : CacheWriter = record { storage = s'; cfg = i.cfg } in
        let now : db.get s' db_key_cache_idx ≡ ok (next ∷ []) =
          kept laws i.storage s' tx1 tx' idx b done db_key_cache_idx
          ∙ read_cache_idx laws i.storage tx1 idx b
          ∙ tx_get-tx_put_same laws i.storage tx db_key_cache_idx (next ∷ []) in
        (
          i',
          rw (started, next-AtSlot laws i idx at tx started, done) refl,
          rw
              (
                started',
                laws.tx_get-new_tx s' tx' db_key_cache_idx started' ∙ now,
                byte_mod-ok ((next + 255) % 256) n (omega (arith, at.inside)),
                before_next idx n at.inside at.is_byte fits,
              )
              (read_blobs-put_blobs laws i.storage s' tx1 tx' idx b done started' hashes),
          record {
            present = now;
            inside = mod-lt (idx + 1) {m = n} (omega (arith, at.inside));
            is_byte = at.is_byte;
          },
        )
