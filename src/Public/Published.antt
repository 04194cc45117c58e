-- ===== src/Public/Published.antt =====
-- From Publish of the writer to the public data that a reader builds from what GetPublicData gives.
use go_iden3_core.Prelude.{ℕ, ◌+◌, ◌%◌, ◌<◌, ◌≡◌, ◌⊎◌, sym, ap, ◌∙◌, none, length}
use go_iden3_core.Result.{ok}
use go_iden3_core.Crypto.{Crypto}
use go_iden3_core.Db.{Storage, IsStorage}
use go_iden3_core.MerkleTree.{MerkleTree}
use go_iden3_core.MerkleTree.Spec.{Tree}
use go_iden3_core.MerkleTree.Dump.Walk.{height}
use go_iden3_core.Public.{PublicData, PublicDataBlobs, check_blobs}
use go_iden3_core.Public.Blobs.{Consistent, check_blobs-dump_blobs}
use go_iden3_core.Public.Cache.{CacheWriter, publish, get_public_data}
use go_iden3_core.Public.Cache.Last.{AreHashes, AtSlot, publish_blobs-get_public_data}

module _ ⦃c : Crypto⦄ ⦃db : Storage⦄ (laws : IsStorage db)
    (starts : (s : db.State) → (tx : db.Tx) × (db.new_tx s ≡ ok tx))
    (commits : (s : db.State) (tx : db.Tx) → (s' : db.State) × (db.commit s tx ≡ ok s')) where
  -- If the storage keeps its laws and always starts and commits a transaction, the two trees of
  -- some public data are at its two roots with nodes of abstract trees whose heights are below the
  -- fuel, its state is the hash of its three roots, and the ring is at a slot that is not the last
  -- one or its length divides 256, then Publish succeeds, GetPublicData of the last state then
  -- returns its state, what NewPublicDataFromBlobs makes of the returned bytes, from any two
  -- trees, is again such public data with the same abstract trees, and the ring is at the next
  -- slot.
  pub get_public_data-publish :
      (fuel : ℕ) (p : PublicData) (i : CacheWriter) (idx : ℕ) (ret0 rot0 : MerkleTree)
      (revocations roots : Tree)
      → Consistent p revocations roots
      → height revocations < fuel
      → height roots < fuel
      → AtSlot i idx
      → (idx + 1 < i.cfg.cache_len) ⊎ (256 % i.cfg.cache_len ≡ 0)
      → (i' : CacheWriter) × (b : PublicDataBlobs) × (p' : PublicData) × (publish fuel p i ≡ ok i')
        × (get_public_data i' none ≡ ok b)
        × (check_blobs b ret0 rot0 ≡ ok p')
        × Consistent p' revocations roots
        × (b.iden_state ≡ p.iden_state)
        × AtSlot i' ((idx + 1) % i'.cfg.cache_len)
  unfolding publish
  get_public_data-publish fuel p i idx ret0 rot0 revocations roots con low_ret low_rot at fits =
      let copied =
        check_blobs-dump_blobs laws starts commits fuel p ret0 rot0 revocations roots con low_ret
          low_rot in
      let full : AreHashes copied.blobs = record {
        state = ap (λ h. length h) copied.same_state ∙ con.state_full;
        claims = ap (λ h. length h) copied.same_claims ∙ con.claims_full;
        revocations =
            ap (λ h. length h) (copied.same_revocations ∙ sym con.revocations_root)
            ∙ con.revocations_Holds.root_elem.0;
        roots =
            ap (λ h. length h) (copied.same_roots ∙ sym con.roots_root)
            ∙ con.roots_Holds.root_elem.0;
      } in
      let (i', written, read, at') =
        publish_blobs-get_public_data laws starts commits copied.blobs i idx full at fits in
      (
        i',
        copied.blobs,
        copied.copy,
        rw copied.dumped written,
        read,
        copied.checked,
        copied.consistent,
        copied.same_state,
        at',
      )
