-- ===== src/Issuer/Nonce.antt =====
-- identity/issuer/noncegen.go: the generator of revocation nonces. Its mutex makes every call one
-- step, so the calls are a sequence.
use go_iden3_core.Prelude.{
  ℕ, zero, suc, ◌+◌, ◌^◌, ◌%◌, ◌≤◌, ◌<◌, ◌≡◌, ◌⊎◌, inl, inr, refl, ap, ◌∙◌, Bool-cases, List, [],
  ◌∷◌, arith, ◌==◌, ==_iff, ==_ne, if◌then◌else◌,
}
use go_iden3_core.Result.{Result, ok, err, ◌>>=◌, max_nonce}
use go_iden3_core.Db.{Storage, IsStorage}
use go_iden3_core.Db.Utils.{StorageValue, value_get, value_set}
use go_iden3_core.Db.Utils.Number.{value_get-value_set}

-- The successive numbers from one on.
unfoldable pub count_up : ℕ → (n : ℕ) → List ℕ
count_up i zero = []
count_up i (suc n) = i ∷ count_up (i + 1) n

module _ ⦃db : Storage⦄ where
  -- UniqueNonceGen.Init
  unfoldable pub nonce_init : StorageValue → db.State → db.Tx → db.Tx
  nonce_init u s tx = value_set u s tx 0

  -- UniqueNonceGen.Next
  unfoldable pub nonce_next : StorageValue → db.State → db.Tx → Result (db.Tx × ℕ)
  nonce_next u s tx = do
    i ← value_get u s tx
    if i == 0xffffffff then err max_nonce else ok (value_set u s tx ((i + 1) % 2 ^ 32), i)

  -- `n` calls of Next.
  unfoldable pub nonces : StorageValue → db.State → db.Tx → (n : ℕ) → Result (db.Tx × List ℕ)
  nonces u s tx zero = ok (tx, [])
  nonces u s tx (suc n) = do
    (tx1, i) ← nonce_next u s tx
    (tx2, is) ← nonces u s tx1 n
    ok (tx2, i ∷ is)

  module _ (laws : IsStorage db) (u : StorageValue) (s : db.State) where
    nonce_next-less :
        (tx : db.Tx) (i : ℕ)
        → value_get u s tx ≡ ok i
        → i < 0xffffffff
        → (tx' : db.Tx) × (nonce_next u s tx ≡ ok (tx', i)) × (value_get u s tx' ≡ ok (i + 1))
    unfolding nonce_next
    nonce_next-less tx i read small = elim (Bool-cases (i == 0xffffffff)) [
      | inl last ↦ absurd (omega (arith, (==_iff i 0xffffffff).0 last))
      | inr more ↦ (
        value_set u s tx ((i + 1) % 2 ^ 32),
        rw (read, more) refl,
        value_get-value_set laws u s tx _ (omega arith) ∙ ap ok (omega arith),
      )
    ]

    nonce_next-last :
        (tx : db.Tx) → value_get u s tx ≡ ok 0xffffffff → nonce_next u s tx ≡ err max_nonce
    unfolding nonce_next
    nonce_next-last tx read = rw read refl

    pub nonces-count_up :
        (n : ℕ) (tx : db.Tx) (i : ℕ)
        → value_get u s tx ≡ ok i
        → i + n ≤ 0xffffffff
        → (tx' : db.Tx) × (nonces u s tx n ≡ ok (tx', count_up i n))
          × (value_get u s tx' ≡ ok (i + n))
    unfolding nonces count_up
    nonces-count_up zero tx i read room = (tx, refl, read ∙ ap ok (omega arith))
    nonces-count_up (suc n) tx i read room =
        let (tx1, first, read1) = nonce_next-less tx i read (omega arith) in
        let (tx2, others, read2) = nonces-count_up n tx1 (i + 1) read1 (omega arith) in
        (tx2, rw (first, others) refl, read2 ∙ ap ok (omega arith))

    -- If the storage keeps its laws, then after Init, for every n up to 0xffffffff, n calls of
    -- Next give the numbers 0 to n - 1, and one more call gives n, or fails if n is 0xffffffff.
    pub nonces-nonce_init :
        (tx : db.Tx) (n : ℕ)
        → n ≤ 0xffffffff
        → (tx' : db.Tx) × (nonces u s (nonce_init u s tx) n ≡ ok (tx', count_up 0 n))
          × ((n ≡ 0xffffffff × nonce_next u s tx' ≡ err max_nonce)
              ⊎ (tx'' : db.Tx) × (nonce_next u s tx' ≡ ok (tx'', n)))
    unfolding nonce_init
    nonces-nonce_init tx n small =
        let (tx', run, read) =
          nonces-count_up n (nonce_init u s tx) 0 (value_get-value_set laws u s tx 0 (omega arith))
            (omega arith) in
        (
          tx',
          run,
          elim (Bool-cases (n == 0xffffffff)) [
            | inl last ↦
                let full = (==_iff n 0xffffffff).0 last in
                inl (full, nonce_next-last tx' (read ∙ ap ok (omega arith)))
            | inr more ↦
                let (tx'', next, _) =
                  nonce_next-less tx' n (read ∙ ap ok (omega arith))
                    (omega (arith, ==_ne n 0xffffffff more)) in
                inr (tx'', next)
          ],
        )
