-- ===== src/Identifier.antt =====
-- core/id.go: identifiers of identities, 31 bytes of type, genesis and checksum, and the state of
-- an identity. base58, which is not in the repository, is left out with the text form.
pub mod Checksum
use go_iden3_core.Prelude.{
  ℕ, ◌+◌, ◌-◌, ◌/◌, ◌%◌, Bool, true, false, List, [], ◌∷◌, ◌++◌, ◌==◌, if◌then◌else◌, length, take,
  drop, replicate, bytes_eq,
}
use go_iden3_core.Result.{Result, ok, err, panic, invalid_length, empty_id, checksum_error, ◌>>=◌}
use go_iden3_core.Common.{Bytes}
use go_iden3_core.Crypto.{Crypto}
use go_iden3_core.MerkleTree.Elem.{Hash, elem_bytes_to_poseidon_input, new_elem_bytes_from_big_int}

-- TypeBJP0
abbrev pub type_bjp0 : Bytes
type_bjp0 = 0 ∷ 0 ∷ []

-- The loop of CalculateChecksum, in `uint16`.
unfoldable pub sum16 : ℕ → Bytes → ℕ
sum16 s [] = s
sum16 s (b ∷ bs) = sum16 ((s + b) % 65536) bs

-- CalculateChecksum: the type and the genesis, summed, as two bytes.
unfoldable pub calculate_checksum : Bytes → Bytes → Bytes
calculate_checksum typ genesis = let s = sum16 0 (typ ++ genesis) in s / 256 % 256 ∷ s % 256 ∷ []

-- NewID
unfoldable pub new_id : Bytes → Bytes → Bytes
new_id typ genesis = typ ++ (genesis ++ calculate_checksum typ genesis)

-- DecomposeID: the type, the genesis and the checksum.
unfoldable pub decompose_id : Bytes → Bytes × Bytes × Bytes
decompose_id id = (take 2 id, take 27 (drop 2 id), drop 29 id)

-- CheckChecksum
unfoldable pub check_checksum : Bytes → Bool
check_checksum id =
    let (typ, genesis, checksum) = decompose_id id in
    if bytes_eq checksum (0 ∷ 0 ∷ [])
    then false
    else bytes_eq (calculate_checksum typ genesis) checksum

-- IDFromBytes
unfoldable pub id_from_bytes : Bytes → Result Bytes
id_from_bytes b =
    if length b == 31
    then (if bytes_eq b (replicate 31 0)
        then err empty_id
        else (if check_checksum b then ok b else err checksum_error))
    else err invalid_length

-- IdGenesisFromIdenState: the last 27 bytes of the hash.
unfoldable pub id_genesis_from_iden_state : Hash → Bytes
id_genesis_from_iden_state h = new_id type_bjp0 (drop (length h - 27) h)

or_panic_err : Result ℕ → Result Hash
or_panic_err (ok v) = ok (new_elem_bytes_from_big_int v)
or_panic_err (err _) = panic
or_panic_err panic = panic

module _ ⦃c : Crypto⦄ where
  -- IdenState: an error of the hash function is a panic.
  unfoldable pub iden_state : Hash → Hash → Hash → Result Hash
  unfolding or_panic_err
  iden_state clr rer ror =
      or_panic_err (c.poseidon_hash (elem_bytes_to_poseidon_input (clr ∷ rer ∷ ror ∷ [])))
