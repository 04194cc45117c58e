-- ===== src/Lib.antt =====
-- A model of go-iden3-core, the Go library for identities whose claims are kept in sparse Merkle
-- trees, with theorems about it. An identity has three trees (merkletree/) over one key-value storage
-- (db/); the hash of their roots is its state, of which core/id.go makes its identifier; claims
-- (core/claims/) are the entries of the trees, and are proved with the Merkle proofs. A verifier
-- (components/verifier/) accepts a credential if its proofs lead to a state that the chain has. An
-- issuer (identity/issuer/) adds and revokes claims, publishes its state on a chain
-- (components/idenpubonchain/) and its public data (components/idenpuboffchain/), and makes the
-- credentials; a holder (identity/holder/) brings a credential up to the last public data. The nonces of
-- utils/noncedb/ and the key store of keystore/ stand alone.
--
-- The files, and the code that they model:
--   Common, Common/Bitmap, Words, Hex, Slices: common/common.go
--   BigInt: the functions of math/big that the code calls, on numbers that are not negative
--   Crypto: the functions of go-iden3-crypto, as a record of parameters
--   Db: the interfaces of db/storage.go as a record, with the laws that a client relies on
--   Db/Memory: db/memory.go and db/kvmap.go, an instance of that record
--   MerkleTree, MerkleTree/Elem, Nodes, Proof: merkletree/merkletree.go, utils.go and node.go
--   MerkleTree/Spec: abstract trees with look-up and insertion, which are what the operations on the
--     storage are compared with
--   MerkleTree/Dump, with Serial, Walk, Import, Reopen, Lines: the walks, the export and the import
--   MerkleTree/Lookup, Insert, AddEntry, Present: theorems on GetDataByIndex and AddEntry
--   Db/Utils, with Number, Keys, Append: db/storageutils.go
--   Identifier: core/id.go
--   Claims: core/claims/claim.go; Claims/Leaves: core/claims/revocationrootsleafs.go
--   Claims/Types: core/claims/claim_types.go, claimBasic.go, claimOtherIden.go, claimKeyBabyJub.go;
--     Claims/Text: their texts, and core/claims/utils.go; Types/Slots, RoundTrip: theorems
--   Genesis: core/genesis/genesis.go
--   Verifier, Verifier/Credential, Issued: components/verifier/verifier.go and core/proof/proof.go
--   Chain: the interface of components/idenpubonchain/idenpubonchain.go; Chain/Local, with Published,
--     Runs: components/idenpubonchain/local/local.go
--   Issuer, Issuer/Lookups, Methods, Publish, Credential: identity/issuer/issuer.go; Issuer/Nonce:
--     identity/issuer/noncegen.go; their children: theorems on them
--   Public: components/idenpuboffchain/idenpuboffchain.go; Public/Local: local/local.go beside it;
--     Public/Cache: writerhttp/writerhttp.go; Public/Blobs, Cache/Last, Published: theorems on them
--   Holder, Holder/ZkProof: identity/holder/holder.go; Holder/Validity, Verifier/Valid: theorems
--   Keystore, Keystore/Files: keystore/keystore.go; Keystore/Signed, Kept: theorems; Common/Maps: Go maps
--   NonceDb, NonceDb/Expiry, Steps: utils/noncedb/nonce_db.go
--   Prelude, Result, Action: shared names, the result of code that may fail, and a method that changes
--     its object; Tests: runs and examples
--
-- A function that may fail returns a Result: a value, an error, or a panic, which is also what an
-- index out of range gives. Code that changes a state takes it and returns it. A byte is a natural
-- number below 256, a byte array a list of them; where a theorem needs the length of an array type it
-- says so. A walk down a tree of `maxLevels` levels recurs on the number of levels that are left, which
-- is the bound of the source's own loop, so it needs no fuel. Walk has no bound in the source; its fuel
-- is enough when it exceeds the height of the tree, and ImportTree's is one more than the bytes it
-- reads. A signed 64-bit number is its pattern, a number below 2^64; the times and deltas of the nonces
-- are compared as signed numbers and added modulo 2^64. A Poseidon hash is a parameter; where a
-- theorem needs it, its values are positive and below 256^32. SHA-256 is a parameter of the storage in
-- memory, which keeps the laws of a storage if it has no collision.
--
-- Not modelled: locks and other concurrency, JSON forms, which are parameters where they are stored,
-- the base58 and decimal texts, LevelDB, HTTP, the Ethereum client, and the inside of the prover, of
-- the ciphers and of the curve, which are parameters. Create, Load and the signatures of the issuer
-- are not modelled. The storages of its trees, which differ in their prefixes, are states of their
-- own.
pub mod Prelude
pub mod Result
pub mod Action
pub mod Common
pub mod BigInt
pub mod Crypto
pub mod Db
pub mod MerkleTree
pub mod Identifier
pub mod Public
pub mod Issuer
pub mod Holder
pub mod Claims
pub mod Genesis
pub mod Verifier
pub mod Chain
pub mod NonceDb
pub mod Keystore
pub mod Tests
