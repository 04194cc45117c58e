-- ===== src/Tests.antt =====
-- Runs of the code on small inputs, and the theorems at inputs that meet their conditions.
mod Env
mod Trees
mod Dump
mod Proofs
mod Codecs
mod Verifying
mod Nonces
mod Lists
mod Chains
mod Issuing
mod Publishing
mod Sharing
mod Holding
mod Keys
mod Claiming
