-- ===== src/Tests.antt =====
-- The theorems at concrete inputs.
mod Toy
mod Cases
mod Proofs
mod Issuing
mod Minting
mod Service
mod Merging
mod Walking
mod Chaining
mod Signing
mod Joining
mod Starting
mod Aligned
