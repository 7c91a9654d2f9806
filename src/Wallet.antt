-- ===== src/Wallet.antt =====
-- The wallet in app/src: its client of the service, its screens, and what it computes for itself.
pub mod Crypto
pub mod Agreement
pub mod Types
pub mod Client
pub mod Shapes
pub mod Backend
pub mod Screens
pub mod Shell
pub mod Journey
pub mod Tampering
pub mod Refusal
pub mod Signing
pub mod Answering
pub mod Joining
pub mod Starting
