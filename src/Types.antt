-- ===== src/Types.antt =====
-- The shapes that the service's modules declare, and the state that each module keeps.
pub mod Account
pub mod Credential
pub mod TokenClass
pub mod Token
pub mod Transaction
