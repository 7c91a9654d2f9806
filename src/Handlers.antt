-- ===== src/Handlers.antt =====
-- standin-service/src/handlers.ts, one function for each endpoint. A handler is given the request's
-- context and payload and sends one response; what it does not catch is thrown.
pub mod Caller
pub mod Account
pub mod Credential
pub mod Token
pub mod Movement
