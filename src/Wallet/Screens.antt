-- ===== src/Wallet/Screens.antt =====
-- app/src/App.tsx: the five screens that keep a state and talk to the service, each with the state that its
-- hooks keep, its handlers and what it shows. A handler runs from the click until its last `await`.
pub mod Create
pub mod Sign
pub mod Credentials
pub mod Tokens
pub mod Transfer
