-- ===== src/Js.antt =====
-- What the service uses of JavaScript's own collections and texts.
pub mod Dict
pub mod StrSet
pub mod Text
