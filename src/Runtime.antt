-- ===== src/Runtime.antt =====
-- What a handler runs in: messages, the world that it changes, and the actions on it.
pub mod Json
pub mod World
pub mod Act
pub mod Rows
pub mod Cache
pub mod Triple
pub mod Transaction
pub mod Pool
pub mod Rest
pub mod Alive
