-- ===== src/Vault.antt =====
-- services/vault and pkg/crypto: payment methods are stored under a token, card numbers encrypted.
pub mod Crypto
pub mod Tokens
pub mod Sealed
pub mod Handler
pub mod Rest
mod Tests
