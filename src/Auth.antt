-- ===== src/Auth.antt =====
-- internal/auth: hashes of passwords and of tokens, and the box of secrets.
pub mod Hex
pub mod Base64
pub mod Password
pub mod SecretBox
