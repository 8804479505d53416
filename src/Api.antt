-- ===== src/Api.antt =====
-- api: the two middlewares in front of every handler.
pub mod RateLimit
pub mod AuthGate
