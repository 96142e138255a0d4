-- ===== src/Irc.antt =====
-- The IRC side, internal/irc.
pub mod Limiter
