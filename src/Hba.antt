-- ===== src/Hba.antt =====
-- pgbouncer-1.25.0/src/hba.c: the rules that say which clients are let in, and how.
pub mod Text
pub mod StrSet
pub mod Tokens
pub mod Types
pub mod Names
pub mod Address
pub mod Ident
pub mod Rules
pub mod Match
