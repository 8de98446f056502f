-- ===== src/Log.antt =====
-- packages/log: operations, signed heads and the log.
pub mod Op
pub mod Head
pub mod HeadStore
pub mod OpLog
