-- ===== src/Compiler.antt =====
-- internal/compiler: the command line of a compiler.
pub mod Files
pub mod Args
pub mod Replay
pub mod RoundTrip
