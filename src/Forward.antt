-- ===== src/Forward.antt =====
-- internal/forward: the arguments of OpenSSH control operations, and the table of forwards.
pub mod Control
pub mod Manager
