-- ===== src/Bus.antt =====
-- internal/bus: the vocabulary of the daemon, the validation of what a caller sends, and the
-- comparison by which a retried send is recognised.
pub mod Result
pub mod Caller
pub mod Types
pub mod Text
pub mod Normalize
pub mod Equivalent
