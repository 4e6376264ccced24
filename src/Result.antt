-- ===== src/Result.antt =====
-- src/ice/include/ice/result.hpp: `result_storage`, `result<T>`, `result<void>` and their
-- comparisons, with exceptions switched on.
pub mod Storage
pub mod Access
pub mod Compare
pub mod Members
mod Tests
