-- ===== src/Runtime.antt =====
-- runtime/runtime_app: the reference model runtime.
pub mod Config
pub mod Classifier
pub mod App
pub mod Ready
pub mod Overflow
mod Tests
