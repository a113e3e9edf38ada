-- ===== src/Ggml.antt =====
-- src/backends/ggml: the Q4_K matmul backend.
pub mod Layout
pub mod Mock
pub mod Sail
pub mod Build
pub mod Traits
