-- ===== src/Runtime.antt =====
-- src/runtime/src/lib.rs: the blocking handle over the control device `/dev/spankerctl`.
pub mod Control
pub mod EndToEnd
pub mod Smoke
pub mod Layout
pub mod Wire
