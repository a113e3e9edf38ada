-- ===== src/Driver.antt =====
-- src/driver: the kernel module behind `/dev/spankerctl`.
pub mod Ioctl
pub mod Lifecycle
