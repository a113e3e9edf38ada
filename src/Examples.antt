-- ===== src/Examples.antt =====
-- Tests, and the theorems at concrete inputs.
mod Decision
mod Rounding
mod Messages
mod Bandwidth
mod Tiles
mod Buffers
mod TopologyMock
mod Integration
mod Devices
mod Live
mod Build
mod Cards
mod Floats
mod Sums
mod Errors
mod Ggml
mod Threads
mod Driver
mod Runtime
mod Topology
mod Collective
