-- ===== src/Lib.antt =====
-- Spanker: the userspace stack of the Sails accelerator cards. This library models its Rust crates
-- and the ioctl dispatcher of its kernel module.
--
-- The parts of the program, from the hardware up, and the modules that model them:
--   - src/driver: the kernel module. `spanker_ctl_ioctl` of spanker_ioctl.c answers PING and
--     GET_VERSION on `/dev/spankerctl`. Driver.Ioctl has the dispatcher as a function of the
--     request code and of whether `copy_to_user` succeeds; it returns the error number and what
--     was copied to the user in full, if anything. Driver.Ioctl.Memory has it over the bytes of
--     the user's memory. `spanker_init` and `spanker_exit` of spanker_main.c load and unload the
--     module. Driver.Lifecycle has them over a `Kernel`, a record of what each kernel call answers
--     after the calls made before; the state is the static variables and the list of calls.
--     Driver.Lifecycle.Balance reads off that list which resources are held.
--   - src/runtime/src/lib.rs: `SpankerControl`, the handle whose methods `open`, `open_path`,
--     `ping` and `version` call the driver. Runtime.Control has them over a `Host`, a record of
--     what the operating system and the `nix` wrappers do: which paths exist, what opening one
--     returns, what each ioctl returns. Runtime.EndToEnd fills the host's ioctls with the driver's
--     dispatcher, and Runtime.Wire with the dispatcher over memory, by the layout of
--     Runtime.Layout. Runtime.Smoke is the test of src/runtime/tests as a function of the host.
--   - src/backends/ggml: the Q4_K matmul backend. Ggml.Layout has the constants, the error type
--     and the buffer sizes of lib.rs (`expected_a_bytes` and its siblings), Ggml.Mock the
--     `MockSail` of mock.rs, whose state is the list of recorded transactions, Ggml.Sail the
--     deferred device path of sail.rs, and Ggml.Traits the trait that both implement.
--     Ggml.Mock.Traffic describes the traffic of calls by their dimensions, and Ggml.Mock.Threads
--     runs calls of several threads on one mock as a step relation: the body of `matmul_q4_k` is a
--     program of pushes (`matmul_program`), and a step is the next push of one thread, under the
--     mutex. Ggml.Build is build.rs, over any environment and bindgen library.
--   - src/scheduler: the multi-card scheduler. Scheduler.Topology is topology.rs: the topology
--     of sails and links, `with_mock`, and `enumerate`, which opens device nodes through
--     Runtime.Control and a host. Scheduler.Topology.Live has the walk on a host that changes with
--     every call, with the descriptors that it opens and closes. Scheduler.Collective is
--     collective.rs: `validate_uniform`, `all_gather_f32` and `all_reduce_f32`, the last with the
--     buffers that it leaves beside its result; Scheduler.Collective.Traits has its traits and
--     their implementations. Scheduler.Decision is decision.rs: `pick_strategy` on a tile's two
--     costs; Scheduler.Decision.Exact sets its choice against the costs of the code's byte counts
--     as exact fractions, compared by cross products; these counts saturate as in the code.
--     Scheduler.Decision.Optimal does so for numbers that `f64` holds exactly,
--     Scheduler.Decision.RevA for the bandwidths of bandwidth.rs. Scheduler.Intercard, Bandwidth
--     and Failure are intercard.rs, bandwidth.rs and the error type of lib.rs.
-- Common holds what the models share: lists measured by native numbers, machine words, results, and
-- the texts of numbers.
-- Float64 is the arithmetic of `f64` and Float32 that of `f32`. Examples has the unit tests and the
-- integration tests of the Rust sources, as Boolean definitions, and applies the theorems at concrete
-- inputs.
--
-- How the code is read:
--   - `u64` is a natural number, and `usize` is one of 64 bits: saturating and checked products
--     compare with `word_max` (Common.Word). Theorems on arguments of `u64` say that they are at most
--     `word_max`. A slice length is any natural number.
--   - `f64` occurs in decision.rs only, on values that are not negative. It is modelled by its
--     definition, not by parameters: a finite value is a number of units of 2^-1074, an operation
--     rounds the exact result to 53 significant bits, ties to even, and overflows to infinity; a NaN
--     is a value of its own, and every comparison with it fails. To find the spacing of values near a
--     quotient q the code of the model halves q at most q times, which is enough since a half of a
--     positive number is smaller than it.
--   - `f32` occurs in collective.rs only. The operations there are stated over any type with the
--     operations that the code uses (the record `Float32`), so that the results which do not depend on
--     rounding hold for every such type. The module Float32 defines binary32 itself, with signs,
--     infinities and NaN: a finite value is a sign and a number of units of 2^-149, and rounding is
--     that of `f64` with 24 bits. Scheduler.Collective.Single, Sums, SumError, SumFinite and
--     MeanError are about the code on that type, and the tests run on it.
--   - The `Display` of the error types is what their `#[error]` attributes say (`display`), over the
--     texts of `io::Error` and `nix::Error`, which are a parameter. Common.Message reads the numbers
--     of a text back, its maximal runs of digits.
--   - A panic is `none` where the code can index out of range (`per_card[0]`); an `Err` is `err`.
--   - `&mut self` and `&mut [Vec<f32>]` are passed in and returned beside the result.
--   - The loop `for index in 0..256` of `enumerate` is structural recursion on the rounds left, 256 at
--     the start. The digits of a device index are printed with the index itself as fuel, which is at
--     least its number of digits less one, as many recursive calls as printing takes.
--
-- What is not modelled: the PCI callbacks and the messages of spanker_main.c, which only log;
-- the bindings that build.rs generates; a mutex poisoned by a panicking thread;
-- capacities of vectors, which do not change a result; the test that a type is `Copy`, which
-- only a compiler decides; documents and CI files.
pub mod Common
pub mod Float64
pub mod Float32
pub mod Driver
pub mod Runtime
pub mod Ggml
pub mod Scheduler
pub mod Examples
