-- ===== src/Examples/Messages.antt =====
-- The texts of some errors of the crates, as `#[error(...)]` writes them.
use spanker.Common.{◌≡◌, refl}
use spanker.Runtime.Control
use spanker.Runtime.Control.{ErrnoTexts, open_failed, ioctl_failed}
use spanker.Ggml.Layout
use spanker.Ggml.Layout.{bad_dims, output_too_small}
use spanker.Scheduler.Failure
use spanker.Scheduler.Failure.{topology_mismatch, shape_mismatch, not_implemented, runtime}

-- Texts for the error numbers 2 and 14, the only ones in the examples.
abbrev pub linux_texts : ErrnoTexts
linux_texts = record {
  io_text = λ n. "No such file or directory (os error 2)";
  nix_text = λ n. "EFAULT: Bad address";
}

open_text :
    Control.display linux_texts (open_failed "/dev/spankerctl" 2)
    ≡ "open /dev/spankerctl: No such file or directory (os error 2)"
unfolding Control.display
open_text = refl

ioctl_text :
    Failure.display linux_texts (runtime (ioctl_failed "GET_VERSION" 14))
    ≡ "ioctl SPANKER_IOC_GET_VERSION failed: EFAULT: Bad address"
unfolding Failure.display
ioctl_text = refl

shape_text :
    Failure.display linux_texts (shape_mismatch 1 2 1)
    ≡ "buffer shape mismatch on sail 1: expected 2 elems, got 1"
unfolding Failure.display
shape_text = refl

topology_text :
    Failure.display linux_texts (topology_mismatch 2 13)
    ≡ "topology mismatch: expected 2 sails, got 13"
unfolding Failure.display
topology_text = refl

dims_text :
    Layout.display linux_texts (bad_dims 1 100 1 256)
    ≡ "bad dims: m=1 k=100 n=1; require k % 256 == 0 and slice lens consistent"
unfolding Layout.display
dims_text = refl

small_text :
    Layout.display linux_texts (output_too_small 4 64)
    ≡ "output buffer too small: have 4 bytes, need 64"
unfolding Layout.display
small_text = refl
