-- ===== src/Driver/Ioctl/Memory.antt =====
-- src/driver/spanker_ioctl.c, with the memory that the user passes: the struct is copied byte by byte, and
-- the copy may stop in the middle. `copy_to_user` of the kernel is the parameter `CopyToUser`.
use spanker.Common.{
  ℕ, ◌-◌, ◌≤◌, ◌≡◌, refl, not, ◌==◌, if◌then◌else◌, List, [], ◌∷◌, ◌++◌, take, drop, length, arith,
}
use spanker.Driver.Ioctl.{
  IoctlCodes, IsEncoding, Reply, done, enotty, efault, driver_version, sizeof_spanker_version,
  spanker_ioc_magic, spanker_ioc_ping, spanker_ioc_get_version, spanker_ctl_ioctl,
}
use spanker.Runtime.Layout.{Field, u16, ByteOrder, size_of, to_bytes}

-- The members of `struct spanker_version`, and its size.
abbrev pub spanker_version_fields : List Field
spanker_version_fields = u16 ∷ u16 ∷ u16 ∷ u16 ∷ []

sizeof-spanker_version : size_of spanker_version_fields ≡ sizeof_spanker_version
unfolding size_of
sizeof-spanker_version = refl

-- The memory at the user's pointer and the bytes to copy, against the number of bytes that were not
-- copied and the memory afterwards.
pub record CopyToUser : Type 0 where
  pub copy : List ℕ → List ℕ → ℕ × List ℕ

-- What the kernel documents: the bytes before those not copied have been copied.
abbrev pub IsCopy : CopyToUser → Type 0
IsCopy k =
    (memory source : List ℕ)
    → let (left, after) = k.copy memory source in
      (left ≤ length source)
      × (after ≡ take (length source - left) source ++ drop (length source - left) memory)

module _ (c : IoctlCodes) (k : CopyToUser) (order : ByteOrder) where
  abbrev pub answer_copied : ℕ × List ℕ → Reply × List ℕ
  answer_copied (left, after) = if left == 0 then (done, after) else (efault, after)

  -- The reply, and the user's memory afterwards.
  unfoldable pub ioctl_on_memory : ℕ → List ℕ → Reply × List ℕ
  ioctl_on_memory cmd memory =
      if not (c.ioc_type cmd == spanker_ioc_magic)
      then (enotty, memory)
      else if cmd == spanker_ioc_ping c
      then (done, memory)
      else if cmd == spanker_ioc_get_version c
      then answer_copied (k.copy memory (to_bytes spanker_version_fields order driver_version))
      else (enotty, memory)

  -- The number of bytes that a copy of the version leaves out.
  abbrev pub left_out : List ℕ → ℕ
  left_out memory = (k.copy memory (to_bytes spanker_version_fields order driver_version)).0

  -- The replies are those of the dispatcher that is told whether everything can be copied.
  pub ioctl_on_memory-reply :
      (cmd : ℕ) (memory : List ℕ)
      → (ioctl_on_memory cmd memory).0 ≡ (spanker_ctl_ioctl c (left_out memory == 0) cmd).0
  unfolding ioctl_on_memory spanker_ctl_ioctl
  ioctl_on_memory-reply cmd memory = ground arith

  module _ (enc : IsEncoding c) (memory : List ℕ) where
    pub ioctl_on_memory-ping : ioctl_on_memory (spanker_ioc_ping c) memory ≡ (done, memory)
    unfolding ioctl_on_memory
    ioctl_on_memory-ping = let p = enc.type-io 0xE3 1 (omega arith) (omega arith) in ground arith

    pub ioctl_on_memory-get_version :
        ioctl_on_memory (spanker_ioc_get_version c) memory
        ≡ answer_copied (k.copy memory (to_bytes spanker_version_fields order driver_version))
    unfolding ioctl_on_memory
    ioctl_on_memory-get_version =
        let v = enc.type-ior 0xE3 2 8 (omega arith) (omega arith) (omega arith) in
        let d = enc.io-ne-ior 0xE3 1 2 8 (omega arith) (omega arith) (omega arith) (omega arith) in
        ground arith
