-- ===== src/Runtime/Layout.antt =====
-- src/runtime/src/lib.rs: the bytes of `SpankerVersionRaw`, a `#[repr(C)]` struct, which is laid out by the
-- rules of C.
use spanker.Common.{
  ℕ, zero, suc, ◌+◌, ◌-◌, ◌*◌, ◌/◌, ◌%◌, ◌^◌, ◌<◌, ◌≡◌, List, [], ◌∷◌, ◌++◌, take, drop, length,
  replicate, arith,
}
use spanker.Runtime.Control.{SpankerVersionRaw}

-- A member of a struct.
pub record Field : Type 0 where
  pub size : ℕ
  pub align : ℕ

abbrev pub u16 : Field
u16 = record { size = 2; align = 2 }

abbrev larger : ℕ → ℕ → ℕ
larger m n = m + (n - m)

-- The next multiple of the alignment.
abbrev pub aligned : ℕ → ℕ → ℕ
aligned offset align = (offset + (align - 1)) / align * align

-- Each member stands at the next multiple of its alignment after the one before it.
unfoldable pub offsets_from : ℕ → List Field → List ℕ
offsets_from at [] = []
offsets_from at (f ∷ fields) =
    aligned at f.align ∷ offsets_from (aligned at f.align + f.size) fields

unfoldable pub end_from : ℕ → List Field → ℕ
end_from at [] = at
end_from at (f ∷ fields) = end_from (aligned at f.align + f.size) fields

unfoldable pub align_of : List Field → ℕ
align_of [] = 1
align_of (f ∷ fields) = larger f.align (align_of fields)

-- `sizeof` in C and `size_of` of a `#[repr(C)]` struct.
unfoldable pub size_of : List Field → ℕ
unfolding end_from align_of
size_of fields = aligned (end_from 0 fields) (align_of fields)

-- The members of `SpankerVersionRaw`.
abbrev pub raw_fields : List Field
raw_fields = u16 ∷ u16 ∷ u16 ∷ u16 ∷ []

pub data ByteOrder : Type 0 where
  little : ByteOrder
  big : ByteOrder

abbrev pub u16_bytes : ByteOrder → ℕ → List ℕ
u16_bytes little n = n % 2 ^ 8 ∷ n / 2 ^ 8 % 2 ^ 8 ∷ []
u16_bytes big n = n / 2 ^ 8 % 2 ^ 8 ∷ n % 2 ^ 8 ∷ []

abbrev pub u16_value : ByteOrder → ℕ → ℕ → ℕ
u16_value little x y = x + 2 ^ 8 * y
u16_value big x y = 2 ^ 8 * x + y

-- The byte at an address inside the struct, and the value of a member.
abbrev pub byte_at : List ℕ → ℕ → ℕ
byte_at [] i = 0
byte_at (b ∷ bytes) zero = b
byte_at (b ∷ bytes) (suc i) = byte_at bytes i

-- Stores bytes over a part of a memory.
abbrev pub store_at : ℕ → List ℕ → List ℕ → List ℕ
store_at at bytes memory = take at memory ++ bytes ++ drop (at + length bytes) memory

unfoldable pub store_fields : ByteOrder → List ℕ → List ℕ → List ℕ → List ℕ
store_fields order (at ∷ offsets) (value ∷ values) memory =
    store_fields order offsets values (store_at at (u16_bytes order value) memory)
store_fields order offsets values memory = memory

unfoldable pub load_fields : ByteOrder → List ℕ → List ℕ → List ℕ
load_fields order [] memory = []
load_fields order (at ∷ offsets) memory =
    u16_value order (byte_at memory at) (byte_at memory (at + 1)) ∷ load_fields order offsets memory

-- The bytes of a version struct with these members.
unfoldable pub to_bytes : List Field → ByteOrder → SpankerVersionRaw → List ℕ
unfolding offsets_from size_of store_fields
to_bytes fields order v =
    store_fields order (offsets_from 0 fields) (v.major ∷ v.minor ∷ v.patch ∷ v.reserved ∷ [])
      (replicate (size_of fields) 0)

-- The version struct with these members that a memory holds.
unfoldable pub from_bytes : List Field → ByteOrder → List ℕ → SpankerVersionRaw
unfolding offsets_from load_fields
from_bytes fields order memory =
    let values = load_fields order (offsets_from 0 fields) memory in
    record {
      major = byte_at values 0;
      minor = byte_at values 1;
      patch = byte_at values 2;
      reserved = byte_at values 3;
    }

-- The members are `u16`.
pub record IsRaw (v : SpankerVersionRaw) : Type 0 where
  pub major_fits : v.major < 2 ^ 16
  pub minor_fits : v.minor < 2 ^ 16
  pub patch_fits : v.patch < 2 ^ 16
  pub reserved_fits : v.reserved < 2 ^ 16

raw_equal :
    (v w : SpankerVersionRaw)
    → v.major ≡ w.major
    → v.minor ≡ w.minor
    → v.patch ≡ w.patch
    → v.reserved ≡ w.reserved
    → v ≡ w
raw_equal v w p q r s = λ i. record { major = p i; minor = q i; patch = r i; reserved = s i }

-- Reading the bytes of a version struct, in the byte order in which they were written, gives it back.
pub from_bytes-to_bytes :
    (order : ByteOrder) (v : SpankerVersionRaw)
    → IsRaw v
    → from_bytes raw_fields order (to_bytes raw_fields order v) ≡ v
unfolding from_bytes to_bytes
from_bytes-to_bytes little v h =
    raw_equal _ v (omega arith) (omega arith) (omega arith) (omega arith)
from_bytes-to_bytes big v h = raw_equal _ v (omega arith) (omega arith) (omega arith) (omega arith)
