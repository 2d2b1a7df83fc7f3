-- ===== src/Fi/Memory.antt =====
-- fi/memory.go and internal/capi/mr.go: registered memory regions. Pointers and handles of the C
-- library are numbers, nil is 0. What the C library answers (an allocation, a registration, the close
-- of a handle) is an argument; a nil Go pointer to a domain or a region behaves as one whose handle is
-- nil, unless the function says otherwise. The bytes of the buffers are not modelled here.
pub mod Close
pub mod Register
use libfabric_go.Base.{
  ℕ, zero, suc, ◌+◌, ◌%◌, ◌^◌, String, Bool, true, false, not, ◌&&◌, ◌||◌, Option, none, some, List,
  [], ◌∷◌, ◌++◌, ◌==◌, ltb, if◌then◌else◌, length,
}
use libfabric_go.Base.Bits.{and_bits, or_bits, clear_bits}
use libfabric_go.Capi.Errors.{
  GoError, Sentinel, sentinel, message, wrapped, invalid_handle, Result, ok, err,
}

-- The values of the C header: the bit FI_MR_LOCAL, which is an access flag and a mode flag, and the
-- union of the mode flags that `supportedDomainMRModes` lists.
pub record Flags : Type 0 where
  pub mr_local : ℕ
  pub supported_modes : ℕ

pub record Domain : Type 0 where
  pub handle : ℕ
  pub mr_mode : ℕ
  pub mr_key_size : ℕ
  pub mr_iov_limit : ℕ

pub record Region : Type 0 where
  pub handle : ℕ
  pub buffer : ℕ
  pub len : ℕ
  pub access : ℕ
  pub desc_size : ℕ
  pub owns_buf : Bool

pub data MemoryEffect : Type 0 where
  allocated freed registered deregistered : ℕ → MemoryEffect

-- `regions` holds the regions that were made, by number, below `next`.
pub record Memory : Type 0 where
  pub regions : ℕ → Region
  pub next : ℕ
  pub log : List MemoryEffect

pub record RegisterOptions : Type 0 where
  pub access : ℕ
  pub requested_key : ℕ
  pub offset : ℕ
  pub flags : ℕ

pub record Segment : Type 0 where
  pub pointer : ℕ
  pub len : ℕ

abbrev pub update : (ℕ → Region) → ℕ → Region → ℕ → Region
update regions id m j = if id == j then m else regions j

abbrev pub closed_region : Region
closed_region = record {
  handle = 0;
  buffer = 0;
  len = 0;
  access = 0;
  desc_size = 0;
  owns_buf = false;
}

abbrev pub add_region : Region → List MemoryEffect → Memory → Memory × Result ℕ
add_region m effects h = (
  record h { regions = update h.regions h.next m; next = suc h.next; log = h.log ++ effects },
  ok h.next,
)

unfoldable pub requires_mr_mode : Domain → ℕ → Bool
requires_mr_mode d flag = if flag == 0 then false else not (and_bits d.mr_mode flag == 0)

-- The mode bits of the domain that the package cannot serve.
unfoldable pub unsupported_modes : Flags → Domain → ℕ
unsupported_modes k d = clear_bits d.mr_mode k.supported_modes

abbrev pub requested_access : Option RegisterOptions → ℕ
requested_access none = 0
requested_access (some o) = o.access

-- The access flags of a registration: local by default, and always where the domain wants it.
unfoldable pub effective_access : Flags → Domain → Option RegisterOptions → ℕ
unfolding requires_mr_mode
effective_access k d opts =
    let wanted = requested_access opts in
    let access = if wanted == 0 then k.mr_local else wanted in
    if requires_mr_mode d k.mr_local then or_bits access k.mr_local else access

abbrev pub unsupported : GoError
unsupported =
    wrapped "libfabric: domain requires unsupported mr_mode bits"
      (sentinel Sentinel.capability_unsupported)

-- `size` is `len(buf)`, `cbuf` the answer of `AllocBytes`, `reply` that of the registration.
unfoldable pub register_memory_with_options :
    Flags → Domain → ℕ → Option RegisterOptions → ℕ → Result ℕ → Memory → Memory × Result ℕ
unfolding unsupported_modes effective_access
register_memory_with_options k d size opts cbuf reply h =
    if d.handle == 0
    then (h, err (invalid_handle "domain"))
    else if size == 0
    then (h, err (message "libfabric: memory registration requires non-empty buffer"))
    else if not (unsupported_modes k d == 0)
    then (h, err unsupported)
    else if cbuf == 0
    then (h, err (message "libfabric: unable to allocate registration buffer"))
    else elim reply [
      | err e ↦ (record h { log = h.log ++ allocated cbuf ∷ freed cbuf ∷ [] }, err e)
      | ok mr ↦
          add_region
            (record {
              handle = mr;
              buffer = cbuf;
              len = size;
              access = effective_access k d opts;
              desc_size = d.mr_key_size;
              owns_buf = true;
            })
            (allocated cbuf ∷ registered mr ∷ []) h
    ]

-- `RegisterMemory` is the same with only the access flags chosen.
unfoldable pub register_memory : Flags → Domain → ℕ → ℕ → ℕ → Result ℕ → Memory → Memory × Result ℕ
unfolding register_memory_with_options
register_memory k d size access cbuf reply h =
    register_memory_with_options k d size
      (some (record { access = access; requested_key = 0; offset = 0; flags = 0 })) cbuf reply h

unfoldable pub register_memory_pointer :
    Flags → Domain → ℕ → ℕ → Option RegisterOptions → Result ℕ → Memory → Memory × Result ℕ
unfolding unsupported_modes effective_access
register_memory_pointer k d ptr size opts reply h =
    if d.handle == 0
    then (h, err (invalid_handle "domain"))
    else if ptr == 0 || size == 0
    then (
      h,
      err (message "libfabric: pointer registration requires non-nil pointer and positive length"),
    )
    else if not (unsupported_modes k d == 0)
    then (h, err unsupported)
    else elim reply [
      | err e ↦ (h, err e)
      | ok mr ↦
          add_region
            (record {
              handle = mr;
              buffer = ptr;
              len = size;
              access = effective_access k d opts;
              desc_size = d.mr_key_size;
              owns_buf = false;
            })
            (registered mr ∷ []) h
    ]

-- The loop over the segments: none if one is unusable, else the sum of the lengths in 64 bits.
unfoldable pub segments_total : List Segment → ℕ → Option ℕ
segments_total [] total = some total
segments_total (seg ∷ segs) total =
    let rest = segments_total segs ((total + seg.len) % 2 ^ 64) in
    if seg.pointer == 0 || seg.len == 0 then none else rest

unfoldable pub register_memory_segments :
    Flags → Domain → List Segment → Option RegisterOptions → Result ℕ → Memory → Memory × Result ℕ
unfolding unsupported_modes effective_access
register_memory_segments k d segments opts reply h =
    if d.handle == 0
    then (h, err (invalid_handle "domain"))
    else if length segments == 0
    then (h, err (message "libfabric: memory registration requires at least one segment"))
    else if not (unsupported_modes k d == 0)
    then (h, err unsupported)
    else if ltb 0 d.mr_iov_limit && ltb d.mr_iov_limit (length segments)
    then (h, err (message "libfabric: provider allows fewer segments"))
    else elim (segments_total segments 0) [
      | none ↦ (h, err (message "libfabric: segment requires non-nil pointer and length"))
      | some total ↦ elim reply [
        | err e ↦ (h, err e)
        | ok mr ↦
            add_region
              (record {
                handle = mr;
                buffer = 0;
                len = total;
                access = effective_access k d opts;
                desc_size = d.mr_key_size;
                owns_buf = false;
              })
              (registered mr ∷ []) h
      ]
    ]

unfoldable pub has_access : Region → ℕ → Bool
has_access m flag = and_bits m.access flag == flag

-- No region asks for nothing.
unfoldable pub ensure_region_access : Option Region → ℕ → Option GoError
unfolding has_access
ensure_region_access none required = none
ensure_region_access (some m) required =
    if m.handle == 0 || m.buffer == 0
    then some (invalid_handle "memory region")
    else if not (required == 0) && not (has_access m required)
    then some (sentinel Sentinel.insufficient_access)
    else none

abbrev pub free_owned : Region → List MemoryEffect
free_owned m = if not (m.buffer == 0) && m.owns_buf then freed m.buffer ∷ [] else []

abbrev pub deregister : Region → List MemoryEffect
deregister m = if m.handle == 0 then [] else deregistered m.handle ∷ []

-- `closes` is the answer of `fi_close` for a handle, `none` for success.
unfoldable pub close_region : (ℕ → Option GoError) → ℕ → Memory → Memory × Option GoError
close_region closes id h =
    let m = h.regions id in
    let refusal = if m.handle == 0 then none else closes m.handle in
    elim refusal [
      | some e ↦ (h, some e)
      | none ↦ (
        record h {
          regions = update h.regions id closed_region;
          log = h.log ++ (deregister m ++ free_owned m);
        },
        none,
      )
    ]
