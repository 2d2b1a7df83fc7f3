-- ===== src/Fi/Memory/Register.antt =====
-- fi/memory.go: what the three ways to register memory give, and what they give back on failure.
use libfabric_go.Base.{
  ℕ, ◌≡◌, ◌≢◌, Bool, true, false, Option, none, some, List, [], ◌∷◌, arith, count_if,
  count_if-append, ◌==◌, ◌⊎◌, ◌+◌,
}
use libfabric_go.Base.Bits.{and_bits, and_bits-or_bits, and_bits_self}
use libfabric_go.Capi.Errors.{GoError, invalid_handle, Result, ok, err}
use libfabric_go.Fi.Memory.{
  Memory, Domain, Flags, Segment, RegisterOptions, MemoryEffect, allocated, freed, requires_mr_mode,
  unsupported_modes, requested_access, effective_access, register_memory_with_options,
  register_memory_segments, ensure_region_access,
}

-- A registration grants local access whenever the domain requires it, and whenever the caller asked
-- for no access at all.
effective_access-local :
    (k : Flags) (d : Domain) (opts : Option RegisterOptions)
    → (requires_mr_mode d k.mr_local ≡ true) ⊎ (requested_access opts ≡ 0)
    → and_bits (effective_access k d opts) k.mr_local ≡ k.mr_local
unfolding effective_access
effective_access-local k d opts h = ground (
  arith,
  and_bits-or_bits (requested_access opts) k.mr_local,
  and_bits-or_bits k.mr_local k.mr_local,
  and_bits_self k.mr_local,
)

-- A successful registration of a Go buffer makes one region: it is the last one, it is as long as the
-- buffer, owns an allocated copy, and passes the check for local access that every post makes, if the
-- domain requires local registration or the caller named no access flags. The domain had a handle and
-- none but supported modes, and the buffer was not empty. The C library returns no nil handle.
pub register_memory_ok :
    (k : Flags) (d : Domain) (size : ℕ) (opts : Option RegisterOptions) (cbuf mr : ℕ) (h : Memory)
    (id : ℕ)
    → mr ≢ 0
    → (register_memory_with_options k d size opts cbuf (ok mr) h).1 ≡ ok id
    → let h' = (register_memory_with_options k d size opts cbuf (ok mr) h).0 in
      (id ≡ h.next)
      × ((h'.regions id).len ≡ size)
      × (size ≢ 0)
      × (unsupported_modes k d ≡ 0)
      × ((h'.regions id).owns_buf ≡ true)
      × ((requires_mr_mode d k.mr_local ≡ true) ⊎ (requested_access opts ≡ 0)
          → ensure_region_access (some (h'.regions id)) k.mr_local ≡ none)
unfolding register_memory_with_options ensure_region_access
register_memory_ok k d size opts cbuf mr h id n e = (
  ground arith,
  ground arith,
  ground arith,
  ground arith,
  ground arith,
  λ w. ground (arith, effective_access-local k d opts w),
)

abbrev pub is_allocated : ℕ → MemoryEffect → Bool
is_allocated p (allocated q) = q == p
is_allocated p _ = false

abbrev pub is_freed : ℕ → MemoryEffect → Bool
is_freed p (freed q) = q == p
is_freed p _ = false

-- A registration of a Go buffer that fails, for whatever reason, leaves the regions alone and frees the
-- C copy as often as it allocated it.
pub register_memory_no_leak :
    (k : Flags) (d : Domain) (size : ℕ) (opts : Option RegisterOptions) (cbuf : ℕ)
    (reply : Result ℕ) (h : Memory) (e : GoError) (p : ℕ)
    → (register_memory_with_options k d size opts cbuf reply h).1 ≡ err e
    → let h' = (register_memory_with_options k d size opts cbuf reply h).0 in
      (h'.regions ≡ h.regions)
      × (h'.next ≡ h.next)
      × (count_if (is_allocated p) h'.log + count_if (is_freed p) h.log
          ≡ count_if (is_freed p) h'.log + count_if (is_allocated p) h.log)
unfolding register_memory_with_options
register_memory_no_leak k d size opts cbuf reply h e p r = (
  ground arith,
  ground arith,
  ground (
    arith,
    count_if-append (is_allocated p) h.log (allocated cbuf ∷ freed cbuf ∷ []),
    count_if-append (is_freed p) h.log (allocated cbuf ∷ freed cbuf ∷ []),
  ),
)

-- A region that was registered over a list of segments has no buffer of its own: every post with it is
-- refused as an invalid handle, whatever access it asks for.
pub segments_unusable :
    (k : Flags) (d : Domain) (segments : List Segment) (opts : Option RegisterOptions)
    (reply : Result ℕ) (h : Memory) (id required : ℕ)
    → (register_memory_segments k d segments opts reply h).1 ≡ ok id
    → ensure_region_access
        (some ((register_memory_segments k d segments opts reply h).0.regions id))
        required
      ≡ some (invalid_handle "memory region")
unfolding register_memory_segments ensure_region_access
segments_unusable k d segments opts reply h id required e = ground arith
