-- ===== src/Fi/Post.antt =====
-- fi/messaging.go, fi/tagged.go and fi/rma.go: the six operations that post a request on an endpoint.
-- A request names a slice of Go memory, may bring a completion context, and may bring a registered
-- region. What the C library answers is an argument, and what it accepted is listed in `issued`. A nil
-- endpoint behaves as one whose handle is nil; a nil request is `none`.
pub mod Message
pub mod Tagged
pub mod Rma
pub mod Staging
pub mod Requests
pub mod Fresh
pub mod Delivery
pub mod Passed
pub mod Values
pub mod Invariant
use libfabric_go.Base.{
  ℕ, ◌-◌, ◌^◌, Bool, true, false, Option, none, some, List, [], ◌∷◌, ◌==◌, ltb, if◌then◌else◌,
  String,
}
use libfabric_go.Capi.Errors.{GoError, message, invalid_handle, Result, ok, err}
use libfabric_go.Fi.Context.Effects.{Slice}
use libfabric_go.Fi.Context.{
  Runtime, new_completion_context, is_released, release, ensure_buffer, set_copy_back,
}
use libfabric_go.Fi.Memory.{Region, ensure_region_access}

pub record Endpoint : Type 0 where
  pub handle : ℕ
  pub inject_limit : ℕ
  pub supports_tagged : Bool

-- capi.FIAddrUnspec
abbrev pub address_unspecified : ℕ
address_unspecified = 2 ^ 64 - 1

-- The answers of the C library, each read only if the call is made: the context and the buffer that are
-- allocated (0 for nil), and the errors of the inject call and of the posting call.
pub record Answers : Type 0 where
  pub new_context : ℕ
  pub new_buffer : ℕ
  pub inject : Option GoError
  pub post : Option GoError

-- What the provider accepted: the memory, its length, the peer, and the context pointer.
pub data Issue : Type 0 where
  injected : Slice → ℕ → Issue
  sent received : ℕ → ℕ → ℕ → ℕ → Issue
  tagged_sent : ℕ → ℕ → ℕ → ℕ → ℕ → Issue
  tagged_received : ℕ → ℕ → ℕ → ℕ → ℕ → ℕ → Issue
  read_from written_to : ℕ → ℕ → ℕ → ℕ → ℕ → ℕ → Issue

-- The contexts, what was issued, and the context that the caller gets: none if there is none to wait for.
pub record Posted : Type 0 where
  pub runtime : Runtime
  pub issued : List Issue
  pub result : Result (Option ℕ)

abbrev pub refused : Runtime → GoError → Posted
refused r e = record { runtime = r; issued = []; result = err e }

unfoldable pub ensure_context : Option ℕ → ℕ → Runtime → Runtime × Result ℕ
ensure_context none ptr r = new_completion_context ptr r
ensure_context (some id) ptr r =
    if is_released id r
    then (r, err (message "libfabric: completion context already released"))
    else (r, ok id)

-- The memory of a request: its address and length, or the error behind a released context.
abbrev pub Staged : Type 0
Staged = Runtime × Result (ℕ × ℕ)

abbrev pub fail : ℕ → GoError → Runtime → Staged
fail id e r = (release id r, err e)

-- `ctx.ensureBuffer`, and a release of the context if there is no memory.
unfoldable pub staged_buffer : ℕ → ℕ → Runtime × Result ℕ → Staged
staged_buffer id size (r, ok buf) = (r, ok (buf, size))
staged_buffer id size (r, err e) = fail id e r

unfoldable pub stage_buffer : ℕ → ℕ → ℕ → Runtime → Staged
unfolding staged_buffer
stage_buffer id size alloc r = staged_buffer id size (ensure_buffer id size alloc r)

-- The branch of a request with a region. `local` is MRAccessLocal.
unfoldable pub stage_region : ℕ → Region → ℕ → ℕ → String → Runtime → Staged
stage_region local m size id text r = elim (ensure_region_access (some m) local) [
  | some e ↦ fail id e r
  | none ↦
      if size == 0
      then (r, ok (m.buffer, m.len))
      else if ltb m.len size
      then fail id (message text) r
      else (r, ok (m.buffer, size))
]

-- `ctx.setCopyBack(req.Buffer)` behind a stage that worked.
unfoldable pub copying_back : ℕ → Slice → Staged → Staged
copying_back id s (r, ok place) = (set_copy_back id s r, ok place)
copying_back id s (r, err e) = (r, err e)

-- The memory of an operation that sends: the region, or a copy in the context's buffer, or `missing`
-- where the request has neither a region nor a byte.
unfoldable pub stage_out : String → ℕ → Option Region → ℕ → ℕ → ℕ → Staged → Runtime → Staged
unfolding stage_region stage_buffer
stage_out text local (some m) size id alloc missing r = stage_region local m size id text r
stage_out text local none size id alloc missing r =
    if ltb 0 size then stage_buffer id size alloc r else missing

-- The same for an operation that receives into `s`, which is copied back on completion.
unfoldable pub stage_in : String → ℕ → Option Region → Slice → ℕ → ℕ → Staged → Runtime → Staged
unfolding stage_region stage_buffer copying_back
stage_in text local (some m) s id alloc missing r =
    let staged = stage_region local m s.len id text r in
    if ltb 0 s.len then copying_back id s staged else staged
stage_in text local none s id alloc missing r =
    if ltb 0 s.len then copying_back id s (stage_buffer id s.len alloc r) else missing

-- The posting call over the staged memory, and a release of the context if it is refused. `issue` is
-- given the memory, its length and the context pointer.
unfoldable pub submit : ℕ → (ℕ → ℕ → ℕ → Issue) → Option GoError → Staged → Posted
submit id issue answer (r, err e) = refused r e
submit id issue answer (r, ok (buf, len)) = elim answer [
  | none ↦ record {
    runtime = r;
    issued = issue buf len (r.objects id).ptr ∷ [];
    result = ok (some id);
  }
  | some e ↦ refused (release id r) e
]
