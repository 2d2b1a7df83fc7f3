-- ===== src/Fi/Post/Invariant.antt =====
-- fi/messaging.go: a send and a receive keep the invariant of the registry of contexts.
use libfabric_go.Base.{
  ℕ, ◌≡◌, ◌<◌, Option, none, some, arith, Bool-cases, inl, inr, ◌==◌, String, ltb, ◌&&◌, not,
  is_some, lookup, false, Option-cases,
}
use libfabric_go.Capi.Errors.{GoError, Result, ok, err}
use libfabric_go.Fi.Context.{
  Runtime, new_completion_context, release, release_with, ensure_buffer, set_copy_back,
}
use libfabric_go.Fi.Context.Registry.{
  Inv, new-Inv, release_with-Inv, set_copy_back-Inv, ensure_buffer-Inv,
}
use libfabric_go.Fi.Context.Effects.{Slice}
use libfabric_go.Fi.Memory.{Region, ensure_region_access}
use libfabric_go.Fi.Post.{
  Endpoint, Answers, Issue, Staged, ensure_context, stage_buffer, staged_buffer, stage_region,
  stage_out, stage_in, copying_back, submit, sent, received,
}
use libfabric_go.Fi.Post.Message.{
  SendRequest, RecvRequest, stage_send, stage_recv, send_on, recv_on, post_send, post_recv,
  may_inject, source_of,
}

-- The invariant, with a context that was made.
abbrev Sound : ℕ → Runtime → Type 0
Sound id r = Inv r × (id < r.next)

release-Sound : (id : ℕ) (r : Runtime) → Sound id r → Sound id (release id r)
unfolding release
release-Sound id r (v, h) =
    (release_with-Inv r false id h v, unfold release_with in ground (arith, h))

-- The context that a post goes on with, if it gets one.
abbrev Given : Runtime × Result ℕ → Type 0
Given (r, ok id) = Sound id r
Given (r, err e) = Inv r

new_context-Given :
    (c : Option ℕ) (ptr : ℕ) (r : Runtime)
    → c ≡ none
    → lookup ptr r.registry ≡ none
    → Inv r
    → Given (ensure_context c ptr r)
unfolding ensure_context new_completion_context
new_context-Given c ptr r n f v =
    let after = new-Inv r ptr f v in
    elim (Bool-cases (ptr == 0)) [
      | inl z ↦ rw (n, z) v
      | inr z ↦ rw (n, z) (rw (z, new_completion_context) at after, omega arith)
    ]

staged_buffer-Sound :
    (id size : ℕ) (o : Runtime × Result ℕ) → Sound id o.0 → Sound id (staged_buffer id size o).0
unfolding staged_buffer
staged_buffer-Sound id size (r, ok buf) v = v
staged_buffer-Sound id size (r, err e) v = release-Sound id r v

ensure_buffer_next :
    (id size alloc : ℕ) (r : Runtime) → (ensure_buffer id size alloc r).0.next ≡ r.next
unfolding ensure_buffer
ensure_buffer_next id size alloc r = ground arith

stage_buffer-Sound :
    (id size alloc : ℕ) (r : Runtime) → Sound id r → Sound id (stage_buffer id size alloc r).0
unfolding stage_buffer
stage_buffer-Sound id size alloc r (v, h) =
    staged_buffer-Sound id size (ensure_buffer id size alloc r)
      (ensure_buffer-Inv r id size alloc v, omega (arith, h, ensure_buffer_next id size alloc r))

stage_region-Sound :
    (local : ℕ) (m : Region) (size id : ℕ) (text : String) (r : Runtime)
    → Sound id r
    → Sound id (stage_region local m size id text r).0
unfolding stage_region
stage_region-Sound local m size id text r v =
    let gone = release-Sound id r v in
    elim (Option-cases (ensure_region_access (some m) local)) [
      | inr (e, x) ↦ simp (x, stage_region) gone
      | inl x ↦ elim (Bool-cases (size == 0)) [
        | inl z ↦ simp (x, z, stage_region) v
        | inr z ↦ elim (Bool-cases (ltb m.len size)) [
          | inl l ↦ simp (x, z, l, stage_region) gone
          | inr l ↦ simp (x, z, l, stage_region) v
        ]
      ]
    ]

copying_back-Sound :
    (id : ℕ) (s : Slice) (t : Staged) → Sound id t.0 → Sound id (copying_back id s t).0
unfolding copying_back
copying_back-Sound id s (r, ok place) (v, h) =
    (set_copy_back-Inv r id s v, unfold set_copy_back in h)
copying_back-Sound id s (r, err e) v = v

stage_out-Sound :
    (text : String) (local : ℕ) (region : Option Region) (size id alloc : ℕ) (missing : Staged)
    (r : Runtime)
    → Sound id r
    → Sound id missing.0
    → Sound id (stage_out text local region size id alloc missing r).0
unfolding stage_out
stage_out-Sound text local (some m) size id alloc missing r v w =
    stage_region-Sound local m size id text r v
stage_out-Sound text local none size id alloc missing r v w = elim (Bool-cases (ltb 0 size)) [
  | inl e ↦ rw (e, stage_out) (stage_buffer-Sound id size alloc r v)
  | inr e ↦ rw (e, stage_out) w
]

stage_in-Sound :
    (text : String) (local : ℕ) (region : Option Region) (s : Slice) (id alloc : ℕ)
    (missing : Staged) (r : Runtime)
    → Sound id r
    → Sound id missing.0
    → Sound id (stage_in text local region s id alloc missing r).0
unfolding stage_in
stage_in-Sound text local (some m) s id alloc missing r v w =
    let staged = stage_region-Sound local m s.len id text r v in
    elim (Bool-cases (ltb 0 s.len)) [
      | inl e ↦
          rw (e, stage_in) (copying_back-Sound id s (stage_region local m s.len id text r) staged)
      | inr e ↦ rw (e, stage_in) staged
    ]
stage_in-Sound text local none s id alloc missing r v w = elim (Bool-cases (ltb 0 s.len)) [
  | inl e ↦
      rw (e, stage_in)
        (copying_back-Sound id s (stage_buffer id s.len alloc r)
          (stage_buffer-Sound id s.len alloc r v))
  | inr e ↦ rw (e, stage_in) w
]

submit-Inv :
    (id : ℕ) (issue : ℕ → ℕ → ℕ → Issue) (answer : Option GoError) (t : Staged)
    → Sound id t.0
    → Inv (submit id issue answer t).runtime
unfolding submit
submit-Inv id issue answer (r, err e) (v, h) = v
submit-Inv id issue none (r, ok (buf, len)) (v, h) = v
submit-Inv id issue (some e) (r, ok (buf, len)) v = (release-Sound id r v).0

send_on-Inv :
    (local : ℕ) (e : Endpoint) (q : SendRequest) (ans : Answers) (o : Runtime × Result ℕ)
    → Given o
    → Inv (send_on local e q ans o).runtime
unfolding send_on stage_send
send_on-Inv local e q ans (r, err x) v = v
send_on-Inv local e q ans (r, ok id) v =
    elim (Bool-cases (may_inject e q && not (is_some ans.inject))) [
      | inl h ↦ rw (h, send_on) (release-Sound id r v).0
      | inr h ↦
          rw (h, send_on)
            (submit-Inv id (λ buf len ptr. sent buf len q.dest ptr) ans.post
              (stage_send local q id ans.new_buffer r)
              (stage_out-Sound "libfabric: send length exceeds registered region" local q.region
                q.buffer.len id ans.new_buffer (r, ok (0, 0)) r v v))
    ]

recv_on-Inv :
    (local : ℕ) (q : RecvRequest) (ans : Answers) (o : Runtime × Result ℕ)
    → Given o
    → Inv (recv_on local q ans o).runtime
unfolding recv_on stage_recv
recv_on-Inv local q ans (r, err x) v = v
recv_on-Inv local q ans (r, ok id) v =
    submit-Inv id (λ buf len ptr. received buf len (source_of q.source) ptr) ans.post
      (stage_recv local q id ans.new_buffer r)
      (stage_in-Sound "libfabric: recv length exceeds registered region" local q.region q.buffer id
        ans.new_buffer (r, ok (0, 0)) r v v)

-- Posts of requests without a context, where the new pointer is not registered.
pub post_send-Inv :
    (local : ℕ) (e : Endpoint) (q : SendRequest) (ans : Answers) (r : Runtime)
    → q.context ≡ none
    → lookup ans.new_context r.registry ≡ none
    → Inv r
    → Inv (post_send local e (some q) ans r).runtime
unfolding post_send
post_send-Inv local e q ans r n f v = elim (Bool-cases (e.handle == 0)) [
  | inl z ↦ rw (z, post_send) v
  | inr z ↦
      rw (z, post_send)
        (send_on-Inv local e q ans (ensure_context q.context ans.new_context r)
          (new_context-Given q.context ans.new_context r n f v))
]

pub post_recv-Inv :
    (local : ℕ) (e : Endpoint) (q : RecvRequest) (ans : Answers) (r : Runtime)
    → q.context ≡ none
    → lookup ans.new_context r.registry ≡ none
    → Inv r
    → Inv (post_recv local e (some q) ans r).runtime
unfolding post_recv
post_recv-Inv local e q ans r n f v = elim (Bool-cases (e.handle == 0)) [
  | inl z ↦ rw (z, post_recv) v
  | inr z ↦
      rw (z, post_recv)
        (recv_on-Inv local q ans (ensure_context q.context ans.new_context r)
          (new_context-Given q.context ans.new_context r n f v))
]
