-- ===== src/Fi/Post/Values.antt =====
-- fi/messaging.go: what a send and a receive do to the values of contexts.
use libfabric_go.Base.{
  ℕ, ◌≡◌, refl, Option, none, some, arith, ◌⊎◌, inl, inr, Bool-cases, ◌==◌, ◌∙◌, String, ltb, ◌&&◌,
  not, is_some,
}
use libfabric_go.Capi.Errors.{GoError, Result, ok, err}
use libfabric_go.Fi.Context.{
  Runtime, new_completion_context, release, release_with, ensure_buffer, set_copy_back,
}
use libfabric_go.Fi.Context.Effects.{Slice}
use libfabric_go.Fi.Memory.{Region}
use libfabric_go.Fi.Post.{
  Endpoint, Answers, Issue, Staged, ensure_context, stage_buffer, staged_buffer, stage_region,
  stage_out, stage_in, copying_back, submit, sent, received,
}
use libfabric_go.Fi.Post.Message.{
  SendRequest, RecvRequest, stage_send, stage_recv, send_on, recv_on, post_send, post_recv,
  may_inject, source_of,
}

-- Each context has the value that it had, or none.
abbrev pub Keeps : Runtime → Runtime → Type 0
Keeps r r' =
    (id : ℕ) → ((r'.objects id).value ≡ (r.objects id).value) ⊎ ((r'.objects id).value ≡ none)

pub Keeps-refl : (r : Runtime) → Keeps r r
Keeps-refl r id = inl refl

pub Keeps-trans : (a b c : Runtime) → Keeps a b → Keeps b c → Keeps a c
Keeps-trans a b c f g id = elim (g id) [
  | inr e ↦ inr e
  | inl e ↦ elim (f id) [ inl e' ↦ inl (e ∙ e') | inr e' ↦ inr (e ∙ e') ]
]

release-Keeps : (id : ℕ) (r : Runtime) → Keeps r (release id r)
unfolding release release_with
release-Keeps id r j = ground arith

ensure_context-Keeps : (c : Option ℕ) (ptr : ℕ) (r : Runtime) → Keeps r (ensure_context c ptr r).0
unfolding ensure_context new_completion_context
ensure_context-Keeps none ptr r j = ground arith
ensure_context-Keeps (some id) ptr r j = ground arith

stage_buffer-Keeps : (id size alloc : ℕ) (r : Runtime) → Keeps r (stage_buffer id size alloc r).0
unfolding stage_buffer staged_buffer ensure_buffer release release_with
stage_buffer-Keeps id size alloc r j = ground arith

stage_region-Keeps :
    (local : ℕ) (m : Region) (size id : ℕ) (text : String) (r : Runtime)
    → Keeps r (stage_region local m size id text r).0
unfolding stage_region release release_with
stage_region-Keeps local m size id text r j = ground arith

copying_back-Keeps :
    (id : ℕ) (s : Slice) (r : Runtime) (t : Staged) → Keeps r t.0 → Keeps r (copying_back id s t).0
unfolding copying_back set_copy_back
copying_back-Keeps id s r (r', ok place) k j = ground (arith, k j, k id)
copying_back-Keeps id s r (r', err e) k j = k j

stage_out-Keeps :
    (text : String) (local : ℕ) (region : Option Region) (size id alloc : ℕ) (missing : Staged)
    (r : Runtime)
    → Keeps r missing.0
    → Keeps r (stage_out text local region size id alloc missing r).0
unfolding stage_out
stage_out-Keeps text local (some m) size id alloc missing r k =
    stage_region-Keeps local m size id text r
stage_out-Keeps text local none size id alloc missing r k = elim (Bool-cases (ltb 0 size)) [
  | inl e ↦ rw (e, stage_out) (stage_buffer-Keeps id size alloc r)
  | inr e ↦ rw (e, stage_out) k
]

stage_in-Keeps :
    (text : String) (local : ℕ) (region : Option Region) (s : Slice) (id alloc : ℕ)
    (missing : Staged) (r : Runtime)
    → Keeps r missing.0
    → Keeps r (stage_in text local region s id alloc missing r).0
unfolding stage_in
stage_in-Keeps text local (some m) s id alloc missing r k =
    let staged = stage_region-Keeps local m s.len id text r in
    elim (Bool-cases (ltb 0 s.len)) [
      | inl e ↦
          rw (e, stage_in) (copying_back-Keeps id s r (stage_region local m s.len id text r) staged)
      | inr e ↦ rw (e, stage_in) staged
    ]
stage_in-Keeps text local none s id alloc missing r k = elim (Bool-cases (ltb 0 s.len)) [
  | inl e ↦
      rw (e, stage_in)
        (copying_back-Keeps id s r (stage_buffer id s.len alloc r)
          (stage_buffer-Keeps id s.len alloc r))
  | inr e ↦ rw (e, stage_in) k
]

submit-Keeps :
    (id : ℕ) (issue : ℕ → ℕ → ℕ → Issue) (answer : Option GoError) (r : Runtime) (t : Staged)
    → Keeps r t.0
    → Keeps r (submit id issue answer t).runtime
unfolding submit
submit-Keeps id issue answer r (r', err e) k = k
submit-Keeps id issue none r (r', ok (buf, len)) k = k
submit-Keeps id issue (some e) r (r', ok (buf, len)) k =
    Keeps-trans r r' (release id r') k (release-Keeps id r')

send_on-Keeps :
    (local : ℕ) (e : Endpoint) (q : SendRequest) (ans : Answers) (r : Runtime)
    (o : Runtime × Result ℕ)
    → Keeps r o.0
    → Keeps r (send_on local e q ans o).runtime
unfolding send_on stage_send
send_on-Keeps local e q ans r (r', err x) k = k
send_on-Keeps local e q ans r (r', ok id) k =
    elim (Bool-cases (may_inject e q && not (is_some ans.inject))) [
      | inl h ↦ rw (h, send_on) (Keeps-trans r r' (release id r') k (release-Keeps id r'))
      | inr h ↦
          rw (h, send_on)
            (submit-Keeps id (λ buf len ptr. sent buf len q.dest ptr) ans.post r
              (stage_send local q id ans.new_buffer r')
              (Keeps-trans r r' (stage_send local q id ans.new_buffer r').0 k (
                stage_out-Keeps "libfabric: send length exceeds registered region" local q.region
                  q.buffer.len id ans.new_buffer (r', ok (0, 0)) r' (Keeps-refl r'))))
    ]

recv_on-Keeps :
    (local : ℕ) (q : RecvRequest) (ans : Answers) (r : Runtime) (o : Runtime × Result ℕ)
    → Keeps r o.0
    → Keeps r (recv_on local q ans o).runtime
unfolding recv_on stage_recv
recv_on-Keeps local q ans r (r', err x) k = k
recv_on-Keeps local q ans r (r', ok id) k =
    submit-Keeps id (λ buf len ptr. received buf len (source_of q.source) ptr) ans.post r
      (stage_recv local q id ans.new_buffer r')
      (Keeps-trans r r' (stage_recv local q id ans.new_buffer r').0 k (
        stage_in-Keeps "libfabric: recv length exceeds registered region" local q.region q.buffer id
          ans.new_buffer (r', ok (0, 0)) r' (Keeps-refl r')))

pub post_send-Keeps :
    (local : ℕ) (e : Endpoint) (q : SendRequest) (ans : Answers) (r : Runtime)
    → Keeps r (post_send local e (some q) ans r).runtime
unfolding post_send
post_send-Keeps local e q ans r = elim (Bool-cases (e.handle == 0)) [
  | inl z ↦ rw (z, post_send) (Keeps-refl r)
  | inr z ↦
      rw (z, post_send)
        (send_on-Keeps local e q ans r (ensure_context q.context ans.new_context r)
          (ensure_context-Keeps q.context ans.new_context r))
]

pub post_recv-Keeps :
    (local : ℕ) (e : Endpoint) (q : RecvRequest) (ans : Answers) (r : Runtime)
    → Keeps r (post_recv local e (some q) ans r).runtime
unfolding post_recv
post_recv-Keeps local e q ans r = elim (Bool-cases (e.handle == 0)) [
  | inl z ↦ rw (z, post_recv) (Keeps-refl r)
  | inr z ↦
      rw (z, post_recv)
        (recv_on-Keeps local q ans r (ensure_context q.context ans.new_context r)
          (ensure_context-Keeps q.context ans.new_context r))
]
