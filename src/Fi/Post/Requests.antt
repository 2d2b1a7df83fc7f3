-- ===== src/Fi/Post/Requests.antt =====
-- fi/messaging.go, fi/tagged.go, fi/rma.go: what every post keeps, whichever operation it is.
use libfabric_go.Base.{
  ℕ, refl, not, ◌&&◌, Option, none, some, [], ◌∷◌, arith, is_some, Bool-cases, inl, inr, ◌≡◌,
}
use libfabric_go.Capi.Errors.{GoError, err, message, Result, ok}
use libfabric_go.Fi.Context.{Runtime, release}
use libfabric_go.Fi.Memory.{Region}
use libfabric_go.Fi.Post.{
  refused, sent, received, tagged_sent, tagged_received, read_from, written_to, stage_in, stage_out,
  Endpoint, Answers, Posted, injected, Slice,
}
use libfabric_go.Fi.Post.Message.{
  source_of, SendRequest, RecvRequest, post_send, post_recv, send_on, recv_on, may_inject,
  stage_send, stage_recv,
}
use libfabric_go.Fi.Post.Tagged.{
  TaggedSendRequest, TaggedRecvRequest, post_tagged_send, post_tagged_recv, tagged_send_on,
  tagged_recv_on, stage_tagged_send, stage_tagged_recv,
}
use libfabric_go.Fi.Post.Rma.{
  RmaRequest, post_read, post_write, read_on, write_on, stage_read, stage_write,
}
use libfabric_go.Fi.Post.Staging.{
  stage_in-StageSpec, stage_out-StageSpec, PostSpec, StageSpec, submit-PostSpec, fail-StageSpec,
  Open, stage_in-StageSpec, stage_out-StageSpec,
}

-- A request for one of the six operations.
pub data Request : Type 0 where
  send : SendRequest → Request
  recv : RecvRequest → Request
  tagged_send : TaggedSendRequest → Request
  tagged_recv : TaggedRecvRequest → Request
  read : RmaRequest → Request
  write : RmaRequest → Request

abbrev pub context_of : Request → Option ℕ
context_of (send q) = q.context
context_of (recv q) = q.context
context_of (tagged_send q) = q.context
context_of (tagged_recv q) = q.context
context_of (read q) = q.context
context_of (write q) = q.context

abbrev pub region_of : Request → Option Region
region_of (send q) = q.region
region_of (recv q) = q.region
region_of (tagged_send q) = none
region_of (tagged_recv q) = none
region_of (read q) = q.region
region_of (write q) = q.region

-- The post of a request, and its part behind `ensureContext`.
unfoldable pub post : ℕ → Endpoint → Request → Answers → Runtime → Posted
post local e (send q) ans r = post_send local e (some q) ans r
post local e (recv q) ans r = post_recv local e (some q) ans r
post local e (tagged_send q) ans r = post_tagged_send e (some q) ans r
post local e (tagged_recv q) ans r = post_tagged_recv e (some q) ans r
post local e (read q) ans r = post_read local e (some q) ans r
post local e (write q) ans r = post_write local e (some q) ans r

abbrev pub post_on : ℕ → Endpoint → Request → Answers → Runtime × Result ℕ → Posted
post_on local e (send q) ans c = send_on local e q ans c
post_on local e (recv q) ans c = recv_on local q ans c
post_on local e (tagged_send q) ans c = tagged_send_on q ans c
post_on local e (tagged_recv q) ans c = tagged_recv_on q ans c
post_on local e (read q) ans c = read_on local q ans c
post_on local e (write q) ans c = write_on local q ans c

Missing-StageSpec :
    (region : Option Region) (id : ℕ) (r : Runtime)
    → Open r id
    → StageSpec region id r (r, ok (0, 0))
Missing-StageSpec region id r o = ((refl, refl, o), inl refl)

inject-PostSpec :
    (region : Option Region) (id : ℕ) (s : Slice) (d : ℕ) (r : Runtime)
    → Open r id
    → PostSpec region id r
        (record { runtime = release id r; issued = injected s d ∷ []; result = ok none })
unfolding release
inject-PostSpec region id s d r o = (ground arith, (s, d, refl))

stage_send-StageSpec :
    (local : ℕ) (q : SendRequest) (id alloc : ℕ) (r : Runtime)
    → Open r id
    → StageSpec q.region id r (stage_send local q id alloc r)
unfolding stage_send
stage_send-StageSpec local q id alloc r o =
    stage_out-StageSpec "libfabric: send length exceeds registered region" local q.region
      q.buffer.len id alloc _ r o (λ n. Missing-StageSpec q.region id r o)

stage_recv-StageSpec :
    (local : ℕ) (q : RecvRequest) (id alloc : ℕ) (r : Runtime)
    → Open r id
    → StageSpec q.region id r (stage_recv local q id alloc r)
unfolding stage_recv
stage_recv-StageSpec local q id alloc r o =
    stage_in-StageSpec "libfabric: recv length exceeds registered region" local q.region q.buffer id
      alloc _ r o (λ n. Missing-StageSpec q.region id r o)

stage_read-StageSpec :
    (local : ℕ) (q : RmaRequest) (id alloc : ℕ) (r : Runtime)
    → Open r id
    → StageSpec q.region id r (stage_read local q id alloc r)
unfolding stage_read
stage_read-StageSpec local q id alloc r o =
    stage_in-StageSpec "libfabric: read length exceeds registered region" local q.region q.buffer id
      alloc _ r o
      (λ n.
        fail-StageSpec q.region id (message "libfabric: RMA read requires buffer or region") r o)

stage_write-StageSpec :
    (local : ℕ) (q : RmaRequest) (id alloc : ℕ) (r : Runtime)
    → Open r id
    → StageSpec q.region id r (stage_write local q id alloc r)
unfolding stage_write
stage_write-StageSpec local q id alloc r o =
    stage_out-StageSpec "libfabric: write length exceeds registered region" local q.region
      q.buffer.len id alloc _ r o
      (λ n.
        fail-StageSpec q.region id (message "libfabric: RMA write requires buffer or region") r o)

stage_tagged_send-StageSpec :
    (q : TaggedSendRequest) (id alloc : ℕ) (r : Runtime)
    → Open r id
    → StageSpec none id r (stage_tagged_send q id alloc r)
unfolding stage_tagged_send
stage_tagged_send-StageSpec q id alloc r o =
    unfold stage_out in
    (stage_out-StageSpec "" 0 none q.buffer.len id alloc (r, ok (0, 0)) r o
      (λ n. Missing-StageSpec none id r o))

stage_tagged_recv-StageSpec :
    (q : TaggedRecvRequest) (id alloc : ℕ) (r : Runtime)
    → Open r id
    → StageSpec none id r (stage_tagged_recv q id alloc r)
unfolding stage_tagged_recv
stage_tagged_recv-StageSpec q id alloc r o =
    unfold stage_in in
    (stage_in-StageSpec "" 0 none q.buffer id alloc (r, ok (0, 0)) r o
      (λ n. Missing-StageSpec none id r o))

-- What a post behind `ensureContext` keeps, of an open context.
pub post_on-PostSpec :
    (local : ℕ) (e : Endpoint) (q : Request) (ans : Answers) (id : ℕ) (r : Runtime)
    → Open r id
    → PostSpec (region_of q) id r (post_on local e q ans (r, ok id))
unfolding send_on recv_on tagged_send_on tagged_recv_on read_on write_on
post_on-PostSpec local e (recv q) ans id r o =
    submit-PostSpec q.region id (λ buf len ptr. received buf len (source_of q.source) ptr) ans.post
      r (stage_recv local q id ans.new_buffer r) (λ buf len ptr. refl)
      (stage_recv-StageSpec local q id ans.new_buffer r o)
post_on-PostSpec local e (read q) ans id r o =
    submit-PostSpec q.region id (λ buf len ptr. read_from buf len q.address q.key q.offset ptr)
      ans.post r (stage_read local q id ans.new_buffer r) (λ buf len ptr. refl)
      (stage_read-StageSpec local q id ans.new_buffer r o)
post_on-PostSpec local e (write q) ans id r o =
    submit-PostSpec q.region id (λ buf len ptr. written_to buf len q.address q.key q.offset ptr)
      ans.post r (stage_write local q id ans.new_buffer r) (λ buf len ptr. refl)
      (stage_write-StageSpec local q id ans.new_buffer r o)
post_on-PostSpec local e (tagged_send q) ans id r o =
    submit-PostSpec none id (λ buf len ptr. tagged_sent buf len q.dest q.tag ptr) ans.post r
      (stage_tagged_send q id ans.new_buffer r) (λ buf len ptr. refl)
      (stage_tagged_send-StageSpec q id ans.new_buffer r o)
post_on-PostSpec local e (tagged_recv q) ans id r o =
    submit-PostSpec none id
      (λ buf len ptr. tagged_received buf len (source_of q.source) q.tag q.ignore ptr) ans.post r
      (stage_tagged_recv q id ans.new_buffer r) (λ buf len ptr. refl)
      (stage_tagged_recv-StageSpec q id ans.new_buffer r o)
post_on-PostSpec local e (send q) ans id r o =
    elim (Bool-cases (may_inject e q && not (is_some ans.inject))) [
      | inl i ↦ rw (i, send_on) (inject-PostSpec q.region id q.buffer q.dest r o)
      | inr i ↦
          rw (i, send_on)
            (submit-PostSpec q.region id (λ buf len ptr. sent buf len q.dest ptr) ans.post r
              (stage_send local q id ans.new_buffer r) (λ buf len ptr. refl)
              (stage_send-StageSpec local q id ans.new_buffer r o))
    ]

pub post_on_err :
    (local : ℕ) (e : Endpoint) (q : Request) (ans : Answers) (r : Runtime) (x : GoError)
    → post_on local e q ans (r, err x) ≡ refused r x
unfolding send_on recv_on tagged_send_on tagged_recv_on read_on write_on
post_on_err local e (send q) ans r x = refl
post_on_err local e (recv q) ans r x = refl
post_on_err local e (tagged_send q) ans r x = refl
post_on_err local e (tagged_recv q) ans r x = refl
post_on_err local e (read q) ans r x = refl
post_on_err local e (write q) ans r x = refl
