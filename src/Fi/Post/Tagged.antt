-- ===== src/Fi/Post/Tagged.antt =====
-- fi/tagged.go: PostTaggedSend and PostTaggedRecv.
use libfabric_go.Base.{ℕ, not, Option, none, some, ◌==◌, ltb, if◌then◌else◌}
use libfabric_go.Capi.Errors.{Sentinel, sentinel, message, invalid_handle, Result, ok, err}
use libfabric_go.Fi.Context.Effects.{Slice}
use libfabric_go.Fi.Context.{Runtime}
use libfabric_go.Fi.Post.{
  Endpoint, Answers, Posted, Staged, refused, tagged_sent, tagged_received, ensure_context,
  stage_buffer, copying_back, submit,
}
use libfabric_go.Fi.Post.Message.{source_of}

pub record TaggedSendRequest : Type 0 where
  pub buffer : Slice
  pub dest : ℕ
  pub tag : ℕ
  pub context : Option ℕ

pub record TaggedRecvRequest : Type 0 where
  pub buffer : Slice
  pub source : ℕ
  pub tag : ℕ
  pub ignore : ℕ
  pub context : Option ℕ

unfoldable pub stage_tagged_send : TaggedSendRequest → ℕ → ℕ → Runtime → Staged
unfolding stage_buffer
stage_tagged_send req id alloc r =
    if ltb 0 req.buffer.len then stage_buffer id req.buffer.len alloc r else (r, ok (0, 0))

unfoldable pub tagged_send_on : TaggedSendRequest → Answers → Runtime × Result ℕ → Posted
unfolding stage_tagged_send submit
tagged_send_on req ans (r, err x) = refused r x
tagged_send_on req ans (r, ok id) =
    submit id (λ buf len ptr. tagged_sent buf len req.dest req.tag ptr) ans.post
      (stage_tagged_send req id ans.new_buffer r)

unfoldable pub post_tagged_send : Endpoint → Option TaggedSendRequest → Answers → Runtime → Posted
unfolding tagged_send_on
post_tagged_send e req ans r =
    if e.handle == 0
    then refused r (invalid_handle "endpoint")
    else if not e.supports_tagged
    then refused r (sentinel Sentinel.capability_unsupported)
    else elim req [
      | none ↦ refused r (message "libfabric: nil tagged send request")
      | some q ↦ tagged_send_on q ans (ensure_context q.context ans.new_context r)
    ]

unfoldable pub stage_tagged_recv : TaggedRecvRequest → ℕ → ℕ → Runtime → Staged
unfolding stage_buffer copying_back
stage_tagged_recv req id alloc r =
    if ltb 0 req.buffer.len
    then copying_back id req.buffer (stage_buffer id req.buffer.len alloc r)
    else (r, ok (0, 0))

unfoldable pub tagged_recv_on : TaggedRecvRequest → Answers → Runtime × Result ℕ → Posted
unfolding stage_tagged_recv submit
tagged_recv_on req ans (r, err x) = refused r x
tagged_recv_on req ans (r, ok id) =
    submit id (λ buf len ptr. tagged_received buf len (source_of req.source) req.tag req.ignore ptr)
      ans.post (stage_tagged_recv req id ans.new_buffer r)

unfoldable pub post_tagged_recv : Endpoint → Option TaggedRecvRequest → Answers → Runtime → Posted
unfolding tagged_recv_on
post_tagged_recv e req ans r =
    if e.handle == 0
    then refused r (invalid_handle "endpoint")
    else if not e.supports_tagged
    then refused r (sentinel Sentinel.capability_unsupported)
    else elim req [
      | none ↦ refused r (message "libfabric: nil tagged recv request")
      | some q ↦ tagged_recv_on q ans (ensure_context q.context ans.new_context r)
    ]
