-- ===== src/Fi/Post/Message.antt =====
-- fi/messaging.go: PostSend and PostRecv.
use libfabric_go.Base.{
  ℕ, Bool, not, ◌&&◌, Option, none, some, [], ◌∷◌, ◌==◌, ltb, leb, if◌then◌else◌, is_some,
}
use libfabric_go.Capi.Errors.{message, invalid_handle, Result, ok, err}
use libfabric_go.Fi.Context.Effects.{Slice}
use libfabric_go.Fi.Context.{Runtime, release}
use libfabric_go.Fi.Memory.{Region}
use libfabric_go.Fi.Post.{
  Endpoint, Answers, Posted, Staged, refused, injected, sent, received, address_unspecified,
  ensure_context, stage_out, stage_in, submit,
}

pub record SendRequest : Type 0 where
  pub buffer : Slice
  pub dest : ℕ
  pub context : Option ℕ
  pub region : Option Region

pub record RecvRequest : Type 0 where
  pub buffer : Slice
  pub source : ℕ
  pub context : Option ℕ
  pub region : Option Region

unfoldable pub stage_send : ℕ → SendRequest → ℕ → ℕ → Runtime → Staged
unfolding stage_out
stage_send local req id alloc r =
    stage_out "libfabric: send length exceeds registered region" local req.region req.buffer.len id
      alloc (r, ok (0, 0)) r

-- When the inject call is made, for a request that brought no context.
unfoldable pub may_inject : Endpoint → SendRequest → Bool
may_inject e req =
    ltb 0 req.buffer.len
    && not (is_some req.context)
    && ltb 0 e.inject_limit
    && leb req.buffer.len e.inject_limit

unfoldable pub send_on : ℕ → Endpoint → SendRequest → Answers → Runtime × Result ℕ → Posted
unfolding may_inject stage_send submit
send_on local e req ans (r, err x) = refused r x
send_on local e req ans (r, ok id) =
    if may_inject e req && not (is_some ans.inject)
    then record {
      runtime = release id r;
      issued = injected req.buffer req.dest ∷ [];
      result = ok none;
    }
    else submit id (λ buf len ptr. sent buf len req.dest ptr) ans.post
        (stage_send local req id ans.new_buffer r)

unfoldable pub post_send : ℕ → Endpoint → Option SendRequest → Answers → Runtime → Posted
unfolding send_on
post_send local e req ans r =
    if e.handle == 0 then refused r (invalid_handle "endpoint") else elim req [
      | none ↦ refused r (message "libfabric: nil send request")
      | some q ↦ send_on local e q ans (ensure_context q.context ans.new_context r)
    ]

unfoldable pub stage_recv : ℕ → RecvRequest → ℕ → ℕ → Runtime → Staged
unfolding stage_in
stage_recv local req id alloc r =
    stage_in "libfabric: recv length exceeds registered region" local req.region req.buffer id alloc
      (r, ok (0, 0)) r

abbrev pub source_of : ℕ → ℕ
source_of source = if source == 0 then address_unspecified else source

unfoldable pub recv_on : ℕ → RecvRequest → Answers → Runtime × Result ℕ → Posted
unfolding stage_recv submit
recv_on local req ans (r, err x) = refused r x
recv_on local req ans (r, ok id) =
    submit id (λ buf len ptr. received buf len (source_of req.source) ptr) ans.post
      (stage_recv local req id ans.new_buffer r)

unfoldable pub post_recv : ℕ → Endpoint → Option RecvRequest → Answers → Runtime → Posted
unfolding recv_on
post_recv local e req ans r =
    if e.handle == 0 then refused r (invalid_handle "endpoint") else elim req [
      | none ↦ refused r (message "libfabric: nil recv request")
      | some q ↦ recv_on local q ans (ensure_context q.context ans.new_context r)
    ]
