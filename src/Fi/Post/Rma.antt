-- ===== src/Fi/Post/Rma.antt =====
-- fi/rma.go: PostRead and PostWrite.
use libfabric_go.Base.{ℕ, Option, none, some, ◌==◌, if◌then◌else◌}
use libfabric_go.Capi.Errors.{message, invalid_handle, Result, ok, err}
use libfabric_go.Fi.Context.Effects.{Slice}
use libfabric_go.Fi.Context.{Runtime}
use libfabric_go.Fi.Memory.{Region}
use libfabric_go.Fi.Post.{
  Endpoint, Answers, Posted, Staged, fail, refused, read_from, written_to, ensure_context, submit,
  stage_in, stage_out,
}

pub record RmaRequest : Type 0 where
  pub buffer : Slice
  pub region : Option Region
  pub key : ℕ
  pub offset : ℕ
  pub address : ℕ
  pub context : Option ℕ

unfoldable pub stage_read : ℕ → RmaRequest → ℕ → ℕ → Runtime → Staged
unfolding stage_in
stage_read local req id alloc r =
    stage_in "libfabric: read length exceeds registered region" local req.region req.buffer id alloc
      (fail id (message "libfabric: RMA read requires buffer or region") r) r

unfoldable pub read_on : ℕ → RmaRequest → Answers → Runtime × Result ℕ → Posted
unfolding stage_read submit
read_on local req ans (r, err x) = refused r x
read_on local req ans (r, ok id) =
    submit id (λ buf len ptr. read_from buf len req.address req.key req.offset ptr) ans.post
      (stage_read local req id ans.new_buffer r)

unfoldable pub post_read : ℕ → Endpoint → Option RmaRequest → Answers → Runtime → Posted
unfolding read_on
post_read local e req ans r =
    if e.handle == 0 then refused r (invalid_handle "endpoint") else elim req [
      | none ↦ refused r (message "libfabric: nil RMA request")
      | some q ↦ read_on local q ans (ensure_context q.context ans.new_context r)
    ]

unfoldable pub stage_write : ℕ → RmaRequest → ℕ → ℕ → Runtime → Staged
unfolding stage_out
stage_write local req id alloc r =
    stage_out "libfabric: write length exceeds registered region" local req.region req.buffer.len id
      alloc (fail id (message "libfabric: RMA write requires buffer or region") r) r

unfoldable pub write_on : ℕ → RmaRequest → Answers → Runtime × Result ℕ → Posted
unfolding stage_write submit
write_on local req ans (r, err x) = refused r x
write_on local req ans (r, ok id) =
    submit id (λ buf len ptr. written_to buf len req.address req.key req.offset ptr) ans.post
      (stage_write local req id ans.new_buffer r)

unfoldable pub post_write : ℕ → Endpoint → Option RmaRequest → Answers → Runtime → Posted
unfolding write_on
post_write local e req ans r =
    if e.handle == 0 then refused r (invalid_handle "endpoint") else elim req [
      | none ↦ refused r (message "libfabric: nil RMA request")
      | some q ↦ write_on local q ans (ensure_context q.context ans.new_context r)
    ]
