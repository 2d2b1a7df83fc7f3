-- ===== src/Fi/Post/Delivery.antt =====
-- fi/messaging.go, fi/tagged.go and fi/rma.go: whether the bytes of a completed receive or read reach the
-- slice of the request.
use libfabric_go.Base.{ℕ, ◌≡◌, ◌<◌, none, some, [], ◌∷◌, arith}
use libfabric_go.Capi.Errors.{ok}
use libfabric_go.Fi.Context.Effects.{copied_back}
use libfabric_go.Fi.Context.{
  Runtime, copy_effects, new_completion_context, ensure_buffer, set_copy_back, release,
}
use libfabric_go.Fi.Memory.{Region}
use libfabric_go.Fi.Post.{
  Endpoint, Answers, stage_in, stage_buffer, stage_region, copying_back, submit, ensure_context,
  received, staged_buffer,
}
use libfabric_go.Fi.Post.Message.{RecvRequest, post_recv, recv_on, stage_recv, source_of}
use libfabric_go.Fi.Post.Rma.{RmaRequest, post_read, read_on, stage_read}
use libfabric_go.Fi.Post.{read_from}

-- A receive of at least one byte that is posted with a context of its own: without a region, its
-- completion copies the memory that the provider was given into the request's slice. With a region, its
-- completion copies nothing.
pub recv_delivers :
    (local : ℕ) (e : Endpoint) (q : RecvRequest) (ans : Answers) (r : Runtime) (id : ℕ)
    → q.context ≡ none
    → 0 < q.buffer.len
    → (post_recv local e (some q) ans r).result ≡ ok (some id)
    → let p = post_recv local e (some q) ans r in
      (q.region ≡ none
        → (p.issued
            ≡ received ans.new_buffer q.buffer.len (source_of q.source) ans.new_context ∷ [])
          × (copy_effects (p.runtime.objects id) ≡ copied_back q.buffer ans.new_buffer ∷ []))
      × ((m : Region) → q.region ≡ some m → copy_effects (p.runtime.objects id) ≡ [])
unfolding post_recv recv_on stage_recv stage_in stage_buffer stage_region copying_back submit
    ensure_context ensure_buffer set_copy_back new_completion_context staged_buffer release
recv_delivers local e q ans r id n l h = (ground arith, ground arith)

-- A read of at least one byte that is posted with a context of its own: without a region, its completion
-- copies the memory that the provider was given into the request's slice. With a region, its completion
-- copies nothing.
pub read_delivers :
    (local : ℕ) (e : Endpoint) (q : RmaRequest) (ans : Answers) (r : Runtime) (id : ℕ)
    → q.context ≡ none
    → 0 < q.buffer.len
    → (post_read local e (some q) ans r).result ≡ ok (some id)
    → let p = post_read local e (some q) ans r in
      (q.region ≡ none
        → (p.issued
            ≡ read_from ans.new_buffer q.buffer.len q.address q.key q.offset ans.new_context ∷ [])
          × (copy_effects (p.runtime.objects id) ≡ copied_back q.buffer ans.new_buffer ∷ []))
      × ((m : Region) → q.region ≡ some m → copy_effects (p.runtime.objects id) ≡ [])
unfolding post_read read_on stage_read stage_in stage_buffer stage_region copying_back submit
    ensure_context ensure_buffer set_copy_back new_completion_context staged_buffer release
read_delivers local e q ans r id n l h = (ground arith, ground arith)
