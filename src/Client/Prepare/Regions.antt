-- ===== src/Client/Prepare/Regions.antt =====
-- client/client.go: the regions of the requests that prepareSend and prepareReceive make.
use libfabric_go.Base.{ℕ, ◌≡◌, ◌≤◌, Option, none, some, arith, ◌<◌, []}
use libfabric_go.Fi.Post.{Endpoint, Answers}
use libfabric_go.Fi.Post.Message.{post_recv}
use libfabric_go.Fi.Post.Delivery.{recv_delivers}
use libfabric_go.Fi.Context.{Runtime, copy_effects}
use libfabric_go.Client.Prepare.{recv_pooled, prepare_receive, acquire, recv_plain, recv_registered}
use libfabric_go.Capi.Errors.{GoError, ok, Result, err}
use libfabric_go.Fi.Context.Effects.{Slice}
use libfabric_go.Fi.Memory.{
  Flags, Domain, Memory, Region, register_memory, register_memory_with_options,
}
use libfabric_go.Fi.Pool.{Reply}
use libfabric_go.Fi.Post.Message.{SendRequest}
use libfabric_go.Client.Setup.Dial.{Client}
use libfabric_go.Client.Prepare.{
  Cleanup, prepare_send, send_to, send_plain, send_pooled, send_registered, MrPool, RecvRequest,
}

-- Whatever memory `prepareSend` picks, the request sends as many bytes as the payload has, brings no
-- context, and a region of the request is at least as long.
pub prepare_send_fits :
    (closes : ℕ → Option GoError) (k : Flags) (d : Domain) (c : Client) (payload : Slice) (dest : ℕ)
    (reply : Reply) (h : Memory) (q : SendRequest) (after : Cleanup)
    → (prepare_send closes k d c payload dest reply h).2 ≡ ok (q, after)
    → (q.buffer.len ≡ payload.len)
      × (q.context ≡ none)
      × ((m : Region) → q.region ≡ some m → payload.len ≤ m.len)
unfolding prepare_send send_to send_plain send_pooled send_registered register_memory
    register_memory_with_options
prepare_send_fits closes k d c payload dest reply h q after e =
    (ground arith, ground arith, λ m r. ground arith)

-- The request of a receive has no context of its own.
pub prepare_receive_bare :
    (closes : ℕ → Option GoError) (k : Flags) (d : Domain) (c : Client) (buf : Slice)
    (reply : Reply) (h : Memory) (q : RecvRequest) (after : Cleanup)
    → (prepare_receive closes k d c buf reply h).2 ≡ ok (q, after)
    → q.context ≡ none
unfolding prepare_receive recv_plain recv_pooled recv_registered register_memory
    register_memory_with_options
prepare_receive_bare closes k d c buf reply h q after e = ground arith

prepare_receive_pooled :
    (closes : ℕ → Option GoError) (k : Flags) (d : Domain) (c : Client) (p : MrPool) (buf : Slice)
    (reply : Reply) (h : Memory) (q : RecvRequest) (after : Cleanup)
    → c.pool ≡ some p
    → buf.len ≤ p.size
    → (prepare_receive closes k d c buf reply h).2 ≡ ok (q, after)
    → (0 < buf.len) × (q.buffer ≡ buf) × (q.context ≡ none) × ((m : Region) × (q.region ≡ some m))
unfolding prepare_receive recv_pooled
prepare_receive_pooled closes k d c p buf reply h q after s n g =
    let (b, x, m) = go (acquire k p reply h) (ground arith) in (ground arith, b, x, m)
  where
    go :
        (o : MrPool × Memory × Result ℕ)
        → (recv_pooled closes buf o).2 ≡ ok (q, after)
        → (q.buffer ≡ buf) × (q.context ≡ none) × ((m : Region) × (q.region ≡ some m))
    go (p', h', ok id) e = (ground arith, ground arith, (h'.regions id, ground arith))
    go (p', h', err x) e = absurd (ground arith)

-- A receive into a buffer that the client's pool serves, posted with the request that `prepareReceive`
-- made: if the post gives a context, the completion of this context copies nothing into the buffer.
pub pooled_receive_copies_nothing :
    (closes : ℕ → Option GoError) (k : Flags) (d : Domain) (c : Client) (p : MrPool) (buf : Slice)
    (reply : Reply) (h : Memory) (q : RecvRequest) (after : Cleanup) (local : ℕ) (e : Endpoint)
    (ans : Answers) (r : Runtime) (id : ℕ)
    → c.pool ≡ some p
    → buf.len ≤ p.size
    → (prepare_receive closes k d c buf reply h).2 ≡ ok (q, after)
    → (post_recv local e (some q) ans r).result ≡ ok (some id)
    → (q.buffer ≡ buf) × (copy_effects ((post_recv local e (some q) ans r).runtime.objects id) ≡ [])
pooled_receive_copies_nothing closes k d c p buf reply h q after local e ans r id s n g w =
    let (pos, b, n', (m, t)) = prepare_receive_pooled closes k d c p buf reply h q after s n g in
    let lt : 0 < q.buffer.len = rw b pos in (b, (recv_delivers local e q ans r id n' lt w).1 m t)
