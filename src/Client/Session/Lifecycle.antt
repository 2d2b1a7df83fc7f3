-- ===== src/Client/Session/Lifecycle.antt =====
-- client/client.go: sendAsync and ReceiveAsync with a pool, and the completion of what they post.
use mathlib.Core.Path.{subst, sym}
use libfabric_go.Base.{
  ℕ, ◌≡◌, ◌≢◌, refl, ◌≤◌, false, true, Option, none, some, List, ◌∷◌, arith, inl, inr, Bool-cases,
  ◌==◌,
}
use libfabric_go.Capi.Errors.{GoError, Result, ok, err, operation_receive}
use libfabric_go.Fi.Context.{Runtime}
use libfabric_go.Fi.Context.Effects.{Slice}
use libfabric_go.Fi.Memory.{Memory}
use libfabric_go.Fi.Pool.{MrPool, Reply}
use libfabric_go.Fi.Pool.Ownership.{Inv, accepts}
use libfabric_go.Fi.Post.{Answers, Issue, Staged, submit, Endpoint, received, ensure_context}
use libfabric_go.Fi.Post.Message.{
  SendRequest, RecvRequest, recv_on, post_send, post_recv, source_of, stage_recv,
}
use libfabric_go.Client.Prepare.{Cleanup, gives_back, prepare_send, prepare_receive}
use libfabric_go.Client.Session.{Setting, Session, with_memory}
use libfabric_go.Client.Session.Async.{
  behind, send_checked, send_prepared, received_on, receive_checked, receive_prepared, posted_size,
  send_async, receive_async, refusal,
}
use libfabric_go.Client.Session.Lending.{
  Lends, HasLent, PreparedLends, prepare_send-PreparedLends, prepare_receive-PreparedLends, Pending,
  LentOutcome, sent_on-LentOutcome, run_cleanup-Lends, add_operation-Pending,
}

send_prepared-LentOutcome :
    (k : Setting) (ans : Answers) (s : Session) (lent : List ℕ)
    (o : Option MrPool × Memory × Result (SendRequest × Cleanup))
    → k.closes ≡ accepts
    → PreparedLends lent o
    → LentOutcome lent (send_prepared k ans s o)
unfolding send_prepared PreparedLends LentOutcome
send_prepared-LentOutcome k ans s lent (pool, h, err e) a v = v
send_prepared-LentOutcome k ans s lent (pool, h, ok (q, c)) a (id, e, v) =
    let t = post_send k.local s.endpoint (some q) ans s.state.runtime in
    rw e (
      sent_on-LentOutcome k (posted_size q) q.buffer.len id (behind t (with_memory pool h s)) lent
        t.result a v)

send_checked-LentOutcome :
    (k : Setting) (payload : Slice) (dest : ℕ) (reply : Reply) (ans : Answers) (s : Session)
    (p : MrPool) (lent : List ℕ) (o : Option GoError)
    → k.closes ≡ accepts
    → s.client.pool ≡ some p
    → payload.len ≤ p.size
    → Inv p s.memory lent
    → LentOutcome lent (send_checked k payload dest reply ans s o)
unfolding send_checked LentOutcome Lends
send_checked-LentOutcome k payload dest reply ans s p lent (some e) a b f v = (p, b, v)
send_checked-LentOutcome k payload dest reply ans s p lent none a b f v =
    let made : PreparedLends lent
        (prepare_send k.closes k.flags k.domain s.client payload dest reply s.memory) =
      rw a (
        prepare_send-PreparedLends k.flags k.domain s.client payload dest reply s.memory lent p b f
          v) in
    send_prepared-LentOutcome k ans s lent
      (prepare_send k.closes k.flags k.domain s.client payload dest reply s.memory) a made

-- A receive that is posted gives a context.
submit-some :
    (id : ℕ) (issue : ℕ → ℕ → ℕ → Issue) (answer : Option GoError) (st : Staged)
    → (submit id issue answer st).result ≢ ok none
unfolding submit
submit-some id issue answer (r, err e) = ground arith
submit-some id issue none (r, ok (buf, len)) = ground arith
submit-some id issue (some e) (r, ok (buf, len)) = ground arith

recv_on-some :
    (local : ℕ) (q : RecvRequest) (ans : Answers) (o : Runtime × Result ℕ)
    → (recv_on local q ans o).result ≢ ok none
unfolding recv_on
recv_on-some local q ans (r, err e) = ground arith
recv_on-some local q ans (r, ok id) =
    submit-some id (λ buf len ptr. received buf len (source_of q.source) ptr) ans.post
      (stage_recv local q id ans.new_buffer r)

post_recv-some :
    (local : ℕ) (e : Endpoint) (q : RecvRequest) (ans : Answers) (r : Runtime)
    → (post_recv local e (some q) ans r).result ≢ ok none
unfolding post_recv
post_recv-some local e q ans r = elim (Bool-cases (e.handle == 0)) [
  | inl z ↦ rw z (ground arith)
  | inr z ↦ rw z (recv_on-some local q ans (ensure_context q.context ans.new_context r))
]

-- A call that has returned, with an outcome like that of a send.
unfoldable pub Returned : List ℕ → Session × Option (Result ℕ) → Type 0
Returned lent (s, none) = true ≡ false
Returned lent (s, some r) = LentOutcome lent (s, r)

received_on-Returned :
    (k : Setting) (buf : Slice) (id : ℕ) (s : Session) (lent : List ℕ) (r : Result (Option ℕ))
    → k.closes ≡ accepts
    → r ≢ ok none
    → HasLent s (id ∷ lent)
    → Returned lent (received_on k buf (gives_back id) s r)
unfolding received_on Returned LentOutcome Pending
received_on-Returned k buf id s lent (err e) a n v =
    rw a (run_cleanup-Lends id s.client.pool s.memory lent v)
received_on-Returned k buf id s lent (ok none) a n v = absurd (n refl)
received_on-Returned k buf id s lent (ok (some ctx)) a n v = inr (
  id,
  add_operation-Pending operation_receive operation_receive buf.len id
      (some (record { buffer = some buf; source = 0 })) s,
  v,
)

receive_prepared-Returned :
    (k : Setting) (buf : Slice) (ans : Answers) (s : Session) (lent : List ℕ)
    (o : Option MrPool × Memory × Result (RecvRequest × Cleanup))
    → k.closes ≡ accepts
    → PreparedLends lent o
    → Returned lent (receive_prepared k buf ans s o)
unfolding receive_prepared PreparedLends Returned LentOutcome
receive_prepared-Returned k buf ans s lent (pool, h, err e) a v = v
receive_prepared-Returned k buf ans s lent (pool, h, ok (q, c)) a (id, e, v) =
    let t = post_recv k.local s.endpoint (some q) ans s.state.runtime in
    let some_context = post_recv-some k.local s.endpoint q ans s.state.runtime in
    rw e (
      received_on-Returned k buf id (behind t (with_memory pool h s)) lent t.result a some_context
        v)

receive_checked-Returned :
    (k : Setting) (buf : Slice) (reply : Reply) (ans : Answers) (s : Session) (p : MrPool)
    (lent : List ℕ) (o : Option GoError)
    → k.closes ≡ accepts
    → s.client.pool ≡ some p
    → buf.len ≤ p.size
    → Inv p s.memory lent
    → Returned lent (receive_checked k buf reply ans s o)
unfolding receive_checked Returned LentOutcome Lends
receive_checked-Returned k buf reply ans s p lent (some e) a b f v = (p, b, v)
receive_checked-Returned k buf reply ans s p lent none a b f v =
    let made : PreparedLends lent
        (prepare_receive k.closes k.flags k.domain s.client buf reply s.memory) =
      subst
        (λ c. PreparedLends lent (prepare_receive c k.flags k.domain s.client buf reply s.memory))
        (sym a)
        (prepare_receive-PreparedLends k.flags k.domain s.client buf reply s.memory lent p b f v) in
    receive_prepared-Returned k buf ans s lent
      (prepare_receive k.closes k.flags k.domain s.client buf reply s.memory) a made

-- sendAsync and ReceiveAsync, with the pool's invariant while the regions `lent` are lent, a C library that
-- accepts every close, and a payload or a buffer that fits the pool's regions: an error leaves exactly the
-- regions lent that were lent before; a call that returns an operation either has completed it and leaves
-- the same, or leaves it pending with one more region, which its release function gives back. ReceiveAsync
-- never panics.
pub calls_lend :
    (k : Setting) (s : Session) (p : MrPool) (lent : List ℕ) (payload buf : Slice) (dest : ℕ)
    (reply : Reply) (ans : Answers)
    → k.closes ≡ accepts
    → s.client.pool ≡ some p
    → Inv p s.memory lent
    → payload.len ≤ p.size
    → buf.len ≤ p.size
    → LentOutcome lent (send_async k payload dest reply ans s)
      × Returned lent (receive_async k buf reply ans s)
unfolding send_async receive_async
calls_lend k s p lent payload buf dest reply ans a b v f g =
    let sending = refusal "libfabric client: empty payload" payload.len s in
    let receiving = refusal "libfabric client: buffer must be non-empty" buf.len s in
    (
      send_checked-LentOutcome k payload dest reply ans s p lent sending a b f v,
      receive_checked-Returned k buf reply ans s p lent receiving a b g v,
    )
