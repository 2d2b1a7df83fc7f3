-- ===== src/Client/Telemetry/Calls.antt =====
-- client/client.go: sendAsync and ReceiveAsync, and the operations that contexts carry.
use libfabric_go.Base.{ℕ, ◌≡◌, refl, Option, none, some, lookup}
use libfabric_go.Capi.Errors.{GoError, Result, ok, err}
use libfabric_go.Fi.Context.Effects.{Slice}
use libfabric_go.Fi.Memory.{Memory}
use libfabric_go.Fi.Pool.{MrPool, Reply}
use libfabric_go.Fi.Post.{Answers}
use libfabric_go.Fi.Post.Message.{SendRequest, RecvRequest, post_send, post_recv}
use libfabric_go.Fi.Post.Requests.{send, recv, post}
use libfabric_go.Fi.Post.Fresh.{post-FreshOutcome}
use libfabric_go.Fi.Post.Values.{post_send-Keeps, post_recv-Keeps}
use libfabric_go.Fi.Post.Invariant.{post_send-Inv, post_recv-Inv}
use libfabric_go.Client.Prepare.{Cleanup, prepare_send, prepare_receive}
use libfabric_go.Client.Prepare.Regions.{prepare_send_fits, prepare_receive_bare}
use libfabric_go.Client.Session.{Setting, Session, with_memory}
use libfabric_go.Client.Session.Async.{
  behind, send_checked, send_prepared, receive_checked, receive_prepared, posted_size, send_async,
  receive_async, refusal,
}
use libfabric_go.Client.Telemetry.Holds.{Sound, Held, sent_on-Held, received_on-Held}

send_prepared-Held :
    (k : Setting) (ans : Answers) (s : Session)
    (o : Option MrPool × Memory × Result (SendRequest × Cleanup))
    → lookup ans.new_context s.state.runtime.registry ≡ none
    → ((q : SendRequest) (c : Cleanup) → o.2 ≡ ok (q, c) → q.context ≡ none)
    → Sound s
    → Held (send_prepared k ans s o).0
unfolding send_prepared post
send_prepared-Held k ans s (pool, h, err e) f bare v =
    (v.registry, record { waits = v.attached.waits; own = v.attached.own })
send_prepared-Held k ans s (pool, h, ok (q, c)) f bare v =
    let n = bare q c refl in
    let r = s.state.runtime in
    let p = post_send k.local s.endpoint (some q) ans r in
    sent_on-Held k (posted_size q) q.buffer.len ans.new_context c s
      (behind p (with_memory pool h s)) p q.region p.result v refl refl refl
      (post_send-Keeps k.local s.endpoint q ans r)
      (post_send-Inv k.local s.endpoint q ans r n f v.registry)
      (post-FreshOutcome k.local s.endpoint (send q) ans r n f)

send_checked-Held :
    (k : Setting) (payload : Slice) (dest : ℕ) (reply : Reply) (ans : Answers) (s : Session)
    (o : Option GoError)
    → lookup ans.new_context s.state.runtime.registry ≡ none
    → Sound s
    → Held (send_checked k payload dest reply ans s o).0
unfolding send_checked
send_checked-Held k payload dest reply ans s (some e) f v = (v.registry, v.attached)
send_checked-Held k payload dest reply ans s none f v =
    send_prepared-Held k ans s
      (prepare_send k.closes k.flags k.domain s.client payload dest reply s.memory) f
      (λ q c e.
        (prepare_send_fits k.closes k.flags k.domain s.client payload dest reply s.memory q c e).1)
      v

receive_prepared-Held :
    (k : Setting) (buf : Slice) (ans : Answers) (s : Session)
    (o : Option MrPool × Memory × Result (RecvRequest × Cleanup))
    → lookup ans.new_context s.state.runtime.registry ≡ none
    → ((q : RecvRequest) (c : Cleanup) → o.2 ≡ ok (q, c) → q.context ≡ none)
    → Sound s
    → Held (receive_prepared k buf ans s o).0
unfolding receive_prepared post
receive_prepared-Held k buf ans s (pool, h, err e) f bare v =
    (v.registry, record { waits = v.attached.waits; own = v.attached.own })
receive_prepared-Held k buf ans s (pool, h, ok (q, c)) f bare v =
    let n = bare q c refl in
    let r = s.state.runtime in
    let p = post_recv k.local s.endpoint (some q) ans r in
    received_on-Held k buf ans.new_context c s (behind p (with_memory pool h s)) p q.region p.result
      v refl refl refl (post_recv-Keeps k.local s.endpoint q ans r)
      (post_recv-Inv k.local s.endpoint q ans r n f v.registry)
      (post-FreshOutcome k.local s.endpoint (recv q) ans r n f)

receive_checked-Held :
    (k : Setting) (buf : Slice) (reply : Reply) (ans : Answers) (s : Session) (o : Option GoError)
    → lookup ans.new_context s.state.runtime.registry ≡ none
    → Sound s
    → Held (receive_checked k buf reply ans s o).0
unfolding receive_checked
receive_checked-Held k buf reply ans s (some e) f v = (v.registry, v.attached)
receive_checked-Held k buf reply ans s none f v =
    receive_prepared-Held k buf ans s
      (prepare_receive k.closes k.flags k.domain s.client buf reply s.memory) f
      (prepare_receive_bare k.closes k.flags k.domain s.client buf reply s.memory) v

-- Both calls, where the C allocator returns no context pointer that is in use.
pub send_async-Held :
    (k : Setting) (payload : Slice) (dest : ℕ) (reply : Reply) (ans : Answers) (s : Session)
    → lookup ans.new_context s.state.runtime.registry ≡ none
    → Sound s
    → Held (send_async k payload dest reply ans s).0
unfolding send_async
send_async-Held k payload dest reply ans s f v =
    send_checked-Held k payload dest reply ans s
      (refusal "libfabric client: empty payload" payload.len s) f v

pub receive_async-Held :
    (k : Setting) (buf : Slice) (reply : Reply) (ans : Answers) (s : Session)
    → lookup ans.new_context s.state.runtime.registry ≡ none
    → Sound s
    → Held (receive_async k buf reply ans s).0
unfolding receive_async
receive_async-Held k buf reply ans s f v =
    receive_checked-Held k buf reply ans s
      (refusal "libfabric client: buffer must be non-empty" buf.len s) f v
