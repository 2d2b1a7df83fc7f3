-- ===== src/Client/Session/Async.antt =====
-- client/client.go: sendAsync and ReceiveAsync, with the checks before them.
use libfabric_go.Base.{ℕ, Option, none, some, ◌++◌, ◌==◌, if◌then◌else◌, String}
use libfabric_go.Capi.Errors.{
  GoError, Sentinel, sentinel, message, wrapped, operation_send, operation_receive, Result, ok, err,
}
use libfabric_go.Fi.Context.Effects.{Slice}
use libfabric_go.Fi.Memory.{Memory}
use libfabric_go.Fi.Pool.{MrPool, Reply}
use libfabric_go.Fi.Post.{Answers, Posted}
use libfabric_go.Fi.Post.Message.{SendRequest, RecvRequest, post_send, post_recv}
use libfabric_go.Client.Setup.Dial.{Client}
use libfabric_go.Client.Prepare.{Cleanup, prepare_send, prepare_receive}
use libfabric_go.Client.Dispatch.{attach}
use libfabric_go.Client.Session.{
  Setting, Session, with_memory, with_runtime, run_cleanup, cleaned, finish, add_operation,
  posted_one,
}

unfoldable pub ensure_open : Client → Option GoError
ensure_open c = if c.shut then some (sentinel Sentinel.client_closed) else none

unfoldable pub dispatch_failure : Option GoError → Option GoError
dispatch_failure none = none
dispatch_failure (some e) = some (wrapped "libfabric client dispatcher failed" e)

-- Which of the checks before a call refuses it: that of the client, an empty payload, the dispatcher.
unfoldable pub refusal : String → ℕ → Session → Option GoError
unfolding ensure_open dispatch_failure
refusal text len s = elim (ensure_open s.client) [
  | some e ↦ some e
  | none ↦ if len == 0 then some (message text) else dispatch_failure s.failure
]

-- The end of sendAsync, from the result of the post: an injected send is completed with `len` bytes.
unfoldable pub sent_on :
    Setting → ℕ → ℕ → Cleanup → Session → Result (Option ℕ) → Session × Result ℕ
unfolding run_cleanup add_operation posted_one finish attach
sent_on k size len c s (err e) = (cleaned k c s, err (wrapped "post send" e))
sent_on k size len c s (ok none) = (
  finish k s.made (record { length = len; error = none })
      (posted_one operation_send (add_operation operation_send size c none s)),
  ok s.made,
)
sent_on k size len c s (ok (some id)) =
    let s1 = posted_one operation_send (add_operation operation_send size c none s) in
    (record s1 { state = attach id s.made s1.state }, ok s.made)

-- The session behind a post.
abbrev pub behind : Posted → Session → Session
behind p s = with_runtime p.runtime (record s { issued = s.issued ++ p.issued })

-- `postedSize`: the length of the buffer, or of the region where there is none.
unfoldable pub posted_size : SendRequest → ℕ
posted_size q = elim q.region [
  | none ↦ q.buffer.len
  | some m ↦ if q.buffer.len == 0 then m.len else q.buffer.len
]

-- The part of sendAsync from the request that was prepared.
unfoldable pub send_prepared :
    Setting
    → Answers
    → Session
    → Option MrPool × Memory × Result (SendRequest × Cleanup)
    → Session × Result ℕ
unfolding sent_on posted_size post_send
send_prepared k ans s (pool, h, err e) = (with_memory pool h s, err e)
send_prepared k ans s (pool, h, ok (q, c)) =
    let p = post_send k.local s.endpoint (some q) ans s.state.runtime in
    sent_on k (posted_size q) q.buffer.len c (behind p (with_memory pool h s)) p.result

-- sendAsync behind its checks, one of which may have refused the call.
unfoldable pub send_checked :
    Setting → Slice → ℕ → Reply → Answers → Session → Option GoError → Session × Result ℕ
unfolding prepare_send send_prepared
send_checked k payload dest reply ans s (some e) = (s, err e)
send_checked k payload dest reply ans s none =
    send_prepared k ans s
      (prepare_send k.closes k.flags k.domain s.client payload dest reply s.memory)

unfoldable pub send_async : Setting → Slice → ℕ → Reply → Answers → Session → Session × Result ℕ
unfolding refusal send_checked
send_async k payload dest reply ans s =
    send_checked k payload dest reply ans s
      (refusal "libfabric client: empty payload" payload.len s)

-- The end of ReceiveAsync; a post of a receive gives a context, so that a nil one is a panic.
unfoldable pub received_on :
    Setting → Slice → Cleanup → Session → Result (Option ℕ) → Session × Option (Result ℕ)
unfolding run_cleanup add_operation posted_one attach
received_on k buf c s (err e) = (cleaned k c s, some (err (wrapped "post recv" e)))
received_on k buf c s (ok none) = (
  posted_one operation_receive (
      add_operation operation_receive buf.len c (some (record { buffer = some buf; source = 0 }))
        s),
  none,
)
received_on k buf c s (ok (some id)) =
    let s1 = posted_one operation_receive (
      add_operation operation_receive buf.len c (some (record { buffer = some buf; source = 0 }))
        s) in
    (record s1 { state = attach id s.made s1.state }, some (ok s.made))

unfoldable pub receive_prepared :
    Setting
    → Slice
    → Answers
    → Session
    → Option MrPool × Memory × Result (RecvRequest × Cleanup)
    → Session × Option (Result ℕ)
unfolding received_on post_recv
receive_prepared k buf ans s (pool, h, err e) = (with_memory pool h s, some (err e))
receive_prepared k buf ans s (pool, h, ok (q, c)) =
    let p = post_recv k.local s.endpoint (some q) ans s.state.runtime in
    received_on k buf c (behind p (with_memory pool h s)) p.result

-- `none` is a panic.
unfoldable pub receive_checked :
    Setting → Slice → Reply → Answers → Session → Option GoError → Session × Option (Result ℕ)
unfolding prepare_receive receive_prepared
receive_checked k buf reply ans s (some e) = (s, some (err e))
receive_checked k buf reply ans s none =
    receive_prepared k buf ans s
      (prepare_receive k.closes k.flags k.domain s.client buf reply s.memory)

unfoldable pub receive_async :
    Setting → Slice → Reply → Answers → Session → Session × Option (Result ℕ)
unfolding refusal receive_checked
receive_async k buf reply ans s =
    receive_checked k buf reply ans s
      (refusal "libfabric client: buffer must be non-empty" buf.len s)
