-- ===== src/Client/Session/Blocking.antt =====
-- client/client.go: Send, SendTo and ReceiveFrom, which post and wait, with the deadline that they wait
-- for. The dispatcher's rounds between the post and the look at the future are an argument, and so is the
-- error of the context, none while it is not done. Times are in nanoseconds.
use libfabric_go.Client.Session.Completion.{SendDone, SendOutcome, send_completes}
use libfabric_go.Fi.Post.{Answers}
use libfabric_go.Capi.Errors.{Result, GoError, err, ok, operation_send}
use libfabric_go.Fi.Context.Effects.{Slice}
use libfabric_go.Client.Session.{Setting, Slice, Result, Reply, Session, Answers, count_posted}
use libfabric_go.Client.Operation.{await, OperationResult, Operation}
use libfabric_go.Client.Emit.{ReceiveMeta}
use libfabric_go.Client.Session.Peers.{send_to_default}
use libfabric_go.Client.Session.Async.{send_async, receive_async}
use libfabric_go.Client.Session.Dispatcher.{dispatcher, Round, handle}
use mathlib.Core.Option
use libfabric_go.Base.{
  ℕ, Option, none, some, List, ◌+◌, ltb, leb, if◌then◌else◌, not, ◌≤◌, ◌||◌, ◌≡◌, ◌-◌, suc, arith,
  zero, refl, ◌≢◌, [], lookup, inl, ◌⊎◌, inr,
}
use libfabric_go.Base.Int.{ℤ, pos, ltb_ℤ, pos_part, sub_ℕ, negsuc}

-- `context.WithTimeout`: the earlier of two deadlines, that of the parent and that of the timeout.
unfoldable pub with_timeout : ℕ → ℕ → Option ℕ → Option ℕ
with_timeout timeout now none = some (now + timeout)
with_timeout timeout now (some d) = if ltb d (now + timeout) then some d else some (now + timeout)

-- `operationContext` over the deadlines of the contexts: `now` is the time of its first look at the clock,
-- `later` that of `context.WithTimeout`.
unfoldable pub operation_context : ℤ → ℕ → ℕ → Option ℕ → Option ℕ
unfolding with_timeout
operation_context timeout now later none =
    if ltb_ℤ (pos 0) timeout then with_timeout (pos_part timeout) later none else none
operation_context timeout now later (some d) =
    if leb d now
    then some d
    else if not (ltb_ℤ (pos 0) timeout) || ltb_ℤ (sub_ℕ d now) timeout
    then some d
    else with_timeout (d - now) later (some d)

-- `Await` on the future of a send behind the rounds; none while it blocks.
unfoldable pub awaited :
    Setting
    → List Round
    → ℕ
    → Option GoError
    → Session × Result ℕ
    → Session × Option (Option GoError)
unfolding dispatcher await
awaited k rounds backoff cancelled (s, err e) = (s, some (some e))
awaited k rounds backoff cancelled (s, ok n) =
    let s' = (dispatcher k rounds (s, some backoff)).0 in
    (s', Option.map (λ (r : OperationResult). r.error) (await cancelled (s'.state.operations n).0))

-- `SendTo`, from the error of its context at the start.
unfoldable pub blocking_send_to :
    Setting
    → Slice
    → ℕ
    → Reply
    → Answers
    → List Round
    → ℕ
    → Option GoError
    → Session
    → Option GoError
    → Session × Option (Option GoError)
unfolding send_async awaited
blocking_send_to k payload dest reply ans rounds backoff cancelled s (some e) = (s, some (some e))
blocking_send_to k payload dest reply ans rounds backoff cancelled s none =
    awaited k rounds backoff cancelled (send_async k payload dest reply ans s)

-- `Send`, whose destination is the default one.
unfoldable pub blocking_send :
    Setting
    → Slice
    → Reply
    → Answers
    → List Round
    → ℕ
    → Option GoError
    → Session
    → Option GoError
    → Session × Option (Option GoError)
unfolding send_to_default awaited
blocking_send k payload reply ans rounds backoff cancelled s (some e) = (s, some (some e))
blocking_send k payload reply ans rounds backoff cancelled s none =
    awaited k rounds backoff cancelled (send_to_default k payload reply ans s)

-- The count and the source that ReceiveFrom returns, from what Await gives and the receive's data.
abbrev pub received_result : Option ReceiveMeta → OperationResult → Result (ℕ × ℕ)
received_result meta r = elim r.error [
  | some e ↦ err e
  | none ↦ ok (r.length, elim meta [ none ↦ 0 | some m ↦ m.source ])
]

-- The outer option is none on a panic of ReceiveAsync, the inner one while Await blocks.
unfoldable pub received_from :
    Setting
    → List Round
    → ℕ
    → Option GoError
    → Session × Option (Result ℕ)
    → Session × Option (Option (Result (ℕ × ℕ)))
unfolding dispatcher await
received_from k rounds backoff cancelled (s, none) = (s, none)
received_from k rounds backoff cancelled (s, some (err e)) = (s, some (some (err e)))
received_from k rounds backoff cancelled (s, some (ok n)) =
    let s' = (dispatcher k rounds (s, some backoff)).0 in
    (
      s',
      some (Option.map (received_result (s'.metas n)) (await cancelled (s'.state.operations n).0)),
    )

-- `ReceiveFrom`, from the error of its context at the start.
unfoldable pub receive_from :
    Setting
    → Slice
    → Reply
    → Answers
    → List Round
    → ℕ
    → Option GoError
    → Session
    → Option GoError
    → Session × Option (Option (Result (ℕ × ℕ)))
unfolding receive_async received_from
receive_from k buf reply ans rounds backoff cancelled s (some e) = (s, some (some (err e)))
receive_from k buf reply ans rounds backoff cancelled s none =
    received_from k rounds backoff cancelled (receive_async k buf reply ans s)

-- The deadline of a call: the caller's, or else that of a positive timeout from `now`.
unfoldable pub own_deadline : ℤ → ℕ → Option ℕ → Option ℕ
own_deadline (pos zero) now none = none
own_deadline (pos (suc n)) now none = some (now + suc n)
own_deadline (negsuc n) now none = none
own_deadline timeout now (some d) = some d

-- operationContext, where the clock does not go back: a call whose context has a deadline keeps exactly
-- that deadline, whatever timeout is configured; one without a deadline gets the configured timeout, if it
-- is positive, and else none.
pub operation_context-deadline :
    (timeout : ℤ) (now later : ℕ) (ctx : Option ℕ)
    → now ≤ later
    → operation_context timeout now later ctx ≡ own_deadline timeout later ctx
unfolding operation_context with_timeout own_deadline
operation_context-deadline (pos zero) now later none h = refl
operation_context-deadline (pos (suc n)) now later none h = ground arith
operation_context-deadline (negsuc n) now later none h = ground arith
operation_context-deadline timeout now later (some d) h = ground arith

await_done :
    (e : GoError) (op : Operation) (r : OperationResult)
    → await none op ≡ some r
    → await (some e) op ≡ some r
unfolding await
await_done e op r h = ground (arith, h)

await_pending :
    (e : GoError) (op : Operation)
    → await none op ≡ none
    → await (some e) op ≡ some (record { length = 0; error = some e })
unfolding await
await_pending e op h = ground (arith, h)

-- What is left when a send's context is done with `e` before the dispatcher's next round: a send that
-- was refused; one that succeeded, of an operation that is done; or the error `e`, of an operation that the
-- completion of the pointer `ptr` still completes with `len` bytes.
unfoldable pub CancelOutcome :
    Setting → ℕ → ℕ → GoError → Session → Session × Option (Option GoError) → Type 0
CancelOutcome k ptr len e s (s', none) = ⊥
CancelOutcome k ptr len e s (s', some none) =
    (n : ℕ) × SendDone (count_posted operation_send s.board.stats) s' n len
CancelOutcome k ptr len e s (s', some (some x)) =
    ((s'.issued ≡ s.issued) × (s'.board ≡ s.board) × (s'.made ≡ s.made))
    ⊎ ((x ≡ e)
        × ((n : ℕ) × ((source : ℕ)
              → SendDone (count_posted operation_send s.board.stats) (handle k ptr source none s') n
                  len)))

awaited-CancelOutcome :
    (k : Setting) (ptr len backoff : ℕ) (e : GoError) (s : Session) (o : Session × Result ℕ)
    → SendOutcome k ptr len s o
    → CancelOutcome k ptr len e s (awaited k [] backoff (some e) o)
unfolding awaited CancelOutcome SendOutcome dispatcher SendDone
awaited-CancelOutcome k ptr len backoff e s (s', err x) h = inl h
awaited-CancelOutcome k ptr len backoff e s (s', ok n) (inl h) =
    rw (await_done e (s'.state.operations n).0 (record { length = len; error = none }) h.0) (n, h)
awaited-CancelOutcome k ptr len backoff e s (s', ok n) (inr h) =
    rw (await_pending e (s'.state.operations n).0 h.0) (inr (refl, (n, h.1)))

-- SendTo whose context is not done at its start but is done with the error `e` before the dispatcher has run
-- again, and whose completion context gets a pointer that is not nil and not registered: it returns.
-- It returns nil only for an operation that is done and counted; it returns another error only if no
-- request was issued, no operation made, and nothing counted; and where it returns `e` for a
-- request that was issued, the request stays in flight: a completion of the pointer still completes the
-- operation with the payload's length, and counts a send that succeeded.
pub cancelled_send :
    (k : Setting) (payload : Slice) (dest : ℕ) (reply : Reply) (ans : Answers) (backoff : ℕ)
    (e : GoError) (s : Session)
    → ans.new_context ≢ 0
    → lookup ans.new_context s.state.runtime.registry ≡ none
    → CancelOutcome k ans.new_context payload.len e s
        (blocking_send_to k payload dest reply ans [] backoff (some e) s none)
unfolding blocking_send_to
cancelled_send k payload dest reply ans backoff e s z f =
    awaited-CancelOutcome k ans.new_context payload.len backoff e s
      (send_async k payload dest reply ans s) (send_completes k payload dest reply ans s z f)
