-- ===== src/Client/Session/Poison.antt =====
-- client/client.go: the failure that the dispatcher records, and what it does to later calls.
use libfabric_go.Fi.Queue.Reads.{read_op, read_outcomes}
use libfabric_go.Base.Int.{negsuc, pos}
use libfabric_go.Fi.Queue.{read_completion}
use libfabric_go.Fi.Post.{Answers}
use libfabric_go.Capi.Handle.{Codes}
use libfabric_go.Fi.Context.Effects.{Slice}
use libfabric_go.Fi.Context.{Runtime, resolve_completion}
use libfabric_go.Base.{
  ℕ, ◌≡◌, Bool, false, Option, none, some, List, [], ◌∷◌, arith, String, refl, ◌∙◌, Bool-cases,
  Option-cases, inl, inr, ◌==◌, ◌≢◌, suc, ◌<◌, ◌^◌,
}
use libfabric_go.Capi.Errors.{
  GoError, Sentinel, is_sentinel, wrapped, Result, ok, err, sentinel, message, with_op,
}
use libfabric_go.Capi.Queue.{CqEvent, CqError, CqFormat}
use libfabric_go.Client.Dispatch.{Entry}
use libfabric_go.Client.Operation.{OperationResult}
use libfabric_go.Client.Session.{
  Setting, Session, finish, Runtime, put, with_runtime, Slice, Reply, Answers, finish_first,
}
use libfabric_go.Client.Session.Async.{
  refusal, ensure_open, dispatch_failure, send_async, receive_async,
}
use libfabric_go.Client.Session.Dispatcher.{
  finish_value, finish_resolved, handle, Round, record_dispatcher_error, note_failure, read_errors,
  round, dispatcher, entry_of, read_events, sourced,
}

finish-failure :
    (k : Setting) (n : ℕ) (res : OperationResult) (s : Session)
    → (finish k n res s).failure ≡ s.failure
unfolding finish finish_first
finish-failure k n res s = ground arith

finish_value-failure :
    (k : Setting) (source : ℕ) (entry : Option Entry) (v : Option ℕ) (s : Session)
    → (finish_value k source entry v s).failure ≡ s.failure
unfolding finish_value
finish_value-failure k source entry none s = refl
finish_value-failure k source entry (some n) s =
    finish-failure k n _ (record s {
      metas = put s.metas n (sourced (s.state.operations n).0.kind source (s.metas n));
    })

finish_resolved-failure :
    (k : Setting) (source : ℕ) (entry : Option Entry) (o : Runtime × Result ℕ) (s : Session)
    → (finish_resolved k source entry o s).failure ≡ s.failure
unfolding finish_resolved
finish_resolved-failure k source entry (r, err e) s = refl
finish_resolved-failure k source entry (r, ok id) s =
    finish_value-failure k source entry (r.objects id).value (with_runtime r s)

handle-failure :
    (k : Setting) (ptr source : ℕ) (entry : Option Entry) (s : Session)
    → (handle k ptr source entry s).failure ≡ s.failure
unfolding handle
handle-failure k ptr source entry s =
    finish_resolved-failure k source entry (resolve_completion ptr s.state.runtime) s

note_failure-failure :
    (text : String) (e first : GoError) (s : Session)
    → s.failure ≡ some first
    → (note_failure text e s).failure ≡ some first
unfolding note_failure
note_failure-failure text e first s f = ground (arith, f)

read_errors-failure :
    (k : Setting) (stop : Bool) (backoff : ℕ) (r : Result CqError) (first : GoError) (s : Session)
    → s.failure ≡ some first
    → (read_errors k stop backoff r s).0.failure ≡ some first
unfolding read_errors
read_errors-failure k stop backoff (ok e) first s f =
    handle-failure k e.context e.src_addr (some (entry_of e)) s ∙ f
read_errors-failure k stop backoff (err x) first s f = note_failure-failure "cq readerr" x first s f

read_events-failure :
    (k : Setting) (stop : Bool) (backoff : ℕ) (errors : Result CqError) (r : Result CqEvent)
    (first : GoError) (s : Session)
    → s.failure ≡ some first
    → (read_events k stop backoff errors r s).0.failure ≡ some first
unfolding read_events
read_events-failure k stop backoff errors (ok e) first s f =
    handle-failure k e.context e.src_addr none s ∙ f
read_events-failure k stop backoff errors (err x) first s f =
    read_errors-failure k stop backoff errors first (note_failure "cq read" x s)
      (note_failure-failure "cq read" x first s f)

round-failure :
    (k : Setting) (r : Round) (backoff : ℕ) (first : GoError) (s : Session)
    → s.failure ≡ some first
    → (round k r backoff s).0.failure ≡ some first
unfolding round
round-failure k r backoff first s f = elim (Bool-cases r.stop_first) [
  | inl t ↦ rw t f
  | inr t ↦ rw t (read_events-failure k r.stop_last backoff r.error r.event first s f)
]

-- The first failure stays, whatever the dispatcher reads later.
dispatcher-failure :
    (k : Setting) (rounds : List Round) (o : Session × Option ℕ) (first : GoError)
    → o.0.failure ≡ some first
    → (dispatcher k rounds o).0.failure ≡ some first
unfolding dispatcher
dispatcher-failure k [] o first f = f
dispatcher-failure k (r ∷ rounds) (s, none) first f = f
dispatcher-failure k (r ∷ rounds) (s, some backoff) first f =
    dispatcher-failure k rounds (round k r backoff s) first (round-failure k r backoff first s f)

-- A read that fails with an error other than an empty queue leaves a failure.
noted :
    (text : String) (e : GoError) (s : Session)
    → is_sentinel Sentinel.no_completion e ≡ false
    → (first : GoError) × ((note_failure text e s).failure ≡ some first)
unfolding note_failure record_dispatcher_error
noted text e s n = elim (Option-cases s.failure) [
  | inl f ↦ (wrapped text e, ground (arith, n, f))
  | inr (first, f) ↦ (first, ground (arith, n, f))
]

-- With a failure, every call is refused.
refusal-failure :
    (text : String) (len : ℕ) (first : GoError) (s : Session)
    → s.failure ≡ some first
    → (e : GoError) × (refusal text len s ≡ some e)
unfolding refusal ensure_open dispatch_failure
refusal-failure text len first s f = elim (Bool-cases s.client.shut) [
  | inl c ↦ (sentinel Sentinel.client_closed, ground (arith, c))
  | inr c ↦ elim (Bool-cases (len == 0)) [
    | inl z ↦ (message text, ground (arith, c, z))
    | inr z ↦ (wrapped "libfabric client dispatcher failed" first, ground (arith, c, z, f))
  ]
]

-- The answer of a completion queue whose next entry is an error is no empty queue.
unavailable-error :
    (codes : Codes) (queue n : ℕ) (format : CqFormat) (e : CqEvent)
    → queue ≢ 0
    → suc n ≡ codes.unavailable
    → suc n < 2 ^ 31
    → codes.unavailable ≢ codes.again
    → codes.unavailable ≢ codes.timed_out
    → (x : GoError) × (read_completion codes (some queue) format (negsuc n) e ≡ err x)
      × (is_sentinel Sentinel.no_completion x ≡ false)
unfolding with_op is_sentinel
unavailable-error codes queue n format e live same small a t = (
  with_op (pos (suc n)) (read_op format),
  (read_outcomes codes queue (negsuc n) live small).0 format e ∙ ground (arith, same, a, t),
  ground arith,
)

-- Every call of sendAsync and ReceiveAsync is refused, and changes nothing.
unfoldable pub Refused : Setting → Session → Type 0
Refused k s =
    ((payload : Slice) (dest : ℕ) (reply : Reply) (ans : Answers)
      → (x : GoError) × (send_async k payload dest reply ans s ≡ (s, err x)))
    × ((buf : Slice) (reply : Reply) (ans : Answers)
        → (x : GoError) × (receive_async k buf reply ans s ≡ (s, some (err x))))

send_async-refused :
    (k : Setting) (payload : Slice) (dest : ℕ) (reply : Reply) (ans : Answers) (s : Session)
    (x : GoError)
    → refusal "libfabric client: empty payload" payload.len s ≡ some x
    → send_async k payload dest reply ans s ≡ (s, err x)
unfolding send_async
send_async-refused k payload dest reply ans s x e = rw (e, send_async) refl

receive_async-refused :
    (k : Setting) (buf : Slice) (reply : Reply) (ans : Answers) (s : Session) (x : GoError)
    → refusal "libfabric client: buffer must be non-empty" buf.len s ≡ some x
    → receive_async k buf reply ans s ≡ (s, some (err x))
unfolding receive_async
receive_async-refused k buf reply ans s x e = rw (e, receive_async) refl

failure-Refused :
    (k : Setting) (s : Session) (first : GoError) → s.failure ≡ some first → Refused k s
unfolding Refused
failure-Refused k s first f = (
  λ payload dest reply ans.
      let (x, e) = refusal-failure "libfabric client: empty payload" payload.len first s f in
      (x, send_async-refused k payload dest reply ans s x e),
  λ buf reply ans.
      let (x, e) = refusal-failure "libfabric client: buffer must be non-empty" buf.len first s f in
      (x, receive_async-refused k buf reply ans s x e),
)

-- A round of the dispatcher in which the completion queue answers that an error entry is available, and in
-- which this entry is then read: whatever the dispatcher meets in later rounds, every sendAsync and
-- ReceiveAsync behind it is refused, and changes nothing.
pub unavailable_poisons :
    (k : Setting) (codes : Codes) (queue n : ℕ) (format : CqFormat) (e : CqEvent) (entry : CqError)
    (stop : Bool) (backoff : ℕ) (rounds : List Round) (s : Session)
    → queue ≢ 0
    → suc n ≡ codes.unavailable
    → suc n < 2 ^ 31
    → codes.unavailable ≢ codes.again
    → codes.unavailable ≢ codes.timed_out
    → let r : Round = record {
      stop_first = false;
      event = read_completion codes (some queue) format (negsuc n) e;
      error = ok entry;
      stop_last = stop;
    } in
      Refused k (dispatcher k (r ∷ rounds) (s, some backoff)).0
unfolding dispatcher round read_events read_errors
unavailable_poisons k codes queue n format e entry stop backoff rounds s live same small a t =
    let (x, r, other) = unavailable-error codes queue n format e live same small a t in
    let (first, f) = noted "cq read" x s other in
    let s1 = note_failure "cq read" x s in
    let handled = handle k entry.context entry.src_addr (some (entry_of entry)) s1 in
    let kept : handled.failure ≡ some first =
      handle-failure k entry.context entry.src_addr (some (entry_of entry)) s1 ∙ f in
    failure-Refused k _ first (rw r (dispatcher-failure k rounds (handled, some 1) first kept))
