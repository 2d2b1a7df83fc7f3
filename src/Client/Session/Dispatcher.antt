-- ===== src/Client/Session/Dispatcher.antt =====
-- client/client.go: the dispatcher over a session. A round is what its two reads of the completion queue
-- give, and whether the stop channel is closed at its two tests; the times are in milliseconds. What
-- it tells a logger, a span and a metric hook is in Client/Telemetry/Rounds.antt.
use libfabric_go.Base.{ℕ, Bool, Option, none, some, List, [], ◌∷◌, ◌*◌, ltb, if◌then◌else◌, String}
use libfabric_go.Capi.Errors.{
  GoError, Sentinel, wrapped, is_sentinel, operation_send, operation_receive, OperationKind, Result,
  ok, err,
}
use libfabric_go.Capi.Queue.{CqEvent, CqError}
use libfabric_go.Fi.Context.{Runtime, resolve_completion}
use libfabric_go.Client.Emit.{ReceiveMeta}
use libfabric_go.Client.Dispatch.{Entry, result_of}
use libfabric_go.Client.Session.{Setting, Session, finish, put, with_runtime}

-- `recordDispatcherError`: the first error stays.
unfoldable pub record_dispatcher_error : GoError → Option GoError → Option GoError
record_dispatcher_error e none = some e
record_dispatcher_error e (some first) = some first

abbrev pub sourced : OperationKind → ℕ → Option ReceiveMeta → Option ReceiveMeta
sourced operation_send source m = m
sourced operation_receive source none = none
sourced operation_receive source (some m) = some (record m { source = source })

-- The operation of a resolved context: the source of a receive is stored, and the operation completed.
unfoldable pub finish_value : Setting → ℕ → Option Entry → Option ℕ → Session → Session
unfolding finish result_of
finish_value k source entry none s = s
finish_value k source entry (some n) s =
    let op = (s.state.operations n).0 in
    finish k n (result_of op entry)
      (record s { metas = put s.metas n (sourced op.kind source (s.metas n)) })

unfoldable pub finish_resolved : Setting → ℕ → Option Entry → Runtime × Result ℕ → Session → Session
unfolding finish_value
finish_resolved k source entry (r, err e) s = with_runtime r s
finish_resolved k source entry (r, ok id) s =
    finish_value k source entry (r.objects id).value (with_runtime r s)

-- `handleCompletion`, of an event with its source or of an entry of the error queue.
unfoldable pub handle : Setting → ℕ → ℕ → Option Entry → Session → Session
unfolding finish_resolved
handle k ptr source entry s =
    finish_resolved k source entry (resolve_completion ptr s.state.runtime) s

abbrev pub entry_of : CqError → Entry
entry_of e = record {
  errno = e.error;
  provider_err = e.provider_err;
  flags = e.flags;
  len = e.len;
  payload = e.payload;
  tag = e.tag;
}

pub record Round : Type 0 where
  pub stop_first : Bool
  pub event : Result CqEvent
  pub error : Result CqError
  pub stop_last : Bool

-- A failed read is recorded, unless the queue was empty.
unfoldable pub note_failure : String → GoError → Session → Session
unfolding record_dispatcher_error
note_failure text e s =
    if is_sentinel Sentinel.no_completion e
    then s
    else record s { failure = record_dispatcher_error (wrapped text e) s.failure }

-- The end of a round: the next backoff, none if the loop has ended.
unfoldable pub next_backoff : Bool → ℕ → Option ℕ
next_backoff stopped backoff =
    if stopped then none else some (if ltb backoff 10 then backoff * 2 else backoff)

-- The session and the next backoff behind the read of the error queue.
unfoldable pub read_errors : Setting → Bool → ℕ → Result CqError → Session → Session × Option ℕ
unfolding handle note_failure next_backoff
read_errors k stop_last backoff (ok e) s =
    (handle k e.context e.src_addr (some (entry_of e)) s, some 1)
read_errors k stop_last backoff (err x) s =
    (note_failure "cq readerr" x s, next_backoff stop_last backoff)

-- The same behind the read of the completion queue.
unfoldable pub read_events :
    Setting → Bool → ℕ → Result CqError → Result CqEvent → Session → Session × Option ℕ
unfolding handle note_failure read_errors
read_events k stop_last backoff errors (ok e) s = (handle k e.context e.src_addr none s, some 1)
read_events k stop_last backoff errors (err x) s =
    read_errors k stop_last backoff errors (note_failure "cq read" x s)

unfoldable pub round : Setting → Round → ℕ → Session → Session × Option ℕ
unfolding read_events
round k r backoff s =
    if r.stop_first then (s, none) else read_events k r.stop_last backoff r.error r.event s

-- The loop, over the rounds that it meets.
unfoldable pub dispatcher : Setting → List Round → Session × Option ℕ → Session × Option ℕ
unfolding round
dispatcher k [] s = s
dispatcher k (r ∷ rounds) (s, none) = (s, none)
dispatcher k (r ∷ rounds) (s, some backoff) = dispatcher k rounds (round k r backoff s)
