-- ===== src/Client/Telemetry/Rounds.antt =====
-- client/client.go: what dispatch and handleCompletion tell, over the rounds of Client/Session/Dispatcher.antt.
use libfabric_go.Fi.Context.{Runtime, resolve_completion}
use libfabric_go.Capi.Queue.{CqError, CqEvent}
use libfabric_go.Client.Session.{Session, Setting}
use libfabric_go.Client.Dispatch.{result_of, Entry}
use libfabric_go.Capi.Errors.{GoError, Result, is_sentinel, Sentinel, ok, err, wrapped}
use libfabric_go.Client.Telemetry.{
  log_operation_completion, Telemetry, record_dispatcher_failure, start_dispatcher_span,
  span_record_error, Signal, Field, log_dispatcher_event, log_kv, span_add_event, plain,
  metric_dispatcher_started, metric_dispatcher_stopped, endpoint_type_name, status_of,
  finish_dispatcher_span, given_field, error_fields,
}
use libfabric_go.Base.{String, Option, none, some, List, [], ◌∷◌, ◌++◌, if◌then◌else◌, ℕ}
use libfabric_go.Client.Session.Dispatcher.{entry_of, round, Round, dispatcher, note_failure}

-- What handleCompletion tells of a resolved context's operation, before it completes it.
unfoldable pub told_value : Telemetry → ℕ → Option Entry → Option ℕ → Session → List Signal
unfolding log_operation_completion result_of
told_value t source entry none s = []
told_value t source entry (some n) s =
    let op = (s.state.operations n).0 in
    log_operation_completion t op (result_of op entry) source entry

unfoldable pub told_resolved :
    Telemetry → ℕ → Option Entry → Runtime × Result ℕ → Session → List Signal
unfolding told_value
told_resolved t source entry (r, err e) s = []
told_resolved t source entry (r, ok id) s = told_value t source entry (r.objects id).value s

-- `handleCompletion`
unfoldable pub told_completion : Telemetry → ℕ → ℕ → Option Entry → Session → List Signal
unfolding told_resolved
told_completion t ptr source entry s =
    told_resolved t source entry (resolve_completion ptr s.state.runtime) s

-- A failed read, unless the queue was empty.
unfoldable pub told_failure : Telemetry → String → String → GoError → List Signal
unfolding record_dispatcher_failure
told_failure t event cause e =
    if is_sentinel Sentinel.no_completion e
    then []
    else record_dispatcher_failure t event (wrapped cause e)

unfoldable pub told_errors : Telemetry → Result CqError → Session → List Signal
unfolding told_completion told_failure
told_errors t (ok e) s = told_completion t e.context e.src_addr (some (entry_of e)) s
told_errors t (err x) s = told_failure t "cq_readerr_error" "cq readerr" x

unfoldable pub told_events : Telemetry → Result CqError → Result CqEvent → Session → List Signal
unfolding told_completion told_failure told_errors note_failure
told_events t errors (ok e) s = told_completion t e.context e.src_addr none s
told_events t errors (err x) s =
    told_failure t "cq_read_error" "cq read" x ++ told_errors t errors (note_failure "cq read" x s)

unfoldable pub told_round : Telemetry → Round → Session → List Signal
unfolding told_events
told_round t r s = if r.stop_first then [] else told_events t r.error r.event s

-- The rounds of a loop that goes on with the backoff, none once it has ended.
unfoldable pub told_rounds : Telemetry → Setting → List Round → Session × Option ℕ → List Signal
unfolding told_round round
told_rounds t k [] s = []
told_rounds t k (r ∷ rounds) (s, none) = []
told_rounds t k (r ∷ rounds) (s, some backoff) =
    told_round t r s ++ told_rounds t k rounds (round k r backoff s)

abbrev pub start_fields : Telemetry → List Field
start_fields t =
    log_kv "endpoint_type" (plain (endpoint_type_name t.cfg.endpoint_type))
    ∷ given_field "provider" t.cfg.provider

unfoldable pub told_start : Telemetry → List Signal
unfolding start_dispatcher_span log_dispatcher_event span_add_event metric_dispatcher_started
    endpoint_type_name
told_start t =
    start_dispatcher_span t
    ++ (log_dispatcher_event t "start" (start_fields t)
        ++ (span_add_event t "start" (start_fields t)
            ++ metric_dispatcher_started t (start_fields t)))

abbrev pub stop_fields : Option GoError → List Field
stop_fields e = log_kv "status" (plain (status_of e)) ∷ error_fields e

-- The deferred function, from the error that the dispatcher has recorded.
unfoldable pub told_stop : Telemetry → Option GoError → List Signal
unfolding span_record_error log_dispatcher_event span_add_event metric_dispatcher_stopped
    finish_dispatcher_span
told_stop t e =
    span_record_error t e
    ++ (log_dispatcher_event t "stop" (stop_fields e)
        ++ (span_add_event t "stop" (stop_fields e)
            ++ (metric_dispatcher_stopped t (stop_fields e) ++ finish_dispatcher_span t e)))

-- `dispatch`, from its start to its end.
unfoldable pub told_dispatch : Telemetry → Setting → List Round → Session → List Signal
unfolding told_start told_rounds told_stop dispatcher
told_dispatch t k rounds s =
    told_start t
    ++ (told_rounds t k rounds (s, some 1)
        ++ told_stop t (dispatcher k rounds (s, some 1)).0.failure)
