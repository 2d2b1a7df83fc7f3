-- ===== src/Client/Telemetry/Agree.antt =====
-- client/client.go: the metric hook against the statistics of the client.
use libfabric_go.Client.Dispatch.{Entry}
use libfabric_go.Capi.Errors.{operation_send, operation_receive, GoError, wrapped, OperationKind}
use libfabric_go.Client.Operation.{Operation, OperationResult}
use libfabric_go.Client.Emit.{Stats, emit, ReceiveMeta, Board}
use libfabric_go.Client.Telemetry.Rounds.{told_failure}
use libfabric_go.Client.Telemetry.{
  Metric, log_dispatcher_event, span_add_event, span_record_error, start_dispatcher_span,
  finish_dispatcher_span, log_operation_completion, record_dispatcher_failure, Signal, Telemetry,
  metric_dispatcher_cq_error, send_completed, Operation, metric, send_failed, Field, GoError,
  debugw, receive_completed, debugf, receive_failed, Entry, span_started, dispatcher_started,
  completion_metric, span_event, dispatcher_stopped, completion_fields, span_error,
  dispatcher_cq_error, span_ended, metric_send_completed, metric_send_failed,
  metric_receive_completed, metric_receive_failed,
}
use libfabric_go.Base.{
  suc, ◌≡◌, refl, List, ◌∷◌, String, Option, [], ◌++◌, arith, some, ℕ, none, true,
}

-- The metrics among what was told, in order.
unfoldable pub metrics_of : List Signal → List Metric
metrics_of [] = []
metrics_of (metric m ∷ signals) = m ∷ metrics_of signals
metrics_of (debugw event fields ∷ signals) = metrics_of signals
metrics_of (debugf event fields ∷ signals) = metrics_of signals
metrics_of (span_started fields ∷ signals) = metrics_of signals
metrics_of (span_event name fields ∷ signals) = metrics_of signals
metrics_of (span_error e ∷ signals) = metrics_of signals
metrics_of (span_ended e ∷ signals) = metrics_of signals

-- The statistics that a hook keeps which counts its calls.
unfoldable pub tally_one : Metric → Stats → Stats
tally_one (send_completed attrs) s = record s { send_completed = suc s.send_completed }
tally_one (send_failed e attrs) s = record s { send_errored = suc s.send_errored }
tally_one (receive_completed attrs) s = record s { recv_matched = suc s.recv_matched }
tally_one (receive_failed e attrs) s = record s { recv_errored = suc s.recv_errored }
tally_one (dispatcher_started attrs) s = s
tally_one (dispatcher_stopped attrs) s = s
tally_one (dispatcher_cq_error kind e attrs) s = s

unfoldable pub tally : List Metric → Stats → Stats
unfolding tally_one
tally [] s = s
tally (m ∷ ms) s = tally ms (tally_one m s)

pub metrics_of-append : (a b : List Signal) → metrics_of (a ++ b) ≡ metrics_of a ++ metrics_of b
unfolding metrics_of
metrics_of-append [] b = refl
metrics_of-append (metric m ∷ a) b = rw (metrics_of-append a b) refl
metrics_of-append (debugw event fields ∷ a) b = metrics_of-append a b
metrics_of-append (debugf event fields ∷ a) b = metrics_of-append a b
metrics_of-append (span_started fields ∷ a) b = metrics_of-append a b
metrics_of-append (span_event name fields ∷ a) b = metrics_of-append a b
metrics_of-append (span_error e ∷ a) b = metrics_of-append a b
metrics_of-append (span_ended e ∷ a) b = metrics_of-append a b

pub tally-append : (a b : List Metric) (s : Stats) → tally (a ++ b) s ≡ tally b (tally a s)
unfolding tally
tally-append [] b s = refl
tally-append (m ∷ a) b s = tally-append a b (tally_one m s)

-- A log line and what a span gets are no metrics.
pub log_dispatcher_event-silent :
    (t : Telemetry) (event : String) (fields : List Field)
    → metrics_of (log_dispatcher_event t event fields) ≡ []
unfolding log_dispatcher_event metrics_of
log_dispatcher_event-silent t event fields = ground arith

pub span_add_event-silent :
    (t : Telemetry) (name : String) (fields : List Field)
    → metrics_of (span_add_event t name fields) ≡ []
unfolding span_add_event metrics_of
span_add_event-silent t name fields = ground arith

pub span_record_error-silent :
    (t : Telemetry) (e : Option GoError) → metrics_of (span_record_error t e) ≡ []
unfolding span_record_error metrics_of
span_record_error-silent t none = refl
span_record_error-silent t (some e) = ground arith

pub start_dispatcher_span-silent : (t : Telemetry) → metrics_of (start_dispatcher_span t) ≡ []
unfolding start_dispatcher_span metrics_of
start_dispatcher_span-silent t = ground arith

pub finish_dispatcher_span-silent :
    (t : Telemetry) (e : Option GoError) → metrics_of (finish_dispatcher_span t e) ≡ []
unfolding finish_dispatcher_span metrics_of
finish_dispatcher_span-silent t e = ground arith

pub ruleset silence = (
  metrics_of-append, log_dispatcher_event-silent, span_add_event-silent, span_record_error-silent,
  start_dispatcher_span-silent, finish_dispatcher_span-silent,
)

-- The metric hook's one call of a completion.
pub completion_metrics :
    (t : Telemetry) (op : Operation) (res : OperationResult) (source : ℕ) (entry : Option Entry)
    → metrics_of (log_operation_completion t op res source entry)
      ≡ metrics_of (completion_metric t op.kind res.error (completion_fields op res source entry))
unfolding log_operation_completion
completion_metrics t op res source entry = simp silence

pub record_dispatcher_failure-tally :
    (t : Telemetry) (event : String) (e : GoError) (s : Stats)
    → tally (metrics_of (record_dispatcher_failure t event e)) s ≡ s
unfolding record_dispatcher_failure metric_dispatcher_cq_error
record_dispatcher_failure-tally t event e s = simp silence (unfold metrics_of tally in ground arith)

pub told_failure-tally :
    (t : Telemetry) (event cause : String) (e : GoError) (s : Stats)
    → tally (metrics_of (told_failure t event cause e)) s ≡ s
unfolding told_failure tally metrics_of
told_failure-tally t event cause e s =
    ground (arith, record_dispatcher_failure-tally t event (wrapped cause e) s)

pub completion_metric-tally :
    (t : Telemetry) (kind : OperationKind) (e : Option GoError) (fields : List Field)
    (m : Option ReceiveMeta) (size : ℕ) (b : Board)
    → t.has_metrics ≡ true
    → (emit kind m (record { length = size; error = e }) b).0.stats
      ≡ tally (metrics_of (completion_metric t kind e fields)) b.stats
unfolding emit completion_metric metric_send_completed metric_send_failed metric_receive_completed
    metric_receive_failed tally metrics_of
completion_metric-tally t operation_send none fields m size b h = rw h refl
completion_metric-tally t operation_send (some e) fields m size b h = rw h refl
completion_metric-tally t operation_receive none fields m size b h = rw h refl
completion_metric-tally t operation_receive (some e) fields m size b h = rw h refl
