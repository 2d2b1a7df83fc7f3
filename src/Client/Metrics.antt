-- ===== src/Client/Metrics.antt =====
-- client/metrics_labels.go, client/metrics_prometheus.go and client/metrics_otel.go: the two metric hooks. A
-- counter is named by the hook's field; what a hook does with a metric is one increment of a counter, with the
-- labels or attributes that it passes. The registry and the meter are third-party code: their answers
-- are arguments.
pub mod Labels
pub mod Completions
use libfabric_go.Base.{ℕ, String, Option, none, some, List, [], ◌∷◌, ◌++◌, str_eq, if◌then◌else◌}
use libfabric_go.Base.Attrs.{Attrs, value_of, store}
use libfabric_go.Capi.Errors.{Result, ok, err, GoError}
use libfabric_go.Client.Telemetry.{
  Metric, dispatcher_started, dispatcher_stopped, send_completed, receive_completed,
  dispatcher_cq_error, send_failed, receive_failed,
}

pub data Counter : Type 0 where
  started stopped cq_errors sends_completed sends_failed receives_completed receives_failed :
      Counter

-- An increment of a counter by one.
pub record Increment : Type 0 where
  pub counter : Counter
  pub labels : Attrs

-- `NewPrometheusMetrics` makes every counter with one of these lists.
unfoldable pub dispatcher_label_keys : List String
dispatcher_label_keys = "endpoint_type" ∷ "provider" ∷ "node" ∷ "service" ∷ []

unfoldable pub cq_error_label_keys : List String
cq_error_label_keys = "endpoint_type" ∷ "provider" ∷ "node" ∷ "service" ∷ "kind" ∷ []

unfoldable pub completion_label_keys : List String
completion_label_keys =
    "endpoint_type" ∷ "provider" ∷ "node" ∷ "service" ∷ "operation" ∷ "status" ∷ []

unfoldable pub failure_label_keys : List String
failure_label_keys = "endpoint_type" ∷ "provider" ∷ "node" ∷ "service" ∷ "operation" ∷ []

unfoldable pub label_keys : Counter → List String
unfolding dispatcher_label_keys cq_error_label_keys completion_label_keys failure_label_keys
label_keys started = dispatcher_label_keys
label_keys stopped = dispatcher_label_keys
label_keys cq_errors = cq_error_label_keys
label_keys sends_completed = completion_label_keys
label_keys sends_failed = failure_label_keys
label_keys receives_completed = completion_label_keys
label_keys receives_failed = failure_label_keys

-- `labels`
unfoldable pub labels_of : Attrs → List String → Attrs
labels_of attrs [] = []
labels_of attrs (key ∷ keys) = (key, value_of key attrs) ∷ labels_of attrs keys

-- The methods of PrometheusMetrics.
unfoldable pub prometheus : Metric → Increment
unfolding dispatcher_label_keys cq_error_label_keys completion_label_keys failure_label_keys
    labels_of
prometheus (dispatcher_started attrs) = record {
  counter = started;
  labels = labels_of attrs dispatcher_label_keys;
}
prometheus (dispatcher_stopped attrs) = record {
  counter = stopped;
  labels = labels_of attrs dispatcher_label_keys;
}
prometheus (dispatcher_cq_error kind e attrs) = record {
  counter = cq_errors;
  labels = store "kind" kind (labels_of attrs cq_error_label_keys);
}
prometheus (send_completed attrs) = record {
  counter = sends_completed;
  labels = labels_of attrs completion_label_keys;
}
prometheus (send_failed e attrs) = record {
  counter = sends_failed;
  labels = labels_of attrs failure_label_keys;
}
prometheus (receive_completed attrs) = record {
  counter = receives_completed;
  labels = labels_of attrs completion_label_keys;
}
prometheus (receive_failed e attrs) = record {
  counter = receives_failed;
  labels = labels_of attrs failure_label_keys;
}

-- An attribute, unless its value is "".
abbrev pub given_attr : String → Attrs → Attrs
given_attr key attrs = if str_eq (value_of key attrs) "" then [] else (key, value_of key attrs) ∷ []

unfoldable pub otel_attrs : Attrs → Attrs
otel_attrs attrs =
    ("endpoint_type", value_of "endpoint_type" attrs)
    ∷ ("provider", value_of "provider" attrs)
    ∷ (given_attr "node" attrs ++ given_attr "service" attrs)

unfoldable pub otel_attrs_with_operation : Attrs → Attrs
unfolding otel_attrs
otel_attrs_with_operation attrs =
    otel_attrs attrs ++ (given_attr "operation" attrs ++ given_attr "status" attrs)

-- The methods of OTelMetrics.
unfoldable pub otel : Metric → Increment
unfolding otel_attrs otel_attrs_with_operation
otel (dispatcher_started attrs) = record { counter = started; labels = otel_attrs attrs }
otel (dispatcher_stopped attrs) = record { counter = stopped; labels = otel_attrs attrs }
otel (dispatcher_cq_error kind e attrs) = record {
  counter = cq_errors;
  labels = otel_attrs attrs ++ ("kind", kind) ∷ [];
}
otel (send_completed attrs) = record {
  counter = sends_completed;
  labels = otel_attrs_with_operation attrs;
}
otel (send_failed e attrs) = record {
  counter = sends_failed;
  labels = otel_attrs_with_operation attrs;
}
otel (receive_completed attrs) = record {
  counter = receives_completed;
  labels = otel_attrs_with_operation attrs;
}
otel (receive_failed e attrs) = record {
  counter = receives_failed;
  labels = otel_attrs_with_operation attrs;
}

-- What a registry answers to a counter: it is new to it, or it is there already, as the number of a
-- counter vector (none if it is of another type), or it is refused.
pub data Registration : Type 0 where
  accepted : Registration
  already : Option ℕ → GoError → Registration
  refused : GoError → Registration

-- `vec` is the number of the vector that was made.
unfoldable pub register_counter_vec : ℕ → Registration → Result ℕ
register_counter_vec vec accepted = ok vec
register_counter_vec vec (already (some existing) e) = ok existing
register_counter_vec vec (already none e) = err e
register_counter_vec vec (refused e) = err e

-- The registrations of NewPrometheusMetrics in their order, over the made vectors and the registry's
-- answers: the vectors in use, or the first error.
unfoldable pub register_all : List (ℕ × Registration) → Result (List ℕ)
unfolding register_counter_vec
register_all [] = ok []
register_all ((vec, answer) ∷ rest) = elim (register_counter_vec vec answer) [
  | err e ↦ err e
  | ok used ↦ elim (register_all rest) [ err e ↦ err e | ok others ↦ ok (used ∷ others) ]
]
