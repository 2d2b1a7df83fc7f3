-- ===== src/Client/Metrics/Completions.antt =====
-- client/client.go and client/metrics_prometheus.go: from a completion to the counter of a registry.
use libfabric_go.Client.Telemetry.Agree.{metrics_of, completion_metrics}
use libfabric_go.Client.Metrics.Labels.{
  Foreign, config_labels, value_of-store_fields, labels_of-agree, details, base_attrs-labels,
  details-Lacks,
}
use libfabric_go.Client.Setup.Dial.{Config}
use libfabric_go.Base.{
  map, ◌≡◌, refl, false, ℕ, String, List, [], ◌∷◌, ◌++◌, str_eq, Option, none, some, ◌∙◌, true,
}
use libfabric_go.Base.Attrs.{Attrs, value_of, store, value_of-store}
use libfabric_go.Client.Telemetry.{
  Field, store_fields, endpoint_type_name, base_attrs, Telemetry, plain, completion_fields,
  status_of, metric_attrs, kind_name, completion_metric, metric_send_completed, metric_send_failed,
  log_operation_completion, metric_receive_completed, metric_receive_failed,
}
use libfabric_go.Client.Metrics.{
  labels_of, prometheus, completion_label_keys, failure_label_keys, Increment, sends_completed,
  sends_failed, receives_completed, receives_failed,
}
use libfabric_go.Capi.Errors.{operation_send, operation_receive, GoError, OperationKind}
use libfabric_go.Client.Operation.{Operation, OperationResult}
use libfabric_go.Client.Dispatch.{Entry}

module _ (t : Telemetry) (texts : (x : String) → t.sprint (plain x) ≡ x) (op : Operation)
    (res : OperationResult) (source : ℕ) (entry : Option Entry) where
  abbrev fields : List Field
  fields = completion_fields op res source entry

  abbrev with_status : Attrs
  with_status =
      store "status" (t.sprint (plain (status_of res.error)))
        (store "operation" (t.sprint (plain (kind_name op.kind))) (base_attrs t.cfg))

  completion_value :
      (wanted : String)
      → Foreign wanted
      → value_of wanted (metric_attrs t fields) ≡ value_of wanted with_status
  unfolding metric_attrs store_fields completion_fields
  completion_value wanted f =
      value_of-store_fields t.sprint wanted (details op res source entry) with_status
        (details-Lacks wanted op res source entry f)

  config_value :
      (wanted : String)
      → Foreign wanted
      → str_eq "operation" wanted ≡ false
      → str_eq "status" wanted ≡ false
      → value_of wanted (metric_attrs t fields) ≡ value_of wanted (base_attrs t.cfg)
  config_value wanted f o s =
      completion_value wanted f
      ∙ rw
          (
            value_of-store "status" wanted (t.sprint (plain (status_of res.error)))
                (store "operation" (t.sprint (plain (kind_name op.kind))) (base_attrs t.cfg)),
            s,
            value_of-store "operation" wanted (t.sprint (plain (kind_name op.kind)))
                (base_attrs t.cfg),
            o,
          )
          refl

  completion_labels_of :
      (labels_of (metric_attrs t fields) completion_label_keys
        ≡ config_labels t.cfg
          ++ ("operation", kind_name op.kind) ∷ ("status", status_of res.error) ∷ [])
      × (labels_of (metric_attrs t fields) failure_label_keys
          ≡ config_labels t.cfg ++ ("operation", kind_name op.kind) ∷ [])
  completion_labels_of =
      let both =
        labels_of-agree (metric_attrs t fields) (base_attrs t.cfg) (kind_name op.kind)
          (status_of res.error)
          (config_value "endpoint_type" (refl, refl, refl, refl, refl, refl, refl, refl, refl, refl)
            refl refl)
          (config_value "provider" (refl, refl, refl, refl, refl, refl, refl, refl, refl, refl) refl
            refl)
          (config_value "node" (refl, refl, refl, refl, refl, refl, refl, refl, refl, refl) refl
            refl)
          (config_value "service" (refl, refl, refl, refl, refl, refl, refl, refl, refl, refl) refl
            refl)
          (completion_value "operation" (refl, refl, refl, refl, refl, refl, refl, refl, refl, refl)
            ∙ rw
                (
                  value_of-store "status" "operation" (t.sprint (plain (status_of res.error)))
                      (store "operation" (t.sprint (plain (kind_name op.kind))) (base_attrs t.cfg)),
                  value_of-store "operation" "operation" (t.sprint (plain (kind_name op.kind)))
                      (base_attrs t.cfg),
                )
                (texts (kind_name op.kind)))
          (completion_value "status" (refl, refl, refl, refl, refl, refl, refl, refl, refl, refl)
            ∙ rw
                (value_of-store "status" "status" (t.sprint (plain (status_of res.error)))
                  (store "operation" (t.sprint (plain (kind_name op.kind))) (base_attrs t.cfg)))
                (texts (status_of res.error))) in
      rw (base_attrs-labels t.cfg) at both

-- The increment that a completion makes; the counters of failures have no label for the status.
unfoldable pub completion_increment : Config → OperationKind → Option GoError → Increment
unfolding endpoint_type_name kind_name
completion_increment c operation_send none = record {
  counter = sends_completed;
  labels = config_labels c ++ ("operation", "send") ∷ ("status", "ok") ∷ [];
}
completion_increment c operation_send (some e) = record {
  counter = sends_failed;
  labels = config_labels c ++ ("operation", "send") ∷ [];
}
completion_increment c operation_receive none = record {
  counter = receives_completed;
  labels = config_labels c ++ ("operation", "receive") ∷ ("status", "ok") ∷ [];
}
completion_increment c operation_receive (some e) = record {
  counter = receives_failed;
  labels = config_labels c ++ ("operation", "receive") ∷ [];
}

-- A metric of a completion whose attributes have the labels of the completion.
completion_metric-increment :
    (t : Telemetry) (kind : OperationKind) (e : Option GoError) (told : List Field)
    → t.has_metrics ≡ true
    → (labels_of (metric_attrs t told) completion_label_keys
        ≡ config_labels t.cfg ++ ("operation", kind_name kind) ∷ ("status", status_of e) ∷ [])
    → (labels_of (metric_attrs t told) failure_label_keys
        ≡ config_labels t.cfg ++ ("operation", kind_name kind) ∷ [])
    → map prometheus (metrics_of (completion_metric t kind e told))
      ≡ completion_increment t.cfg kind e ∷ []
unfolding completion_metric metric_send_completed metric_send_failed metric_receive_completed
    metric_receive_failed metrics_of prometheus completion_increment kind_name
completion_metric-increment t operation_send none told h a b = rw (h, a) refl
completion_metric-increment t operation_send (some e) told h a b = rw (h, b) refl
completion_metric-increment t operation_receive none told h a b = rw (h, a) refl
completion_metric-increment t operation_receive (some e) told h a b = rw (h, b) refl

-- Where Sprint leaves a text as it is, the Prometheus hook makes one increment for a completion. Its
-- counter and its labels follow from the configuration of the client, the kind of the operation and
-- whether there is an error, whatever the sizes, addresses, tags and error codes of the completion are.
pub completion_labels :
    (t : Telemetry) (op : Operation) (res : OperationResult) (source : ℕ) (entry : Option Entry)
    → ((x : String) → t.sprint (plain x) ≡ x)
    → t.has_metrics ≡ true
    → map prometheus (metrics_of (log_operation_completion t op res source entry))
      ≡ completion_increment t.cfg op.kind res.error ∷ []
completion_labels t op res source entry texts h =
    let (a, b) = completion_labels_of t texts op res source entry in
    rw (completion_metrics t op res source entry) (
      completion_metric-increment t op.kind res.error (completion_fields op res source entry) h a b)
