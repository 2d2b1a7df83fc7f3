-- ===== src/Client/Metrics/Labels.antt =====
-- client/metrics_prometheus.go and client/metrics_otel.go: the labels that the metrics of a client get.
use text.Mathlib.TextEquality.{eq_iff}
use text.Mathlib.TextPositions.{eq_refl}
use libfabric_go.Client.Setup.Dial.{Config}
use libfabric_go.Base.{
  map, ◌≡◌, refl, false, ℕ, Bool-cases, String, List, [], ◌∷◌, ◌++◌, str_eq, ◌==◌, Option, none,
  some, ◌∙◌, inl, inr, sym,
}
use libfabric_go.Base.Attrs.{Attrs, value_of, store, value_of-store}
use libfabric_go.Client.Telemetry.{
  Metric, dispatcher_started, dispatcher_stopped, send_completed, receive_completed,
  dispatcher_cq_error, send_failed, receive_failed, Field, Value, store_fields, positive_field,
  entry_fields, error_fields, store_given, endpoint_type_name, base_attrs,
}
use libfabric_go.Client.Metrics.{
  labels_of, prometheus, label_keys, dispatcher_label_keys, completion_label_keys,
  failure_label_keys,
}
use libfabric_go.Capi.Errors.{GoError}
use libfabric_go.Client.Operation.{Operation, OperationResult}
use libfabric_go.Client.Dispatch.{Entry}

abbrev pub keys_of : Attrs → List String
keys_of attrs = map (λ (a : String × String). a.0) attrs

labels_of-keys : (attrs : Attrs) (keys : List String) → keys_of (labels_of attrs keys) ≡ keys
unfolding labels_of
labels_of-keys attrs [] = refl
labels_of-keys attrs (key ∷ keys) = rw (labels_of-keys attrs keys) refl

-- Every increment of PrometheusMetrics passes the labels of its counter, in their order.
pub prometheus-keys :
    (m : Metric) → keys_of (prometheus m).labels ≡ label_keys (prometheus m).counter
unfolding prometheus label_keys
prometheus-keys (dispatcher_started attrs) = labels_of-keys attrs dispatcher_label_keys
prometheus-keys (dispatcher_stopped attrs) = labels_of-keys attrs dispatcher_label_keys
prometheus-keys (dispatcher_cq_error kind e attrs) = unfold store in refl
prometheus-keys (send_completed attrs) = labels_of-keys attrs completion_label_keys
prometheus-keys (send_failed e attrs) = labels_of-keys attrs failure_label_keys
prometheus-keys (receive_completed attrs) = labels_of-keys attrs completion_label_keys
prometheus-keys (receive_failed e attrs) = labels_of-keys attrs failure_label_keys

-- No field has the key.
abbrev pub Lacks : String → List Field → Type 0
Lacks wanted [] = Unit {0}
Lacks wanted (f ∷ fields) = (str_eq f.key wanted ≡ false) × Lacks wanted fields

Lacks-append :
    (wanted : String) (a b : List Field) → Lacks wanted a → Lacks wanted b → Lacks wanted (a ++ b)
Lacks-append wanted [] b h g = g
Lacks-append wanted (f ∷ a) b h g = (h.0, Lacks-append wanted a b h.1 g)

pub value_of-store_fields :
    (sprint : Value → String) (wanted : String) (fields : List Field) (attrs : Attrs)
    → Lacks wanted fields
    → value_of wanted (store_fields sprint fields attrs) ≡ value_of wanted attrs
unfolding store_fields
value_of-store_fields sprint wanted [] attrs h = refl
value_of-store_fields sprint wanted (f ∷ fields) attrs h = elim (Bool-cases (str_eq f.key "")) [
  | inl x ↦ rw x (value_of-store_fields sprint wanted fields attrs h.1)
  | inr x ↦ rw x (
      value_of-store_fields sprint wanted fields (store f.key (sprint f.value) attrs) h.1
      ∙ rw (value_of-store f.key wanted (sprint f.value) attrs, h.0) refl)
]

positive_field-Lacks :
    (wanted key : String) (n : ℕ) → str_eq key wanted ≡ false → Lacks wanted (positive_field key n)
positive_field-Lacks wanted key n h = elim (Bool-cases (n == 0)) [
  | inl x ↦ rw x tt
  | inr x ↦ rw x (h, tt)
]

-- The key is none of those of the fields of a completion behind its operation and its status.
abbrev pub Foreign : String → Type 0
Foreign wanted =
    (str_eq "requested_size" wanted ≡ false)
    × (str_eq "length" wanted ≡ false)
    × (str_eq "source" wanted ≡ false)
    × (str_eq "errno" wanted ≡ false)
    × (str_eq "provider_err" wanted ≡ false)
    × (str_eq "flags" wanted ≡ false)
    × (str_eq "provider_length" wanted ≡ false)
    × (str_eq "provider_data" wanted ≡ false)
    × (str_eq "provider_tag" wanted ≡ false)
    × (str_eq "error" wanted ≡ false)

abbrev pub details : Operation → OperationResult → ℕ → Option Entry → List Field
details op res source entry =
    positive_field "requested_size" op.size
    ++ (positive_field "length" res.length
        ++ (entry_fields entry ++ (positive_field "source" source ++ error_fields res.error)))

entry_fields-Lacks :
    (wanted : String) (entry : Option Entry) → Foreign wanted → Lacks wanted (entry_fields entry)
entry_fields-Lacks wanted none f = tt
entry_fields-Lacks wanted (some e) f = (f.3, (f.4, (f.5, (f.6, (f.7, (f.8, tt))))))

error_fields-Lacks :
    (wanted : String) (e : Option GoError) → Foreign wanted → Lacks wanted (error_fields e)
error_fields-Lacks wanted none f = tt
error_fields-Lacks wanted (some e) f = (f.9, tt)

pub details-Lacks :
    (wanted : String) (op : Operation) (res : OperationResult) (source : ℕ) (entry : Option Entry)
    → Foreign wanted
    → Lacks wanted (details op res source entry)
details-Lacks wanted op res source entry f =
    Lacks-append wanted (positive_field "requested_size" op.size) _
      (positive_field-Lacks wanted "requested_size" op.size f.0)
      (Lacks-append wanted (positive_field "length" res.length) _
        (positive_field-Lacks wanted "length" res.length f.1)
        (Lacks-append wanted (entry_fields entry) _ (entry_fields-Lacks wanted entry f) (
          Lacks-append wanted (positive_field "source" source) _
            (positive_field-Lacks wanted "source" source f.2)
            (error_fields-Lacks wanted res.error f))))

value_of-store_given :
    (key wanted value : String) (attrs : Attrs)
    → str_eq key wanted ≡ false
    → value_of wanted (store_given key value attrs) ≡ value_of wanted attrs
value_of-store_given key wanted value attrs h = elim (Bool-cases (str_eq value "")) [
  | inl x ↦ rw x refl
  | inr x ↦ rw (x, value_of-store key wanted value attrs, h) refl
]

value_of-store_given_self :
    (key value : String) (attrs : Attrs)
    → value_of key attrs ≡ ""
    → value_of key (store_given key value attrs) ≡ value
value_of-store_given_self key value attrs h = elim (Bool-cases (str_eq value "")) [
  | inl x ↦ rw x (h ∙ sym ((eq_iff value "").0 x))
  | inr x ↦ rw (x, value_of-store key key value attrs, eq_refl key) refl
]

-- The four attributes of a configuration; one that is not set is "".
abbrev pub config_labels : Config → Attrs
config_labels c =
    ("endpoint_type", endpoint_type_name c.endpoint_type)
    ∷ ("provider", c.provider)
    ∷ ("node", c.node)
    ∷ ("service", c.service)
    ∷ []

pub base_attrs-labels :
    (c : Config) → labels_of (base_attrs c) dispatcher_label_keys ≡ config_labels c
unfolding labels_of dispatcher_label_keys
base_attrs-labels c =
    let kind : Attrs = ("endpoint_type", endpoint_type_name c.endpoint_type) ∷ [] in
    let a1 = store_given "provider" c.provider kind in
    let a2 = store_given "node" c.node a1 in
    rw
      (
        value_of-store_given "service" "endpoint_type" c.service a2 refl,
        value_of-store_given "node" "endpoint_type" c.node a1 refl,
        value_of-store_given "provider" "endpoint_type" c.provider kind refl,
        value_of-store_given "service" "provider" c.service a2 refl,
        value_of-store_given "node" "provider" c.node a1 refl,
        value_of-store_given_self "provider" c.provider kind (unfold value_of in refl),
        value_of-store_given "service" "node" c.service a2 refl,
        value_of-store_given_self "node" c.node a1
            (value_of-store_given "provider" "node" c.provider kind refl ∙ unfold value_of in refl),
        value_of-store_given_self "service" c.service a2 (
            value_of-store_given "node" "service" c.node a1 refl
            ∙ (value_of-store_given "provider" "service" c.provider kind refl
                ∙ unfold value_of in refl)),
      )
      (unfold value_of in refl)

-- Attributes that agree with those of a configuration but for the operation and the status.
pub labels_of-agree :
    (attrs base : Attrs) (kind status : String)
    → value_of "endpoint_type" attrs ≡ value_of "endpoint_type" base
    → value_of "provider" attrs ≡ value_of "provider" base
    → value_of "node" attrs ≡ value_of "node" base
    → value_of "service" attrs ≡ value_of "service" base
    → value_of "operation" attrs ≡ kind
    → value_of "status" attrs ≡ status
    → (labels_of attrs completion_label_keys
        ≡ labels_of base dispatcher_label_keys ++ ("operation", kind) ∷ ("status", status) ∷ [])
      × (labels_of attrs failure_label_keys
          ≡ labels_of base dispatcher_label_keys ++ ("operation", kind) ∷ [])
unfolding labels_of completion_label_keys failure_label_keys dispatcher_label_keys
labels_of-agree attrs base kind status a b c d e f =
    (rw (a, b, c, d, e, f) refl, rw (a, b, c, d, e) refl)
