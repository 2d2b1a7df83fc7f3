-- ===== src/Client/Telemetry.antt =====
-- client/client.go: what the dispatcher tells a logger, a span and a metric hook. What it tells is a list of
-- signals; the line that Debugf gets is kept as its parts. `sprint` is fmt.Sprint on the value of a field.
pub mod Rounds
pub mod Agree
pub mod Attached
pub mod Counted
pub mod Attaches
pub mod Holds
pub mod Calls
pub mod Reached
use libfabric_go.Base.{
  ℕ, String, Bool, true, false, Option, none, some, List, [], ◌∷◌, ◌++◌, str_eq, if◌then◌else◌,
  ◌==◌, ltb,
}
use libfabric_go.Base.Int.{ℤ}
use libfabric_go.Base.Attrs.{Attrs, store}
use libfabric_go.Capi.Errors.{GoError, OperationKind, operation_send, operation_receive}
use libfabric_go.Client.Setup.{EndpointType, unspec, msg, dgram, rdm}
use libfabric_go.Client.Setup.Dial.{Config}
use libfabric_go.Client.Operation.{Operation, OperationResult}
use libfabric_go.Client.Dispatch.{Entry}

-- `hexed` is the text that Sprintf("0x%x") makes of a word.
pub data Value : Type 0 where
  plain : String → Value
  word : ℕ → Value
  signed : ℤ → Value
  hexed : ℕ → Value
  failure : GoError → Value

-- `logField`
pub record Field : Type 0 where
  pub key : String
  pub value : Value

-- A call of a metric hook.
pub data Metric : Type 0 where
  dispatcher_started dispatcher_stopped send_completed receive_completed : Attrs → Metric
  dispatcher_cq_error : String → GoError → Attrs → Metric
  send_failed receive_failed : GoError → Attrs → Metric

pub data Signal : Type 0 where
  debugw debugf : String → List Field → Signal
  span_started : List Field → Signal
  span_event : String → List Field → Signal
  span_error : GoError → Signal
  span_ended : Option GoError → Signal
  metric : Metric → Signal

-- The client's configuration, and which of the four receivers are not nil.
pub record Telemetry : Type 0 where
  pub cfg : Config
  pub sprint : Value → String
  pub has_structured : Bool
  pub has_logger : Bool
  pub has_tracer : Bool
  pub has_metrics : Bool

-- `logKV`
abbrev pub log_kv : String → Value → Field
log_kv key value = record { key = key; value = value }

unfoldable pub endpoint_type_name : EndpointType → String
endpoint_type_name unspec = "unspec"
endpoint_type_name msg = "msg"
endpoint_type_name dgram = "dgram"
endpoint_type_name rdm = "rdm"

unfoldable pub kind_name : OperationKind → String
kind_name operation_send = "send"
kind_name operation_receive = "receive"

-- An attribute of the configuration, unless it is "".
abbrev pub store_given : String → String → Attrs → Attrs
store_given key value attrs = if str_eq value "" then attrs else store key value attrs

abbrev pub base_attrs : Config → Attrs
base_attrs c = store_given "service" c.service (
    store_given "node" c.node (
      store_given "provider" c.provider
        (("endpoint_type", endpoint_type_name c.endpoint_type) ∷ [])))

unfoldable pub store_fields : (Value → String) → List Field → Attrs → Attrs
store_fields sprint [] attrs = attrs
store_fields sprint (f ∷ fields) attrs =
    store_fields sprint fields
      (if str_eq f.key "" then attrs else store f.key (sprint f.value) attrs)

unfoldable pub metric_attrs : Telemetry → List Field → Attrs
unfolding store_fields endpoint_type_name
metric_attrs t fields = store_fields t.sprint fields (base_attrs t.cfg)

-- The fields with a key, which a log line and a span event hold.
unfoldable pub attributes_from_fields : List Field → List Field
attributes_from_fields [] = []
attributes_from_fields (f ∷ fields) =
    if str_eq f.key "" then attributes_from_fields fields else f ∷ attributes_from_fields fields

unfoldable pub log_dispatcher_event : Telemetry → String → List Field → List Signal
unfolding attributes_from_fields
log_dispatcher_event t event fields =
    if t.has_structured
    then debugw event (attributes_from_fields fields) ∷ []
    else if t.has_logger
    then debugf event (attributes_from_fields fields) ∷ []
    else []

-- `spanAddEvent` and `spanRecordError`; there is a span if there is a tracer.
unfoldable pub span_add_event : Telemetry → String → List Field → List Signal
unfolding attributes_from_fields
span_add_event t name fields =
    if t.has_tracer then span_event name (attributes_from_fields fields) ∷ [] else []

unfoldable pub span_record_error : Telemetry → Option GoError → List Signal
span_record_error t none = []
span_record_error t (some e) = if t.has_tracer then span_error e ∷ [] else []

abbrev pub given_field : String → String → List Field
given_field key value = if str_eq value "" then [] else log_kv key (plain value) ∷ []

unfoldable pub start_dispatcher_span : Telemetry → List Signal
unfolding endpoint_type_name
start_dispatcher_span t =
    if t.has_tracer
    then span_started (
        log_kv "component" (plain "libfabric-client")
        ∷ log_kv "endpoint_type" (plain (endpoint_type_name t.cfg.endpoint_type))
        ∷ (given_field "provider" t.cfg.provider
            ++ (given_field "node" t.cfg.node ++ given_field "service" t.cfg.service)))
      ∷ []
    else []

unfoldable pub finish_dispatcher_span : Telemetry → Option GoError → List Signal
finish_dispatcher_span t e = if t.has_tracer then span_ended e ∷ [] else []

-- A metric with the attributes made of the fields, if there is a hook.
abbrev pub metered : Telemetry → (Attrs → Metric) → List Field → List Signal
metered t told fields = if t.has_metrics then metric (told (metric_attrs t fields)) ∷ [] else []

unfoldable pub metric_dispatcher_started : Telemetry → List Field → List Signal
unfolding metric_attrs
metric_dispatcher_started t fields = metered t dispatcher_started fields

unfoldable pub metric_dispatcher_stopped : Telemetry → List Field → List Signal
unfolding metric_attrs
metric_dispatcher_stopped t fields = metered t dispatcher_stopped fields

unfoldable pub metric_dispatcher_cq_error : Telemetry → String → GoError → List Field → List Signal
unfolding metric_attrs
metric_dispatcher_cq_error t kind e fields = metered t (dispatcher_cq_error kind e) fields

unfoldable pub metric_send_completed : Telemetry → List Field → List Signal
unfolding metric_attrs
metric_send_completed t fields = metered t send_completed fields

unfoldable pub metric_send_failed : Telemetry → GoError → List Field → List Signal
unfolding metric_attrs
metric_send_failed t e fields = metered t (send_failed e) fields

unfoldable pub metric_receive_completed : Telemetry → List Field → List Signal
unfolding metric_attrs
metric_receive_completed t fields = metered t receive_completed fields

unfoldable pub metric_receive_failed : Telemetry → GoError → List Field → List Signal
unfolding metric_attrs
metric_receive_failed t e fields = metered t (receive_failed e) fields

-- `recordDispatcherFailure`
unfoldable pub record_dispatcher_failure : Telemetry → String → GoError → List Signal
unfolding log_dispatcher_event span_add_event span_record_error metric_dispatcher_cq_error
record_dispatcher_failure t event e =
    let fields = log_kv "error" (failure e) ∷ [] in
    log_dispatcher_event t event fields
    ++ (span_add_event t event fields
        ++ (span_record_error t (some e) ++ metric_dispatcher_cq_error t event e fields))

abbrev pub status_of : Option GoError → String
status_of none = "ok"
status_of (some e) = "error"

abbrev pub event_name : Option GoError → String
event_name none = "completion"
event_name (some e) = "completion_error"

abbrev pub positive_field : String → ℕ → List Field
positive_field key n = if n == 0 then [] else log_kv key (word n) ∷ []

abbrev pub entry_fields : Option Entry → List Field
entry_fields none = []
entry_fields (some e) =
    log_kv "errno" (signed e.errno)
    ∷ log_kv "provider_err" (signed e.provider_err)
    ∷ log_kv "flags" (hexed e.flags)
    ∷ log_kv "provider_length" (word e.len)
    ∷ log_kv "provider_data" (word e.payload)
    ∷ log_kv "provider_tag" (word e.tag)
    ∷ []

abbrev pub error_fields : Option GoError → List Field
error_fields none = []
error_fields (some e) = log_kv "error" (failure e) ∷ []

-- The fields of a completion; `source` is the peer that the event or the entry names, 0 for none.
unfoldable pub completion_fields : Operation → OperationResult → ℕ → Option Entry → List Field
unfolding kind_name
completion_fields op res source entry =
    log_kv "operation" (plain (kind_name op.kind))
    ∷ log_kv "status" (plain (status_of res.error))
    ∷ (positive_field "requested_size" op.size
        ++ (positive_field "length" res.length
            ++ (entry_fields entry ++ (positive_field "source" source ++ error_fields res.error))))

unfoldable pub completion_metric :
    Telemetry → OperationKind → Option GoError → List Field → List Signal
unfolding metric_send_completed metric_send_failed metric_receive_completed metric_receive_failed
completion_metric t operation_send none fields = metric_send_completed t fields
completion_metric t operation_send (some e) fields = metric_send_failed t e fields
completion_metric t operation_receive none fields = metric_receive_completed t fields
completion_metric t operation_receive (some e) fields = metric_receive_failed t e fields

unfoldable pub log_operation_completion :
    Telemetry → Operation → OperationResult → ℕ → Option Entry → List Signal
unfolding completion_fields completion_metric log_dispatcher_event span_add_event span_record_error
log_operation_completion t op res source entry =
    let fields = completion_fields op res source entry in
    log_dispatcher_event t (event_name res.error) fields
    ++ (span_add_event t (event_name res.error) fields
        ++ (span_record_error t res.error ++ completion_metric t op.kind res.error fields))
