-- ===== src/Fi/Examples/Queues.antt =====
-- fi/endpoint.go and fi/address_vector.go: queues, handles and address vectors on fixed inputs.
use libfabric_go.Base.Int.{negsuc, pos, int32, ltb_ℤ}
use libfabric_go.Fi.Vector.{add_service, add_raw}
use libfabric_go.Capi.Errors.{Sentinel, ok}
use libfabric_go.Base.{false, ◌↔◌, true, ◌≡◌, some, ◌∷◌, [], arith, refl}
use libfabric_go.Fi.Queue.{
  read_completion, read_connection_event, read_completion_error, read_queue_event, read_queue_error,
}
use libfabric_go.Capi.Handle.{Codes}
use libfabric_go.Capi.Queue.{CqFormat, CqEvent, CqError, EqEvent, EqError, CmEntry, CmEvent}
use libfabric_go.Fi.Queue.Reads.{read_outcomes, outcome, read_op, visible}
use libfabric_go.Fi.Vector.Insert.{insert_outcomes}

abbrev codes : Codes
codes = record { again = 11; timed_out = 110; unavailable = 259; no_space = 28 }

read_outcomes_example :
    ((f : CqFormat) (e : CqEvent)
      → read_completion codes (some 7) f (negsuc 10) e
        ≡ outcome codes Sentinel.no_completion (read_op f) (visible f e) (negsuc 10))
    × ((e : CqError)
        → read_completion_error codes (some 7) (negsuc 10) e
          ≡ outcome codes Sentinel.no_completion "fi_cq_readerr"
              (record e { error = int32 e.error; src_addr = 0 })
              (negsuc 10))
    × ((e : EqEvent)
        → read_queue_event codes (some 7) (negsuc 10) e
          ≡ outcome codes Sentinel.no_event "fi_eq_read" e (negsuc 10))
    × ((e : EqError)
        → read_queue_error codes (some 7) (negsuc 10) e
          ≡ outcome codes Sentinel.no_event "fi_eq_readerr"
              (record e { error = int32 e.error })
              (negsuc 10))
read_outcomes_example = read_outcomes codes 7 (negsuc 10) (omega arith) (omega arith)

abbrev request : CmEntry
request = record { event = 1; fid = 20; info = 30 }

abbrev request_event : CmEvent
request_event = record { event = 1; fid = 20; info = 30; data_len = 0; owns_info = true }

reads_request : read_connection_event codes (some 7) 24 (pos 24) request ≡ ok request_event
unfolding read_connection_event
reads_request = refl

insert_outcomes_example :
    ((add_service codes (some 4) (pos 0) 0 ≡ ok 0) ↔ (ltb_ℤ (pos 0) (pos 0) ≡ true))
    × (((add_raw codes (some 4) (127 ∷ 1 ∷ []) 50 (pos 0) 0).0 ≡ ok 0)
        ↔ (ltb_ℤ (pos 0) (pos 0) ≡ false))
insert_outcomes_example =
    insert_outcomes codes 4 50 0 (127 ∷ 1 ∷ []) (pos 0) (omega arith) (omega arith) (omega arith)
      (omega arith)
