-- ===== src/Client/Examples/Setups.antt =====
-- client: runs of the set-up code on fixed answers of the C library.
use libfabric_go.Base.{refl, ◌≡◌, true, none, some, [], ◌∷◌, false, Option, List}
use libfabric_go.Base.Int.{pos}
use libfabric_go.Capi.Errors.{GoError, message, ok, err}
use libfabric_go.Client.Setup.{
  Provider, Call, rdm, same_type, live, ◌>>◌, opens, deferred_close, calls, request, opened, fabric,
  domain, listen_queue, passive,
}
use libfabric_go.Client.Setup.Dial.{Config, dial, dial_defaults, dial_selected, dial_vector}
use libfabric_go.Client.Setup.Connect.{connect}
use libfabric_go.Client.Setup.Listener.{
  Listener, ListenerConfig, listener, handle_conn_req, accept_resources,
}
use libfabric_go.Client.Setup.DialLeaks.{DialOutcome, dial-DialOutcome}
use libfabric_go.Client.Setup.ConnectLeaks.{ConnectOutcome, connect-ConnectOutcome}
use libfabric_go.Client.Setup.ListenerLeaks.{
  ListenOutcome, listener-ListenOutcome, AcceptOutcome, handle_conn_req-AcceptOutcome,
}
use libfabric_go.Capi.Errors.{Sentinel, sentinel}
use libfabric_go.Client.Setup.{Event}
use libfabric_go.Client.Setup.Accept.{
  Round, reads, shutdown_event, conn_req, connected_event, accept,
}
use libfabric_go.Client.Setup.Accept.Loops.{LoopOutcome, accept-LoopOutcome}

-- A provider that grants every call, and one whose domain cannot be bound to an address vector.
abbrev willing : Provider
willing = record {
  refuses = λ c. none;
  found = record { endpoint = rdm; inject_size = 64 } ∷ [];
  opened_domain = record { handle = 7; mr_mode = 1; mr_key_size = 8; mr_iov_limit = 4 };
  own_address = 3;
  own_name = 10 ∷ 0 ∷ 0 ∷ 1 ∷ [];
  service_address = 9;
  mr_local = 1;
}

abbrev refuses_vector : Call → Option GoError
refuses_vector Call.bind_vector = some (message "not supported")
refuses_vector _ = none

abbrev no_vectors : Provider
no_vectors = record willing { refuses = refuses_vector }

abbrev to_service : Config
to_service = record {
  provider = "";
  endpoint_type = rdm;
  timeout = pos 0;
  mr_pool_size = pos 0;
  mr_pool_capacity = pos 0;
  mr_pool_access = 0;
  node = "localhost";
  service = "7471";
}

abbrev on_service : ListenerConfig
on_service = record { provider = "tcp"; node = ""; service = "7471" }

abbrev listening : Listener
listening = record { cfg = on_service; shut = false }

dial-DialOutcome_example :
    DialOutcome
      (same_type (dial_defaults to_service).endpoint_type rdm)
      (dial no_vectors to_service [])
dial-DialOutcome_example = dial-DialOutcome no_vectors to_service

-- With the endpoint still open, Close is called on the vector that is bound to it, and on the queues.
abbrev refuses_name : Call → Option GoError
refuses_name Call.query_name = some (message "no name")
refuses_name _ = none

rdm_close_too_early :
    live true (dial (record willing { refuses = refuses_name }) to_service []).0 ≡ none
unfolding dial dial_selected dial_vector ◌>>◌ opens deferred_close calls
rdm_close_too_early = refl

abbrev refuses_enable : Call → Option GoError
refuses_enable Call.enable = some (message "refused")
refuses_enable _ = none

accept_close_too_early :
    live true
      (handle_conn_req
        (record willing { refuses = refuses_enable })
        listening
        (opened fabric
          ∷ opened domain
          ∷ opened listen_queue
          ∷ opened passive
          ∷ opened request
          ∷ [])).0
    ≡ none
unfolding handle_conn_req accept_resources deferred_close ◌>>◌ opens calls
accept_close_too_early = refl

connect-ConnectOutcome_example : ConnectOutcome (connect willing to_service [])
connect-ConnectOutcome_example = connect-ConnectOutcome willing to_service

listener-ListenOutcome_example : ListenOutcome (listener willing on_service [])
listener-ListenOutcome_example = listener-ListenOutcome willing on_service

handle_conn_req-AcceptOutcome_example : AcceptOutcome (
    handle_conn_req willing listening
      (opened fabric ∷ opened domain ∷ opened listen_queue ∷ opened passive ∷ opened request ∷ []))
handle_conn_req-AcceptOutcome_example =
    handle_conn_req-AcceptOutcome willing listening
      (opened fabric ∷ opened domain ∷ opened listen_queue ∷ opened passive ∷ opened request ∷ [])
      refl

-- A shutdown notice, an empty queue, and the request for a connection.
abbrev three_rounds : List Round
three_rounds =
    reads (ok (some shutdown_event))
    ∷ reads (err (sentinel Sentinel.no_event))
    ∷ reads (ok (some conn_req))
    ∷ []

abbrev listener_log : List Event
listener_log = opened fabric ∷ opened domain ∷ opened listen_queue ∷ opened passive ∷ []

accept-LoopOutcome_example : LoopOutcome (accept willing listening three_rounds listener_log)
accept-LoopOutcome_example = accept-LoopOutcome willing listening three_rounds listener_log refl

abbrev shaken : List Round
shaken = reads (err (sentinel Sentinel.no_event)) ∷ reads (ok (some connected_event)) ∷ []
