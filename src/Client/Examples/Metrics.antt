-- ===== src/Client/Examples/Metrics.antt =====
-- client/client.go and client/metrics_prometheus.go: a metric hook and the statistics on fixed inputs.
use libfabric_go.Client.Session.Ledger.{posted_of, finished_of, open_operations}
use libfabric_go.Client.Session.Ledger.History.{
  Reach, here, next, sends, dispatches, new_session, Reach-conserved,
}
use libfabric_go.Client.Session.{Session}
use libfabric_go.Fi.Post.{Endpoint}
use libfabric_go.Fi.Pool.History.{no_regions}
use libfabric_go.Client.Session.Async.{send_async}
use libfabric_go.Client.Telemetry.Reached.{Reach-metrics}
use libfabric_go.Client.Metrics.Completions.{completion_increment, completion_labels}
use libfabric_go.Client.Telemetry.Rounds.{told_dispatch}
use libfabric_go.Client.Telemetry.Agree.{metrics_of, tally}
use libfabric_go.Client.Metrics.{prometheus}
use libfabric_go.Capi.Errors.{operation_send, ok, err, sentinel, Sentinel}
use libfabric_go.Client.Examples.Sessions.{setting, pooled_client, eight, answers, provided}
use libfabric_go.Client.Operation.{Operation, new_operation}
use libfabric_go.Client.Session.Dispatcher.{dispatcher, Round}
use libfabric_go.Client.Telemetry.{Telemetry, plain, log_operation_completion}
use libfabric_go.Base.{true, false, none, some, [], ◌∷◌, ◌≡◌, refl, map, lookup, ◌+◌}

abbrev watched : Telemetry
watched = record {
  cfg = pooled_client.cfg;
  sprint = λ v. elim v [ plain s ↦ s | _ ↦ "0" ];
  has_structured = true;
  has_logger = false;
  has_tracer = true;
  has_metrics = true;
}

abbrev one_completion : Round
one_completion = record {
  stop_first = false;
  event = ok (record { context = 100; tag = 0; payload = 0; src_addr = 4 });
  error = err (sentinel Sentinel.no_completion);
  stop_last = true;
}

abbrev sent_eight : Operation
sent_eight = new_operation true operation_send 8

completion_labels_example :
    map prometheus (
      metrics_of
        (log_operation_completion watched sent_eight (record { length = 8; error = none }) 4 none))
    ≡ completion_increment watched.cfg operation_send none ∷ []
unfolding new_operation
completion_labels_example =
    completion_labels watched sent_eight (record { length = 8; error = none }) 4 none (λ x. refl)
      refl

-- A send of eight bytes and its completion.
abbrev sender : Endpoint
sender = record { handle = 2; inject_limit = 0; supports_tagged = false }

abbrev unused : Session
unused = new_session pooled_client sender no_regions

abbrev sent_one : Session
sent_one = (send_async setting eight 3 provided answers unused).0

abbrev finished_one : Session
finished_one = (dispatcher setting (one_completion ∷ []) (sent_one, some 1)).0

finished-Reach : Reach setting unused finished_one
finished-Reach =
    next (next here (sends eight 3 provided answers refl))
      (dispatches (one_completion ∷ []) (some 1) refl)

Reach-conserved_example :
    posted_of operation_send finished_one.board.stats
    ≡ finished_of operation_send finished_one.board.stats
      + open_operations operation_send finished_one.state.operations finished_one.made
Reach-conserved_example =
    Reach-conserved setting pooled_client sender no_regions finished_one finished-Reach
      operation_send

-- The C allocator's first context pointer is new.
nothing_registered : lookup 100 unused.state.runtime.registry ≡ none
unfolding lookup
nothing_registered = refl

Reach-metrics_example :
    (dispatcher setting (one_completion ∷ []) (sent_one, some 1)).0.board.stats
    ≡ tally
        (metrics_of (told_dispatch watched setting (one_completion ∷ []) sent_one))
        sent_one.board.stats
Reach-metrics_example =
    Reach-metrics watched setting pooled_client sender no_regions sent_one (one_completion ∷ [])
      (next here (sends eight 3 provided answers refl)) refl (tt, nothing_registered)
