-- ===== src/Client/Examples/Operations.antt =====
-- client/client.go: operations, handlers and statistics on fixed inputs.
use libfabric_go.Base.{
  ◌≡◌, ◌++◌, ◌*◌, ℕ, refl, some, none, List, [], ◌∷◌, true, Option, lookup, if◌then◌else◌, count_if,
  ◌==◌, arith,
}
use libfabric_go.Capi.Errors.{GoError, message, operation_send, operation_receive}
use libfabric_go.Client.Operation.{
  OperationResult, emitted, ran_release, started, emits, releases, start_all, await, complete,
  add_callback, new_operation,
}
use libfabric_go.Client.Operation.Once.{Call, completes, adds, run, added, posted, complete_once}
use libfabric_go.Client.Emit.{Board, Stats, register_send_handler, unregister_send_handler, emit}
use libfabric_go.Client.Emit.Register.{Fresh, Keeps, add_send, remove_send, send_handler_kept}
use libfabric_go.Client.Emit.Register as Register
use libfabric_go.Client.Emit.Counts.{
  Completion, emit_all, runs_send, runs_receive, holds, all_sends, all_receives,
  emit_all-deliveries,
}
use libfabric_go.Base.{insert}
use libfabric_go.Fi.Context.{new_completion_context}
use libfabric_go.Fi.Context.Registry.{Inv}
use libfabric_go.Fi.Context.History as Context
use libfabric_go.Fi.Context.History.{create}
use libfabric_go.Client.Operation.{complete}
use libfabric_go.Base.Int.{ℤ, pos, eqb_ℤ}
use libfabric_go.Capi.Errors.{is_errno}
use libfabric_go.Client.Dispatch.{Entry, State, handle_completion, attach, dispatch, result_of}
use libfabric_go.Client.Dispatch.Race.{Detached, early_completion_lost, attached_completes}

abbrev eight_bytes : OperationResult
eight_bytes = record { length = 8; error = none }

abbrev refused : OperationResult
refused = record { length = 8; error = some (message "refused") }

-- A callback before the completion, one behind it, and a second completion, which is ignored.
abbrev before : List Call
before = adds (some 1) ∷ adds none ∷ []

abbrev later : List Call
later = completes refused ∷ adds (some 2) ∷ []

in_order :
    (run (before ++ completes eight_bytes ∷ later) (posted true operation_send 8 (some 7), [])).1
    ≡ emitted eight_bytes ∷ ran_release 7 ∷ started 1 eight_bytes ∷ started 2 eight_bytes ∷ []
unfolding run complete add_callback new_operation
in_order = refl

complete_once_example :
    ((run (before ++ completes eight_bytes ∷ later) (posted true operation_send 8 (some 7), [])).1
      ≡ emits (posted true operation_send 8 (some 7)) eight_bytes
        ++ (releases (posted true operation_send 8 (some 7))
            ++ start_all eight_bytes (added before ++ added later)))
    × ((cancelled : Option GoError)
        → await cancelled
            (run
              (before ++ completes eight_bytes ∷ later)
              (posted true operation_send 8 (some 7), [])).0
          ≡ some eight_bytes)
complete_once_example = complete_once true operation_send 8 (some 7) before later eight_bytes tt

abbrev no_stats : Stats
no_stats = record {
  send_posted = 0;
  send_completed = 0;
  send_errored = 0;
  recv_posted = 0;
  recv_matched = 0;
  recv_errored = 0;
}

abbrev empty_board : Board
empty_board = record {
  stats = no_stats;
  send_handlers = [];
  receive_handlers = [];
  handler_seq = 0;
}

empty_board-Fresh : Fresh empty_board
unfolding lookup
empty_board-Fresh = record { sends = λ id lt. refl; receives = λ id lt. refl }

abbrev one_handler : Board
one_handler = Register.run (add_send 11 ∷ []) empty_board

abbrev next_handler : Board × ℕ
next_handler = register_send_handler 12 one_handler

send_handler_kept_example :
    (lookup next_handler.1 one_handler.send_handlers ≡ none)
    × (Keeps next_handler.1 (remove_send 1 ∷ [])
        → lookup next_handler.1 (Register.run (remove_send 1 ∷ []) next_handler.0).send_handlers
          ≡ some 12)
    × ((j : ℕ)
        → lookup j
            (unregister_send_handler next_handler.1
              (Register.run (remove_send 1 ∷ []) next_handler.0)).send_handlers
          ≡ (if next_handler.1 == j
              then none
              else lookup j (Register.run (remove_send 1 ∷ []) next_handler.0).send_handlers))
send_handler_kept_example =
    send_handler_kept (add_send 11 ∷ []) (remove_send 1 ∷ []) empty_board 12 empty_board-Fresh

-- A send that worked, one that failed, and a receive.
abbrev three : List Completion
three =
    record { kind = operation_send; source = none; result = eight_bytes }
    ∷ record { kind = operation_send; source = none; result = refused }
    ∷ record { kind = operation_receive; source = none; result = eight_bytes }
    ∷ []

counted : (emit_all three one_handler).0.stats.send_errored ≡ 1
unfolding emit_all emit Register.run Register.step register_send_handler
counted = refl

emit_all-deliveries_example :
    (count_if (runs_send 11) (emit_all three one_handler).1
      ≡ count_if all_sends three * count_if (holds 11) one_handler.send_handlers)
    × (count_if (runs_receive 11) (emit_all three one_handler).1
        ≡ count_if all_receives three * count_if (holds 11) one_handler.receive_handlers)
emit_all-deliveries_example = emit_all-deliveries three one_handler 11

-- One context, and an operation that is attached to it late or in time.
abbrev one_context : State
one_context = record {
  runtime = Context.run Context.start (create 100 ∷ []);
  operations = λ n. (posted true operation_receive 8 none, []);
}

one_context-Inv : Inv one_context.runtime
unfolding lookup
one_context-Inv = Context.run-Inv (create 100 ∷ []) (refl, tt)

registered : lookup 100 one_context.runtime.registry ≡ some 0
unfolding Context.run Context.step new_completion_context lookup insert
registered = refl

not_attached : Detached 5 one_context.runtime
unfolding Context.run Context.step new_completion_context lookup insert
not_attached p id l e = ground arith

early_completion_lost_example :
    (dispatch ((100, none) ∷ []) (attach 0 5 (handle_completion 100 none one_context))).operations 5
    ≡ one_context.operations 5
early_completion_lost_example =
    early_completion_lost one_context 100 0 5 none ((100, none) ∷ []) one_context-Inv (ground arith)
      registered not_attached

-- The entry of a failed operation.
abbrev overrun : Entry
overrun = record { errno = pos 75; provider_err = pos 0; flags = 0; len = 8; payload = 0; tag = 0 }

attached_completes_example :
    ((handle_completion 100 (some overrun) (attach 0 5 one_context)).operations 5
      ≡ complete (result_of (one_context.operations 5).0 (some overrun)) (one_context.operations 5))
    × ((result_of (one_context.operations 5).0 (some overrun)).length
        ≡ (one_context.operations 5).0.size)
    × (some overrun ≡ none → (result_of (one_context.operations 5).0 (some overrun)).error ≡ none)
    × ((e : Entry)
        → some overrun ≡ some e
        → (x : GoError) × ((result_of (one_context.operations 5).0 (some overrun)).error ≡ some x)
          × ((m : ℤ) → is_errno m x ≡ eqb_ℤ e.errno m))
attached_completes_example =
    attached_completes one_context 100 0 5 (some overrun) one_context-Inv (ground arith) registered
