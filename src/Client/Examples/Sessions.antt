-- ===== src/Client/Examples/Sessions.antt =====
-- client/client.go: calls of a client with a pool on fixed inputs.
use libfabric_go.Client.Session.Blocking.{CancelOutcome, cancelled_send, blocking_send_to}
use libfabric_go.Client.Session.Completion.{SendOutcome, send_completes}
use libfabric_go.Base.{lookup, insert, ◌≡◌, refl, true, false, none, some, [], ◌∷◌, arith}
use libfabric_go.Base.Int.{pos, negsuc}
use libfabric_go.Capi.Errors.{ok, operation_send, GoError, message}
use libfabric_go.Capi.Handle.{Codes}
use libfabric_go.Capi.Queue.{CqEvent, CqError, other}
use libfabric_go.Fi.Context.Effects.{Slice}
use libfabric_go.Fi.Context.History.{start}
use libfabric_go.Fi.Memory.{Memory}
use libfabric_go.Fi.Pool.{MrPool, Reply}
use libfabric_go.Fi.Pool.Ownership.{Inv, accepts}
use libfabric_go.Fi.Pool.History.{no_regions}
use libfabric_go.Fi.Post.{Answers}
use libfabric_go.Client.Setup.{rdm}
use libfabric_go.Client.Setup.Dial.{Client}
use libfabric_go.Client.Operation.{new_operation}
use libfabric_go.Client.Prepare.{nothing, gives_back}
use libfabric_go.Client.Session.{Setting, Session}
use libfabric_go.Client.Session.Async.{send_async, receive_async}
use libfabric_go.Client.Session.Agree.{handle_gives_back}
use libfabric_go.Fi.Context.{
  Runtime, new_completion_context, set_value, resolve_completion, release_with,
}
use libfabric_go.Client.Session.Dispatcher.{handle, dispatcher}
use libfabric_go.Client.Session.Poison.{Refused, unavailable_poisons}
use libfabric_go.Client.Session.Lending.{LentOutcome, HasLent, Pending, Lends}
use libfabric_go.Client.Session.Lifecycle.{Returned, calls_lend}
use libfabric_go.Client.Session.Peers.{register_peer, PeerOutcome, register_peer-PeerOutcome}
use libfabric_go.Fi.Queue.{read_completion}

abbrev small_pool : MrPool
small_pool = record {
  domain = record { handle = 3; mr_mode = 4; mr_key_size = 8; mr_iov_limit = 2 };
  size = 64;
  access = 4;
  queue = [];
  capacity = 1;
  closed = false;
}

abbrev pub pooled_client : Client
pooled_client = record {
  cfg = record {
    provider = "verbs";
    endpoint_type = rdm;
    timeout = pos 0;
    mr_pool_size = pos 64;
    mr_pool_capacity = pos 1;
    mr_pool_access = 4;
    node = "";
    service = "";
  };
  has_vector = true;
  has_event_queue = false;
  self_addr = 1;
  self_raw = [];
  peer_addr = 1;
  peer_configured = true;
  pool = some small_pool;
  mr_access = 4;
  requires_mr = true;
  shut = false;
  own_fabric = true;
  own_domain = true;
  own_endpoint = true;
  own_completion = true;
  own_event_queue = false;
}

abbrev pub setting : Setting
setting = record {
  closes = accepts;
  flags = record { mr_local = 4; supported_modes = 7 };
  domain = record { handle = 3; mr_mode = 4; mr_key_size = 8; mr_iov_limit = 2 };
  local = 4;
}

abbrev idle : Session
idle = record {
  client = pooled_client;
  endpoint = record { handle = 2; inject_limit = 0; supports_tagged = false };
  memory = no_regions;
  state = record { runtime = start; operations = λ n. (new_operation true operation_send 8, []) };
  made = 0;
  cleanups = λ n. nothing;
  metas = λ n. none;
  board = record {
    stats = record {
      send_posted = 0;
      send_completed = 0;
      send_errored = 0;
      recv_posted = 0;
      recv_matched = 0;
      recv_errored = 0;
    };
    send_handlers = [];
    receive_handlers = [];
    handler_seq = 0;
  };
  delivered = [];
  failure = none;
  issued = [];
}

idle_pool : Inv small_pool no_regions []
idle_pool = record {
  sized = omega arith;
  bounded = omega arith;
  shut = λ c. refl;
  once = λ id. omega arith;
  usable = λ id c. absurd (omega arith);
  lost = λ id lt c. refl;
}

abbrev pub eight : Slice
eight = record { base = 40; len = 8 }

abbrev pub answers : Answers
answers = record { new_context = 100; new_buffer = 200; inject = none; post = none }

abbrev pub provided : Reply
provided = record { cbuf = 5; handle = ok 9 }

calls_lend_example :
    LentOutcome [] (send_async setting eight 3 provided answers idle)
    × Returned [] (receive_async setting eight provided answers idle)
calls_lend_example =
    calls_lend setting idle small_pool [] eight eight 3 provided answers refl refl idle_pool
      (omega arith) (omega arith)

-- A send that has been posted holds the only region that there is.
abbrev one_region : Memory
one_region = record {
  regions =
      λ id. record { handle = 9; buffer = 5; len = 64; access = 4; desc_size = 8; owns_buf = true };
  next = 1;
  log = [];
}

abbrev posted_runtime : Runtime
posted_runtime = set_value 0 0 (new_completion_context 100 start).0

abbrev pub sending : Session
sending = record idle {
  memory = one_region;
  made = 1;
  cleanups = λ n. gives_back 0;
  state = record {
    runtime = posted_runtime;
    operations = λ n. (new_operation true operation_send 8, []);
  };
}

lent_pool : Inv small_pool one_region (0 ∷ [])
lent_pool = record {
  sized = omega arith;
  bounded = omega arith;
  shut = λ c. refl;
  once = λ id. ground arith;
  usable = λ id c. (ground arith, refl);
  lost = λ id lt c. ground arith;
}

sending_holds : Pending sending 0 0
unfolding Pending new_operation
sending_holds = (refl, refl)

sending_lent : HasLent sending (0 ∷ [])
unfolding Lends
sending_lent = (small_pool, refl, lent_pool)

abbrev resolved : Runtime
resolved = (resolve_completion 100 posted_runtime).0

resolves : resolve_completion 100 posted_runtime ≡ (resolved, ok 0)
unfolding resolve_completion set_value new_completion_context release_with lookup insert
resolves = refl

attached : (resolved.objects 0).value ≡ some 0
unfolding resolve_completion set_value new_completion_context release_with lookup insert
attached = refl

handle_gives_back_example :
    (((handle setting 100 0 none sending).state.operations 0).0.done ≡ true)
    × HasLent (handle setting 100 0 none sending) []
handle_gives_back_example =
    handle_gives_back setting 100 0 0 0 0 none resolved sending [] refl resolves attached
      sending_holds sending_lent

abbrev codes : Codes
codes = record { again = 11; timed_out = 110; unavailable = 259; no_space = 28 }

abbrev empty_event : CqEvent
empty_event = record { context = 0; tag = 0; payload = 0; src_addr = 0 }

abbrev refused_entry : CqError
refused_entry = record {
  context = 77;
  flags = 0;
  len = 0;
  buffer = 0;
  payload = 0;
  tag = 0;
  error = pos 111;
  provider_err = pos 0;
  err_data = 0;
  err_data_size = 0;
  src_addr = 0;
}

unavailable_poisons_example :
    Refused setting
      (dispatcher setting
        (record {
          stop_first = false;
          event = read_completion codes (some 6) other (negsuc 258) empty_event;
          error = ok refused_entry;
          stop_last = false;
        }
          ∷ [])
        (idle, some 1)).0
unavailable_poisons_example =
    unavailable_poisons setting codes 6 258 other empty_event refused_entry false 1 [] idle
      (omega arith) refl (omega arith) (omega arith) (omega arith)

register_peer-PeerOutcome_example :
    PeerOutcome true pooled_client
      (register_peer codes (some 4) (127 ∷ 1 ∷ []) 50 (pos 1) 3 true pooled_client)
register_peer-PeerOutcome_example =
    register_peer-PeerOutcome codes (some 4) (127 ∷ 1 ∷ []) 50 (pos 1) 3 true pooled_client

send_completes_example :
    SendOutcome setting 100 8 idle (send_async setting eight 3 provided answers idle)
unfolding lookup
send_completes_example = send_completes setting eight 3 provided answers idle (omega arith) refl

abbrev cancelled : GoError
cancelled = message "context canceled"

cancelled_send_example :
    CancelOutcome setting 100 8 cancelled idle
      (blocking_send_to setting eight 3 provided answers [] 1 (some cancelled) idle none)
unfolding lookup
cancelled_send_example =
    cancelled_send setting eight 3 provided answers 1 cancelled idle (omega arith) refl
