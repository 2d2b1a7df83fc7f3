-- ===== src/Client/Session/Ledger/History.antt =====
-- client/client.go: a client from its start, over the calls of its users and the rounds of its dispatcher.
use libfabric_go.Base.{ℕ, ◌+◌, ◌≡◌, true, Option, none, List, [], arith, Bool}
use libfabric_go.Capi.Handle.{Codes}
use libfabric_go.Base.Int.{ℤ}
use libfabric_go.Capi.Errors.{OperationKind, operation_send, operation_receive}
use libfabric_go.Fi.Context.Effects.{Slice}
use libfabric_go.Fi.Context.History.{start}
use libfabric_go.Fi.Memory.{Memory}
use libfabric_go.Fi.Pool.{Reply}
use libfabric_go.Fi.Post.{Answers, Endpoint}
use libfabric_go.Client.Setup.Dial.{Client}
use libfabric_go.Client.Prepare.{nothing}
use libfabric_go.Client.Operation.{new_operation}
use libfabric_go.Client.Emit.{
  register_send_handler, register_receive_handler, unregister_send_handler,
  unregister_receive_handler,
}
use libfabric_go.Client.Session.{Setting, Session}
use libfabric_go.Client.Session.Async.{send_async, receive_async}
use libfabric_go.Client.Session.Dispatcher.{Round, dispatcher}
use libfabric_go.Client.Session.Peers.{register_peer, set_default_peer}
use libfabric_go.Client.Session.Ledger.{Ledger, Books, open_operations, posted_of, finished_of}
use libfabric_go.Client.Session.Ledger.Steps.{send_async-Ledger, receive_async-Ledger}
use libfabric_go.Client.Session.Ledger.Rounds.{dispatcher-Ledger}

-- A client that is set up, before its first call.
abbrev pub new_session : Client → Endpoint → Memory → Session
new_session client endpoint memory = record {
  client = client;
  endpoint = endpoint;
  memory = memory;
  state = record { runtime = start; operations = λ n. (new_operation true operation_send 0, []) };
  made = 0;
  cleanups = λ n. nothing;
  metas = λ n. none;
  board = record {
    stats = record {
      send_posted = 0;
      send_completed = 0;
      send_errored = 0;
      recv_posted = 0;
      recv_matched = 0;
      recv_errored = 0;
    };
    send_handlers = [];
    receive_handlers = [];
    handler_seq = 0;
  };
  delivered = [];
  failure = none;
  issued = [];
}

-- A call of a user, or some rounds of the dispatcher.
pub data Step (k : Setting) (s s' : Session) : Type 0 where
  sends :
      (payload : Slice) (dest : ℕ) (reply : Reply) (ans : Answers)
      → s' ≡ (send_async k payload dest reply ans s).0
      → Step k s s'
  receives :
      (buf : Slice) (reply : Reply) (ans : Answers)
      → s' ≡ (receive_async k buf reply ans s).0
      → Step k s s'
  dispatches :
      (rounds : List Round) (backoff : Option ℕ)
      → s' ≡ (dispatcher k rounds (s, backoff)).0
      → Step k s s'
  hears_sends :
      (handler : ℕ)
      → s' ≡ record s { board = (register_send_handler handler s.board).0 }
      → Step k s s'
  hears_receives :
      (handler : ℕ)
      → s' ≡ record s { board = (register_receive_handler handler s.board).0 }
      → Step k s s'
  drops_sends :
      (key : ℕ) → s' ≡ record s { board = unregister_send_handler key s.board } → Step k s s'
  drops_receives :
      (key : ℕ) → s' ≡ record s { board = unregister_receive_handler key s.board } → Step k s s'
  finds_peer :
      (codes : Codes) (av : Option ℕ) (addr : List ℕ) (buf : ℕ) (status : ℤ) (out : ℕ)
      (set_default : Bool)
      → s'
        ≡ record s { client = (register_peer codes av addr buf status out set_default s.client).0 }
      → Step k s s'
  sets_peer : (addr : ℕ) → s' ≡ record s { client = set_default_peer addr s.client } → Step k s s'

pub data Reach (k : Setting) (s : Session) : Session → Type 0 where
  here : Reach k s s
  next : {u v : Session} → Reach k s u → Step k u v → Reach k s v

pub step-Ledger : (k : Setting) (s s' : Session) → Step k s s' → Ledger s → Ledger s'
unfolding register_send_handler register_receive_handler unregister_send_handler
    unregister_receive_handler
step-Ledger k s s' (sends payload dest reply ans e) v =
    rw e (send_async-Ledger k payload dest reply ans s v)
step-Ledger k s s' (receives buf reply ans e) v = rw e (receive_async-Ledger k buf reply ans s v)
step-Ledger k s s' (dispatches rounds backoff e) v = rw e (dispatcher-Ledger k rounds s backoff v)
step-Ledger k s s' (hears_sends handler e) v =
    rw e (record { books = v.books; carried = v.carried })
step-Ledger k s s' (hears_receives handler e) v =
    rw e (record { books = v.books; carried = v.carried })
step-Ledger k s s' (drops_sends key e) v = rw e (record { books = v.books; carried = v.carried })
step-Ledger k s s' (drops_receives key e) v = rw e (record { books = v.books; carried = v.carried })
step-Ledger k s s' (finds_peer codes av addr buf status out set_default e) v =
    rw e (record { books = v.books; carried = v.carried })
step-Ledger k s s' (sets_peer addr e) v = rw e (record { books = v.books; carried = v.carried })

Reach-Ledger : (k : Setting) (s s' : Session) → Reach k s s' → Ledger s → Ledger s'
Reach-Ledger k s s' here v = v
Reach-Ledger k s s' (next {u} r t) v = step-Ledger k u s' t (Reach-Ledger k s u r v)

new-Books :
    Books
      (record {
        send_posted = 0;
        send_completed = 0;
        send_errored = 0;
        recv_posted = 0;
        recv_matched = 0;
        recv_errored = 0;
      })
      (λ n. (new_operation true operation_send 0, []))
      0
unfolding open_operations
new-Books operation_send = omega arith
new-Books operation_receive = omega arith

pub new-Ledger :
    (client : Client) (endpoint : Endpoint) (memory : Memory)
    → Ledger (new_session client endpoint memory)
unfolding open_operations
new-Ledger client endpoint memory = record {
  books = new-Books;
  carried = λ id n e. absurd (ground (arith, e));
}

-- From a client that is set up, through any calls of sendAsync and ReceiveAsync, any registrations of
-- handlers and peers, and any rounds of the dispatcher, in any order and each as one step: for the sends
-- and for the receives alike, the statistics have counted as many requests as posted as they have as completed or failed, together with
-- the operations of this kind that are made and not completed.
pub Reach-conserved :
    (k : Setting) (client : Client) (endpoint : Endpoint) (memory : Memory) (s : Session)
    → Reach k (new_session client endpoint memory) s
    → (kind : OperationKind)
    → posted_of kind s.board.stats
      ≡ finished_of kind s.board.stats + open_operations kind s.state.operations s.made
Reach-conserved k client endpoint memory s r kind =
    let start = new_session client endpoint memory in
    (Reach-Ledger k start s r (new-Ledger client endpoint memory)).books kind
