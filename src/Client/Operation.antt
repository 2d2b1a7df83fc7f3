-- ===== src/Client/Operation.antt =====
-- client/client.go: the operation behind a future, its completion, its callbacks, and Await. A callback
-- or a release function is the number of a closure; what ran or was started is a list of notices.
-- `complete` is a step under the mutex and one behind it, run one after the other; an `addCallback` that comes
-- between them is the subject of a lemma of the child module. A nil future is not modelled.
pub mod Once
use libfabric_go.Base.{
  ℕ, Bool, true, false, Option, none, some, List, [], ◌∷◌, ◌++◌, map, if◌then◌else◌,
}
use libfabric_go.Capi.Errors.{GoError, OperationKind}

pub record OperationResult : Type 0 where
  pub length : ℕ
  pub error : Option GoError

-- `emitted` is the call of the client's `emit`, `started` is `go cb(res)`.
pub data Notice : Type 0 where
  emitted : OperationResult → Notice
  ran_release : ℕ → Notice
  started : ℕ → OperationResult → Notice

-- `fired` is the state of the `sync.Once`, `done` tells whether the channel is closed.
pub record Operation : Type 0 where
  pub has_client : Bool
  pub kind : OperationKind
  pub size : ℕ
  pub release : Option ℕ
  pub fired : Bool
  pub completed : Bool
  pub done : Bool
  pub result : OperationResult
  pub callbacks : List ℕ

unfoldable pub new_operation : Bool → OperationKind → ℕ → Operation
new_operation has_client kind size = record {
  has_client = has_client;
  kind = kind;
  size = size;
  release = none;
  fired = false;
  completed = false;
  done = false;
  result = record { length = 0; error = none };
  callbacks = [];
}

abbrev pub emits : Operation → OperationResult → List Notice
emits op res = if op.has_client then emitted res ∷ [] else []

abbrev pub releases : Operation → List Notice
releases op = elim op.release [ none ↦ [] | some fn ↦ ran_release fn ∷ [] ]

-- `for _, cb := range callbacks { go cb(res) }`
unfoldable pub start_all : OperationResult → List ℕ → List Notice
start_all res [] = []
start_all res (cb ∷ cbs) = started cb res ∷ start_all res cbs

-- What `complete` does under the operation's mutex, and behind it with the callbacks that it took there.
abbrev pub settle : OperationResult → Operation → Operation
settle res op = record op { fired = true; completed = true; result = res; callbacks = [] }

unfoldable pub announce :
    OperationResult → List ℕ → Operation × List Notice → Operation × List Notice
unfolding start_all
announce res callbacks (op, log) =
    (record op { done = true }, log ++ (emits op res ++ (releases op ++ start_all res callbacks)))

unfoldable pub complete : OperationResult → Operation × List Notice → Operation × List Notice
unfolding announce
complete res (op, log) =
    if op.fired then (op, log) else announce res op.callbacks (settle res op, log)

-- A nil callback is `none`.
unfoldable pub add_callback : Option ℕ → Operation × List Notice → Operation × List Notice
add_callback none (op, log) = (op, log)
add_callback (some cb) (op, log) =
    if op.completed
    then (op, log ++ started cb op.result ∷ [])
    else (record op { callbacks = op.callbacks ++ cb ∷ [] }, log)

-- What `Await` returns, none while it blocks; `cancelled` is the error of a context that is done.
unfoldable pub await : Option GoError → Operation → Option OperationResult
await none op = if op.done then some op.result else none
await (some e) op = if op.done then some op.result else some (record { length = 0; error = some e })
