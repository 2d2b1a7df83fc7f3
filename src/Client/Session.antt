-- ===== src/Client/Session.antt =====
-- client/client.go: the calls of a client that is set up. A session is the client with the states of the
-- parts that its calls go through: the endpoint, the regions, the contexts with the operations behind the
-- futures, the handlers, and what the dispatcher recorded. A future is the number of its operation.
pub mod Async
pub mod Dispatcher
pub mod Peers
pub mod Lending
pub mod Poison
pub mod Agree
pub mod Lifecycle
pub mod Completion
pub mod Blocking
pub mod Ledger
use libfabric_go.Base.{
  ℕ, suc, Bool, true, false, Option, none, some, List, [], ◌∷◌, ◌++◌, ◌==◌, if◌then◌else◌, String,
}
use libfabric_go.Capi.Errors.{
  GoError, Sentinel, sentinel, message, wrapped, operation_send, operation_receive, OperationKind,
  Result, ok, err,
}
use libfabric_go.Fi.Context.{Runtime, set_value}
use libfabric_go.Fi.Context.Effects.{Slice}
use libfabric_go.Fi.Memory.{Flags, Domain, Memory, close_region}
use libfabric_go.Fi.Pool.{MrPool, Reply, release}
use libfabric_go.Fi.Post.{Endpoint, Answers, Issue, Posted}
use libfabric_go.Fi.Post.Message.{SendRequest, RecvRequest, post_send, post_recv}
use libfabric_go.Client.Setup.Dial.{Client}
use libfabric_go.Client.Prepare.{
  Cleanup, nothing, gives_back, closes_region, prepare_send, prepare_receive,
}
use libfabric_go.Client.Operation.{Operation, OperationResult, Notice, new_operation, complete}
use libfabric_go.Client.Dispatch.{State, update, attach}
use libfabric_go.Client.Emit.{Board, Stats, ReceiveMeta, Delivery, emit}

-- What does not change: the C library's answers to closes, its flags, the client's domain, and MRAccessLocal.
pub record Setting : Type 0 where
  pub closes : ℕ → Option GoError
  pub flags : Flags
  pub domain : Domain
  pub local : ℕ

-- `cleanups` and `metas` hold the release function and the receive's data of each operation, below `made`.
pub record Session : Type 0 where
  pub client : Client
  pub endpoint : Endpoint
  pub memory : Memory
  pub state : State
  pub made : ℕ
  pub cleanups : ℕ → Cleanup
  pub metas : ℕ → Option ReceiveMeta
  pub board : Board
  pub delivered : List Delivery
  pub failure : Option GoError
  pub issued : List Issue

abbrev pub put {ℓ} : {A : Type ℓ} → (ℕ → A) → ℕ → A → ℕ → A
put f n a m = if n == m then a else f m

abbrev pub with_memory : Option MrPool → Memory → Session → Session
with_memory pool h s = record s { client = record s.client { pool = pool }; memory = h }

abbrev pub with_runtime : Runtime → Session → Session
with_runtime r s = record s { state = record s.state { runtime = r } }

-- A release function, run: the pool and the regions.
unfoldable pub run_cleanup :
    (ℕ → Option GoError) → Cleanup → Option MrPool → Memory → Option MrPool × Memory
run_cleanup closes nothing pool h = (pool, h)
run_cleanup closes (gives_back id) none h = (none, h)
run_cleanup closes (gives_back id) (some p) h = let r = release closes p id h in (some r.0, r.1)
run_cleanup closes (closes_region id) pool h = (pool, (close_region closes id h).0)

abbrev pub cleaned : Setting → Cleanup → Session → Session
cleaned k c s = let r = run_cleanup k.closes c s.client.pool s.memory in with_memory r.0 r.1 s

-- What a first completion does: the statistics and handlers, the release function, the operation.
unfoldable pub finish_first : Setting → ℕ → OperationResult → Session → Session
unfolding run_cleanup emit complete
finish_first k n res s =
    let told = emit (s.state.operations n).0.kind (s.metas n) res s.board in
    cleaned k (s.cleanups n) (record s {
      board = told.0;
      delivered = s.delivered ++ told.1;
      state = record s.state {
        operations = update s.state.operations n (complete res (s.state.operations n));
      };
    })

-- `op.complete(res)` of operation `n`.
unfoldable pub finish : Setting → ℕ → OperationResult → Session → Session
finish k n res s = if (s.state.operations n).0.fired then s else finish_first k n res s

abbrev pub release_of : Cleanup → ℕ → Option ℕ
release_of nothing n = none
release_of (gives_back id) n = some n
release_of (closes_region id) n = some n

-- A new operation with its release function, behind the last one; a closure is named by the operation.
unfoldable pub add_operation : OperationKind → ℕ → Cleanup → Option ReceiveMeta → Session → Session
unfolding new_operation
add_operation kind size c meta s = record s {
  state = record s.state {
    operations =
        update s.state.operations s.made
          (record (new_operation true kind size) { release = release_of c s.made }, []);
  };
  made = suc s.made;
  cleanups = put s.cleanups s.made c;
  metas = put s.metas s.made meta;
}

abbrev pub count_posted : OperationKind → Stats → Stats
count_posted operation_send t = record t { send_posted = suc t.send_posted }
count_posted operation_receive t = record t { recv_posted = suc t.recv_posted }

unfoldable pub posted_one : OperationKind → Session → Session
posted_one kind s = record s { board = record s.board { stats = count_posted kind s.board.stats } }
