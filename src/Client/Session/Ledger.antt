-- ===== src/Client/Session/Ledger.antt =====
-- client/client.go: the statistics of a session against its operations.
pub mod Steps
pub mod Rounds
pub mod History
use libfabric_go.Fi.Context.{Runtime}
use libfabric_go.Base.{
  ℕ, zero, suc, ◌+◌, ◌<◌, ◌≡◌, refl, Bool, true, false, not, ◌&&◌, some, List, arith, ◌==◌,
  if◌then◌else◌, ◌≤◌, Bool-cases, inl, inr, ==_refl, Option, none,
}
use libfabric_go.Capi.Errors.{OperationKind, operation_send, operation_receive, GoError}
use libfabric_go.Client.Operation.{Operation, Notice, OperationResult}
use libfabric_go.Client.Dispatch.{update}
use libfabric_go.Client.Emit.{Stats, emit, ReceiveMeta, Board}
use libfabric_go.Client.Session.{Session, Runtime, count_posted}

abbrev pub same_kind : OperationKind → OperationKind → Bool
same_kind operation_send operation_send = true
same_kind operation_send operation_receive = false
same_kind operation_receive operation_send = false
same_kind operation_receive operation_receive = true

-- Whether an operation of the kind is yet to be completed.
abbrev pub is_open : OperationKind → Operation → Bool
is_open kind op = same_kind kind op.kind && not op.fired

-- How many of the operations below a number are.
unfoldable pub open_operations : OperationKind → (ℕ → Operation × List Notice) → ℕ → ℕ
open_operations kind operations zero = 0
open_operations kind operations (suc n) =
    let below = open_operations kind operations n in
    if is_open kind (operations n).0 then suc below else below

abbrev one : OperationKind → Operation → ℕ
one kind op = if is_open kind op then 1 else 0

open_operations-above :
    (kind : OperationKind) (operations : ℕ → Operation × List Notice) (m n : ℕ)
    (o : Operation × List Notice)
    → n ≤ m
    → open_operations kind (update operations m o) n ≡ open_operations kind operations n
unfolding open_operations
open_operations-above kind operations m zero o h = refl
open_operations-above kind operations m (suc n) o h =
    let below = open_operations-above kind operations m n o (omega (arith, h)) in
    let other : (m == n) ≡ false = ground (arith, h) in rw (other, below) refl

open_operations-update :
    (kind : OperationKind) (operations : ℕ → Operation × List Notice) (m n : ℕ)
    (o : Operation × List Notice)
    → m < n
    → open_operations kind (update operations m o) n + one kind (operations m).0
      ≡ open_operations kind operations n + one kind o.0
unfolding open_operations
open_operations-update kind operations m zero o h = absurd (omega (arith, h))
open_operations-update kind operations m (suc n) o h = elim (Bool-cases (m == n)) [
  | inl e ↦
      let same : m ≡ n = ground (arith, e) in
      let below = open_operations-above kind operations m n o (omega (arith, same)) in
      rw (e, below, same) (ground arith)
  | inr e ↦
      let below = open_operations-update kind operations m n o (ground (arith, h, e)) in
      rw e (ground (arith, below))
]

-- The requests of a kind that were posted, and those that a completion was counted for.
abbrev pub posted_of : OperationKind → Stats → ℕ
posted_of operation_send t = t.send_posted
posted_of operation_receive t = t.recv_posted

abbrev pub finished_of : OperationKind → Stats → ℕ
finished_of operation_send t = t.send_completed + t.send_errored
finished_of operation_receive t = t.recv_matched + t.recv_errored

-- Each request that was posted has been counted as finished, or its operation is open.
abbrev pub Books : Stats → (ℕ → Operation × List Notice) → ℕ → Type 0
Books t operations made =
    (kind : OperationKind)
    → posted_of kind t ≡ finished_of kind t + open_operations kind operations made

-- The values of contexts are operations below a number.
abbrev pub Carried : Runtime → ℕ → Type 0
Carried r made = (id n : ℕ) → (r.objects id).value ≡ some n → n < made

pub record Ledger (s : Session) : Type 0 where
  pub books : Books s.board.stats s.state.operations s.made
  pub carried : Carried s.state.runtime s.made

open_operations-new :
    (kind : OperationKind) (operations : ℕ → Operation × List Notice) (made : ℕ)
    (o : Operation × List Notice)
    → open_operations kind (update operations made o) (suc made)
      ≡ one kind o.0 + open_operations kind operations made
unfolding open_operations
open_operations-new kind operations made o =
    let below = open_operations-above kind operations made made o (omega arith) in
    ground (arith, ==_refl made, below)

-- One more of a kind.
counted :
    (kind other : OperationKind) (t : Stats) (n : ℕ)
    → posted_of other t ≡ finished_of other t + n
    → posted_of other (count_posted kind t)
      ≡ finished_of other (count_posted kind t)
        + ((if same_kind other kind && true then 1 else 0) + n)
counted operation_send operation_send t n h = omega (arith, h)
counted operation_send operation_receive t n h = omega (arith, h)
counted operation_receive operation_send t n h = omega (arith, h)
counted operation_receive operation_receive t n h = omega (arith, h)

-- A new operation.
pub posted-Books :
    (kind : OperationKind) (t : Stats) (operations : ℕ → Operation × List Notice) (made : ℕ)
    (o : Operation × List Notice)
    → o.0.kind ≡ kind
    → o.0.fired ≡ false
    → Books t operations made
    → Books (count_posted kind t) (update operations made o) (suc made)
posted-Books kind t operations made o e f b other =
    rw (open_operations-new other operations made o, e, f)
      (counted kind other t (open_operations other operations made) (b other))

emitted :
    (kind other : OperationKind) (meta : Option ReceiveMeta) (size : ℕ) (e : Option GoError)
    (b : Board) (n n' : ℕ)
    → posted_of other b.stats ≡ finished_of other b.stats + n
    → n' + (if same_kind other kind then 1 else 0) ≡ n
    → posted_of other (emit kind meta (record { length = size; error = e }) b).0.stats
      ≡ finished_of other (emit kind meta (record { length = size; error = e }) b).0.stats + n'
unfolding emit
emitted operation_send operation_send meta size none b n n' h g = omega (arith, h, g)
emitted operation_send operation_send meta size (some e) b n n' h g = omega (arith, h, g)
emitted operation_send operation_receive meta size none b n n' h g = omega (arith, h, g)
emitted operation_send operation_receive meta size (some e) b n n' h g = omega (arith, h, g)
emitted operation_receive operation_send meta size none b n n' h g = omega (arith, h, g)
emitted operation_receive operation_send meta size (some e) b n n' h g = omega (arith, h, g)
emitted operation_receive operation_receive meta size none b n n' h g = omega (arith, h, g)
emitted operation_receive operation_receive meta size (some e) b n n' h g = omega (arith, h, g)

-- The first completion of an operation.
pub emitted-Books :
    (kind : OperationKind) (meta : Option ReceiveMeta) (res : OperationResult) (b : Board)
    (operations : ℕ → Operation × List Notice) (m made : ℕ) (o : Operation × List Notice)
    → m < made
    → (operations m).0.kind ≡ kind
    → (operations m).0.fired ≡ false
    → o.0.fired ≡ true
    → Books b.stats operations made
    → Books (emit kind meta res b).0.stats (update operations m o) made
emitted-Books kind meta res b operations m made o h e f g v other =
    let after = open_operations-update other operations m made o h in
    let one_less : open_operations other (update operations m o) made
          + (if same_kind other kind then 1 else 0)
        ≡ open_operations other operations made =
      ground (arith, after, e, f, g) in
    emitted kind other meta res.length res.error b (open_operations other operations made)
      (open_operations other (update operations m o) made) (v other) one_less
