-- ===== src/Client/Telemetry/Attached.antt =====
-- client/client.go: the operations that contexts carry, over a completion.
use libfabric_go.Fi.Context.{resolve_completion, Runtime, release_with}
use libfabric_go.Client.Session.{Session, finish, finish_first, Setting}
use libfabric_go.Capi.Errors.{GoError, err, ok}
use libfabric_go.Client.Operation.{OperationResult}
use libfabric_go.Client.Emit.{emit}
use libfabric_go.Client.Telemetry.{GoError}
use libfabric_go.Base.{
  ◌≡◌, refl, lookup, lookup-delete, arith, some, ℕ, none, false, if◌then◌else◌, ◌==◌, ◌≢◌, ◌∙◌,
}

-- The operations that registered contexts carry are not completed, and each is carried by one.
pub record Attached (s : Session) : Type 0 where
  pub waits :
      (ptr id n : ℕ)
      → lookup ptr s.state.runtime.registry ≡ some id
      → (s.state.runtime.objects id).value ≡ some n
      → (s.state.operations n).0.fired ≡ false
  pub own :
      (ptr other id j n : ℕ)
      → lookup ptr s.state.runtime.registry ≡ some id
      → lookup other s.state.runtime.registry ≡ some j
      → (s.state.runtime.objects id).value ≡ some n
      → (s.state.runtime.objects j).value ≡ some n
      → ptr ≡ other

pub resolve_refused :
    (ptr : ℕ) (r r' : Runtime) (e : GoError) → resolve_completion ptr r ≡ (r', err e) → r' ≡ r
unfolding resolve_completion
resolve_refused ptr r r' e h = ground (arith, h)

pub resolve_ptr :
    (ptr id : ℕ) (r r' : Runtime)
    → resolve_completion ptr r ≡ (r', ok id)
    → lookup ptr r.registry ≡ some id
unfolding resolve_completion
resolve_ptr ptr id r r' h = ground (arith, h)

resolve_registry :
    (ptr id other : ℕ) (r r' : Runtime)
    → resolve_completion ptr r ≡ (r', ok id)
    → lookup other r'.registry ≡ (if ptr == other then none else lookup other r.registry)
unfolding resolve_completion release_with
resolve_registry ptr id other r r' h = ground (arith, h, lookup-delete ptr other r.registry)

pub resolve_value :
    (ptr id j : ℕ) (r r' : Runtime)
    → resolve_completion ptr r ≡ (r', ok id)
    → (r'.objects j).value ≡ (r.objects j).value
unfolding resolve_completion release_with
resolve_value ptr id j r r' h = ground (arith, h)

-- A registered context after a resolve was registered before, under another pointer than the resolved one.
still_registered :
    (ptr id other j : ℕ) (r r' : Runtime)
    → resolve_completion ptr r ≡ (r', ok id)
    → lookup other r'.registry ≡ some j
    → (ptr ≢ other) × (lookup other r.registry ≡ some j)
still_registered ptr id other j r r' h l = (
  ground (arith, resolve_registry ptr id other r r' h),
  ground (arith, resolve_registry ptr id other r r' h),
)

-- What a resolve and the completion of its operation leave.
pub Attached-resolved :
    (s s' : Session) (ptr id : ℕ) (r : Runtime)
    → Attached s
    → resolve_completion ptr s.state.runtime ≡ (r, ok id)
    → s'.state.runtime ≡ r
    → ((m : ℕ)
        → (r.objects id).value ≢ some m
        → (s'.state.operations m).0.fired ≡ (s.state.operations m).0.fired)
    → Attached s'
Attached-resolved s s' ptr id r v h e same = record {
  waits = λ p j m l w.
      let (ne, l') = still_registered ptr id p j s.state.runtime r h (rw (← e) l) in
      let w' : (s.state.runtime.objects j).value ≡ some m =
        ground (arith, e, w, resolve_value ptr id j s.state.runtime r h) in
      let other : (r.objects id).value ≢ some m = λ u. ne (
        v.own ptr p id j m (resolve_ptr ptr id s.state.runtime r h) l'
          (ground (arith, u, resolve_value ptr id id s.state.runtime r h)) w') in
      same m other ∙ v.waits p j m l' w';
  own = λ p q i j m l lq w wq.
      let (ne, l') = still_registered ptr id p i s.state.runtime r h (rw (← e) l) in
      let (neq, lq') = still_registered ptr id q j s.state.runtime r h (rw (← e) lq) in
      v.own p q i j m l' lq' (ground (arith, e, w, resolve_value ptr id i s.state.runtime r h))
        (ground (arith, e, wq, resolve_value ptr id j s.state.runtime r h));
}

pub finish-board :
    (k : Setting) (n : ℕ) (res : OperationResult) (s : Session)
    → (s.state.operations n).0.fired ≡ false
    → (finish k n res s).board.stats
      ≡ (emit (s.state.operations n).0.kind (s.metas n) res s.board).0.stats
unfolding finish finish_first
finish-board k n res s f = rw f refl

pub finish-runtime :
    (k : Setting) (n : ℕ) (res : OperationResult) (s : Session)
    → (finish k n res s).state.runtime ≡ s.state.runtime
unfolding finish finish_first
finish-runtime k n res s = ground arith

pub finish-others :
    (k : Setting) (n m : ℕ) (res : OperationResult) (s : Session)
    → n ≢ m
    → (finish k n res s).state.operations m ≡ s.state.operations m
unfolding finish finish_first
finish-others k n m res s d = ground arith
