-- ===== src/Fi/Context/History.antt =====
-- fi/context.go: the registry across any sequence of calls on contexts.
use libfabric_go.Base.{ℕ, ◌≡◌, ◌<◌, true, false, Option, none, List, [], ◌∷◌, arith, lookup}
use libfabric_go.Fi.Context.Effects.{Slice}
use libfabric_go.Fi.Context.{
  Runtime, new_completion_context, set_value, set_copy_back, add_on_complete, add_cleanup, release,
  resolve_completion, ensure_buffer, fresh_context,
}
use libfabric_go.Fi.Context.Registry.{
  Inv, new-Inv, set_value-Inv, release_with-Inv, set_copy_back-Inv, add_on_complete-Inv,
  add_cleanup-Inv, ensure_buffer-Inv, resolve-Inv,
}

-- The calls that other code makes on contexts, with the pointers that the C library returns.
pub data Call : Type 0 where
  create : ℕ → Call
  set_val : ℕ → ℕ → Call
  set_copy : ℕ → Slice → Call
  on_complete : ℕ → Option ℕ → Call
  cleanup : ℕ → Option ℕ → Call
  free : ℕ → Call
  resolve : ℕ → Call
  buffer : ℕ → ℕ → ℕ → Call

unfoldable pub step : Runtime → Call → Runtime
step r (create ptr) = (new_completion_context ptr r).0
step r (set_val id v) = set_value id v r
step r (set_copy id s) = set_copy_back id s r
step r (on_complete id fn) = add_on_complete id fn r
step r (cleanup id fn) = add_cleanup id fn r
step r (free id) = release id r
step r (resolve ptr) = (resolve_completion ptr r).0
step r (buffer id size alloc) = (ensure_buffer id size alloc r).0

unfoldable pub run : Runtime → List Call → Runtime
run r [] = r
run r (c ∷ cs) = run (step r c) cs

-- The callers hold contexts that exist, and the C allocator returns no context that is still in use.
abbrev pub Allowed : Runtime → Call → Type 0
Allowed r (create ptr) = lookup ptr r.registry ≡ none
Allowed r (set_val id v) = id < r.next
Allowed r (set_copy id s) = id < r.next
Allowed r (on_complete id fn) = id < r.next
Allowed r (cleanup id fn) = id < r.next
Allowed r (free id) = id < r.next
Allowed r (resolve ptr) = Unit {0}
Allowed r (buffer id size alloc) = id < r.next

abbrev pub AllAllowed : Runtime → List Call → Type 0
AllAllowed r [] = Unit {0}
AllAllowed r (c ∷ cs) = Allowed r c × AllAllowed (step r c) cs

step-Inv : (r : Runtime) (c : Call) → Allowed r c → Inv r → Inv (step r c)
unfolding step release
step-Inv r (create ptr) h v = new-Inv r ptr h v
step-Inv r (set_val id x) h v = set_value-Inv r id x v
step-Inv r (set_copy id s) h v = set_copy_back-Inv r id s v
step-Inv r (on_complete id fn) h v = add_on_complete-Inv r id fn v
step-Inv r (cleanup id fn) h v = add_cleanup-Inv r id fn v
step-Inv r (free id) h v = release_with-Inv r false id h v
step-Inv r (resolve ptr) h v = resolve-Inv r ptr v
step-Inv r (buffer id size alloc) h v = ensure_buffer-Inv r id size alloc v

run_from-Inv : (r : Runtime) (cs : List Call) → AllAllowed r cs → Inv r → Inv (run r cs)
unfolding run
run_from-Inv r [] h v = v
run_from-Inv r (c ∷ cs) h v = run_from-Inv (step r c) cs h.1 (step-Inv r c h.0 v)

-- No context yet.
abbrev pub start : Runtime
start = record {
  registry = [];
  objects = λ id. record (fresh_context 0) { closed = true };
  next = 0;
  log = [];
}

pub start-Inv : Inv start
unfolding lookup
start-Inv = record {
  registered = λ p id e. ground arith;
  findable = λ id lt e. ground arith;
  freed = λ id. ground arith;
}

-- After any sequence of calls in which the C allocator returns no context still in use: a context is
-- found by its pointer exactly while it is open, and its C context has been freed exactly once if it is
-- closed, and never if it is open.
pub run-Inv : (cs : List Call) → AllAllowed start cs → Inv (run start cs)
run-Inv cs h = run_from-Inv start cs h start-Inv
