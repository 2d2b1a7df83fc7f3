-- ===== src/Fi/Context/Registry.antt =====
-- fi/context.go: what every call on contexts keeps true of the registry and of the log.
use libfabric_go.Base.{
  ℕ, ◌≡◌, ◌<◌, Bool, true, false, ◌&&◌, Option, none, some, [], ◌∷◌, count_if, count_if-append,
  arith, lookup, lookup-insert, lookup-delete, ltb, if◌then◌else◌, Option-cases, inl, inr, ◌⊎◌,
  Bool-cases, ◌==◌, ==_iff, ◌≢◌,
}
use libfabric_go.Fi.Context.Effects.{Slice, is_freed}
use libfabric_go.Fi.Context.Cleanup.{count_freed-release}
use libfabric_go.Fi.Context.{
  Runtime, new_completion_context, set_value, set_copy_back, add_on_complete, add_cleanup,
  release_with, release_effects, resolve_completion, ensure_buffer, freed_bytes, ok, err, sentinel,
  Sentinel,
}

pub record Inv (r : Runtime) : Type 0 where
  -- What is registered is an open context, under its own pointer.
  pub registered :
      (p id : ℕ)
      → lookup p r.registry ≡ some id
      → (id < r.next) × ((r.objects id).ptr ≡ p) × ((r.objects id).closed ≡ false)
  -- Every open context can be found.
  pub findable :
      (id : ℕ)
      → id < r.next
      → (r.objects id).closed ≡ false
      → lookup (r.objects id).ptr r.registry ≡ some id
  pub freed :
      (id : ℕ)
      → count_if (is_freed id) r.log ≡ (if ltb id r.next && (r.objects id).closed then 1 else 0)

pub new-Inv :
    (r : Runtime) (ptr : ℕ)
    → lookup ptr r.registry ≡ none
    → Inv r
    → Inv (new_completion_context ptr r).0
unfolding new_completion_context
new-Inv r ptr h v = record {
  registered = λ p id e. ground (arith, v.registered p id, lookup-insert ptr p r.next r.registry);
  findable = λ id lt e. ground (
    arith,
    v.findable id,
    v.registered ptr id,
    lookup-insert ptr (r.objects id).ptr r.next r.registry,
    lookup-insert ptr ptr r.next r.registry,
  );
  freed = λ id. ground (arith, v.freed id);
}

pub set_value-Inv : (r : Runtime) (id v : ℕ) → Inv r → Inv (set_value id v r)
unfolding set_value
set_value-Inv r id x v = record {
  registered = λ p j e. ground (arith, v.registered p j);
  findable = λ j lt e. ground (arith, v.findable j);
  freed = λ j. ground (arith, v.freed j);
}

pub release_with-Inv :
    (r : Runtime) (run : Bool) (id : ℕ) → id < r.next → Inv r → Inv (release_with run true id r)
unfolding release_with
release_with-Inv r run id h v = record {
  registered = λ p j e. ground (
    arith,
    v.registered p j,
    v.registered p id,
    v.findable id,
    lookup-delete (r.objects id).ptr p r.registry,
  );
  findable = λ j lt e. ground (
    arith,
    v.findable j,
    v.findable id,
    lookup-delete (r.objects id).ptr (r.objects j).ptr r.registry,
  );
  freed = λ j. ground (
    arith,
    v.freed j,
    count_if-append (is_freed j) r.log (release_effects run id (r.objects id)),
    count_freed-release j run id (r.objects id),
  );
}

pub set_copy_back-Inv : (r : Runtime) (id : ℕ) (s : Slice) → Inv r → Inv (set_copy_back id s r)
unfolding set_copy_back
set_copy_back-Inv r id s v = record {
  registered = λ p j e. ground (arith, v.registered p j);
  findable = λ j lt e. ground (arith, v.findable j);
  freed = λ j. ground (arith, v.freed j);
}

pub add_on_complete-Inv :
    (r : Runtime) (id : ℕ) (fn : Option ℕ) → Inv r → Inv (add_on_complete id fn r)
unfolding add_on_complete
add_on_complete-Inv r id none v = v
add_on_complete-Inv r id (some fn) v = record {
  registered = λ p j e. ground (arith, v.registered p j);
  findable = λ j lt e. ground (arith, v.findable j);
  freed = λ j. ground (arith, v.freed j);
}

pub add_cleanup-Inv : (r : Runtime) (id : ℕ) (fn : Option ℕ) → Inv r → Inv (add_cleanup id fn r)
unfolding add_cleanup
add_cleanup-Inv r id none v = v
add_cleanup-Inv r id (some fn) v = record {
  registered = λ p j e. ground (arith, v.registered p j);
  findable = λ j lt e. ground (arith, v.findable j);
  freed = λ j. ground (arith, v.freed j);
}

pub ensure_buffer-Inv :
    (r : Runtime) (id size alloc : ℕ) → Inv r → Inv (ensure_buffer id size alloc r).0
unfolding ensure_buffer
ensure_buffer-Inv r id size alloc v = record {
  registered = λ p j e. ground (arith, v.registered p j);
  findable = λ j lt e. ground (arith, v.findable j);
  freed = λ j. ground (
    arith,
    v.freed j,
    count_if-append (is_freed j) r.log,
    count_if-append (is_freed j) r.log (freed_bytes (r.objects id).buffer ∷ []),
    count_if-append (is_freed j) r.log [],
  );
}

-- Resolving a registered pointer is a release of its context that runs the completion callbacks.
pub resolve-release :
    (r : Runtime) (ptr id : ℕ)
    → Inv r
    → lookup ptr r.registry ≡ some id
    → ptr ≢ 0
    → resolve_completion ptr r ≡ (release_with true true id r, ok id)
unfolding resolve_completion
resolve-release r ptr id v h n = ground (arith, v.registered ptr id)

-- A pointer that is nil or not registered is refused, and nothing changes.
pub resolve_unknown :
    (r : Runtime) (ptr : ℕ)
    → (ptr ≡ 0) ⊎ (lookup ptr r.registry ≡ none)
    → resolve_completion ptr r ≡ (r, err (sentinel Sentinel.context_unknown))
unfolding resolve_completion
resolve_unknown r ptr h = ground arith

pub resolve-Inv : (r : Runtime) (ptr : ℕ) → Inv r → Inv (resolve_completion ptr r).0
resolve-Inv r ptr v = elim (Bool-cases (ptr == 0)) [
  | inl z ↦ rw (resolve_unknown r ptr (inl ((==_iff ptr 0).0 z))) v
  | inr z ↦ elim (Option-cases (lookup ptr r.registry)) [
    | inl e ↦ rw (resolve_unknown r ptr (inr e)) v
    | inr (id, e) ↦
        rw (resolve-release r ptr id v e (ground arith))
          (release_with-Inv r true id (v.registered ptr id e).0 v)
  ]
]

resolve_ok :
    (r : Runtime) (ptr id : ℕ)
    → (resolve_completion ptr r).1 ≡ ok id
    → (ptr ≢ 0) × (lookup ptr r.registry ≡ some id)
unfolding resolve_completion
resolve_ok r ptr id h = ground arith

release_with_forgets :
    (r : Runtime) (ptr id : ℕ) (run : Bool)
    → Inv r
    → lookup ptr r.registry ≡ some id
    → (lookup ptr (release_with run true id r).registry ≡ none)
      × (((release_with run true id r).objects id).closed ≡ true)
unfolding release_with
release_with_forgets r ptr id run v e =
    ground (arith, v.registered ptr id e, lookup-delete (r.objects id).ptr ptr r.registry)

-- In a state with this invariant, a resolve that finds a context closes it, and the next resolve of the
-- same pointer fails with ErrContextUnknown and changes nothing.
pub resolve_twice :
    (r : Runtime) (ptr id : ℕ)
    → Inv r
    → (resolve_completion ptr r).1 ≡ ok id
    → (((resolve_completion ptr r).0.objects id).closed ≡ true)
      × (resolve_completion ptr (resolve_completion ptr r).0
          ≡ ((resolve_completion ptr r).0, err (sentinel Sentinel.context_unknown)))
resolve_twice r ptr id v h =
    let (n, e) = resolve_ok r ptr id h in
    let (gone, shut) = release_with_forgets r ptr id true v e in
    rw (resolve-release r ptr id v e n) (shut, resolve_unknown _ ptr (inr gone))
