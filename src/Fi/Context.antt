-- ===== src/Fi/Context.antt =====
-- fi/context.go: completion contexts, the registry that finds them by their C pointer, and what a
-- release does. A pointer is a number, nil is 0; a Go function is the number of a closure, and what
-- runs, is copied or is freed is recorded in `log`. The memory of the C library is a parameter: the
-- pointer that an allocation returns is an argument. Callbacks do not re-enter the context.
pub mod Effects
pub mod Registry
pub mod Cleanup
pub mod History
use libfabric_go.Base.{
  ℕ, suc, ◌+◌, Bool, true, false, not, ◌&&◌, Option, none, some, List, [], ◌∷◌, ◌++◌, ◌==◌, leb,
  if◌then◌else◌, lookup, insert, delete, length, is_some,
}
use libfabric_go.Capi.Errors.{GoError, Sentinel, sentinel, message, Result, ok, err}
use Effects.{
  Slice, Effect, ran_complete, copied_back, freed_bytes, freed_context, run_completions,
  run_cleanups,
}

-- `value` is the number of the attached value.
pub record Context : Type 0 where
  pub ptr : ℕ
  pub value : Option ℕ
  pub on_complete : List ℕ
  pub cleanups : List ℕ
  pub buffer : ℕ
  pub buf_cap : ℕ
  pub closed : Bool
  pub copy_back : Option Slice

-- `objects` holds the contexts that `NewCompletionContext` made, by number, below `next`.
pub record Runtime : Type 0 where
  pub registry : List (ℕ × ℕ)
  pub objects : ℕ → Context
  pub next : ℕ
  pub log : List Effect

abbrev pub fresh_context : ℕ → Context
fresh_context ptr = record {
  ptr = ptr;
  value = none;
  on_complete = [];
  cleanups = [];
  buffer = 0;
  buf_cap = 0;
  closed = false;
  copy_back = none;
}

abbrev pub update : (ℕ → Context) → ℕ → Context → ℕ → Context
update objects id c j = if id == j then c else objects j

abbrev pub store : ℕ → Context → Runtime → Runtime
store id c r = record r { objects = update r.objects id c }

-- `ptr` is what `fi_context` allocation returned.
unfoldable pub new_completion_context : ℕ → Runtime → Runtime × Result ℕ
new_completion_context ptr r =
    if ptr == 0 then (r, err (message "libfabric: unable to allocate completion context")) else (
      record r {
        registry = insert ptr r.next r.registry;
        objects = update r.objects r.next (fresh_context ptr);
        next = suc r.next;
      },
      ok r.next,
    )

unfoldable pub set_value : ℕ → ℕ → Runtime → Runtime
set_value id v r = let c = r.objects id in store id (record c { value = some v }) r

unfoldable pub set_copy_back : ℕ → Slice → Runtime → Runtime
set_copy_back id s r = let c = r.objects id in store id (record c { copy_back = some s }) r

-- A nil function is `none`.
unfoldable pub add_on_complete : ℕ → Option ℕ → Runtime → Runtime
add_on_complete id none r = r
add_on_complete id (some fn) r =
    let c = r.objects id in store id (record c { on_complete = c.on_complete ++ fn ∷ [] }) r

unfoldable pub add_cleanup : ℕ → Option ℕ → Runtime → Runtime
add_cleanup id none r = r
add_cleanup id (some fn) r =
    let c = r.objects id in store id (record c { cleanups = c.cleanups ++ fn ∷ [] }) r

unfoldable pub is_released : ℕ → Runtime → Bool
is_released id r = (r.objects id).closed

-- The copy back into the caller's slice, when there are both a slice and a buffer.
abbrev pub copy_effects : Context → List Effect
copy_effects c = elim c.copy_back [
  | none ↦ []
  | some s ↦ if c.buffer == 0 then [] else copied_back s c.buffer ∷ []
]

abbrev pub free_effects : Context → List Effect
free_effects c = if c.buffer == 0 then [] else freed_bytes c.buffer ∷ []

-- The body of `release` behind the guard, in its order.
unfoldable pub release_effects : Bool → ℕ → Context → List Effect
release_effects run_complete id c =
    (if run_complete then run_completions id c.on_complete else [])
    ++ (copy_effects c
        ++ (free_effects c
            ++ (run_cleanups (length c.cleanups) c.cleanups ++ freed_context id c.ptr ∷ [])))

abbrev pub emptied : Context → Context
emptied c = record c {
  on_complete = [];
  cleanups = [];
  buffer = 0;
  buf_cap = 0;
  closed = true;
  copy_back = none;
}

-- `c.release(runComplete, remove)`.
unfoldable pub release_with : Bool → Bool → ℕ → Runtime → Runtime
release_with run_complete remove id r =
    let c = r.objects id in
    if c.closed then r else record r {
      registry = if remove then delete c.ptr r.registry else r.registry;
      objects = update r.objects id (emptied c);
      log = r.log ++ release_effects run_complete id c;
    }

unfoldable pub release : ℕ → Runtime → Runtime
unfolding release_with
release id r = release_with false true id r

-- `LoadAndDelete` and a release that runs the completion callbacks.
unfoldable pub resolve_completion : ℕ → Runtime → Runtime × Result ℕ
unfolding release_with
resolve_completion ptr r =
    if ptr == 0
    then (r, err (sentinel Sentinel.context_unknown))
    else elim (lookup ptr r.registry) [
      | none ↦ (r, err (sentinel Sentinel.context_unknown))
      | some id ↦
          (release_with true false id (record r { registry = delete ptr r.registry }), ok id)
    ]

-- `alloc` is the pointer that `AllocBytes` returns if it is called. A nil result stands for (nil, nil).
unfoldable pub ensure_buffer : ℕ → ℕ → ℕ → Runtime → Runtime × Result ℕ
ensure_buffer id size alloc r =
    let c = r.objects id in
    let freed = if c.buffer == 0 then [] else freed_bytes c.buffer ∷ [] in
    if size == 0
    then (r, ok 0)
    else if not (c.buffer == 0) && leb size c.buf_cap
    then (r, ok c.buffer)
    else if alloc == 0
    then (
      record r {
        objects = update r.objects id (record c { buffer = 0; buf_cap = 0 });
        log = r.log ++ freed;
      },
      err (message "libfabric: unable to allocate context buffer"),
    )
    else (
      record r {
        objects = update r.objects id (record c { buffer = alloc; buf_cap = size });
        log = r.log ++ freed;
      },
      ok alloc,
    )
