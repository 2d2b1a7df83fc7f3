-- ===== src/Fi/Wait/Found.antt =====
-- fi/wait.go: when a wait finds its completion.
use libfabric_go.Base.{
  lookup-delete, ℕ, ◌≡◌, ◌≢◌, inl, inr, Bool, true, false, some, List, [], ◌∷◌, ◌++◌, ◌==◌, ==_iff,
  ==_refl, arith, lookup, Bool-cases, refl, ap,
}
use libfabric_go.Base.Int.{ℤ}
use libfabric_go.Capi.Errors.{GoError, Sentinel, is_sentinel, Result, ok, err}
use libfabric_go.Fi.Context.{Runtime, resolve_completion, release_with}
use libfabric_go.Fi.Context.Registry.{Inv, resolve-release, resolve-Inv, resolve_twice}
use libfabric_go.Fi.Wait.{
  Poll, cancels, reads, Waited, waiting, found, fails, gives_up, on_resolved, wait_loop,
}

-- A wait that finds something leaves its target closed.
abbrev pub Found : ℕ → Runtime × Waited → Type 0
Found target (r, found ptr) = (r.objects target).closed ≡ true
Found target (r, waiting) = Unit {0}
Found target (r, fails e) = Unit {0}
Found target (r, Waited.nothing) = Unit {0}

resolve_closes :
    (r : Runtime) (ptr id : ℕ)
    → Inv r
    → (resolve_completion ptr r).1 ≡ ok id
    → ((resolve_completion ptr r).0.objects id).closed ≡ true
resolve_closes r ptr id v e = (resolve_twice r ptr id v e).0

on_resolved-Found :
    (target ptr : ℕ) (o : Runtime × Result ℕ) (rest : Runtime × Waited)
    → Inv o.0
    → (o.1 ≡ ok target → (o.0.objects target).closed ≡ true)
    → Inv rest.0 × Found target rest
    → Inv (on_resolved target ptr o rest).0 × Found target (on_resolved target ptr o rest)
unfolding on_resolved
on_resolved-Found target ptr (r', ok id) rest w c s = elim (Bool-cases (id == target)) [
  | inl x ↦ rw x (w, c (ap (λ j. ok j) ((==_iff id target).0 x)))
  | inr x ↦ rw x s
]
on_resolved-Found target ptr (r', err e) rest w c s =
    elim (Bool-cases (is_sentinel Sentinel.context_unknown e)) [
      | inl x ↦ rw x s
      | inr x ↦ rw x (w, tt)
    ]

-- From a state with the registry invariant, and whatever happens in the rounds: the invariant holds at
-- the end, and if the wait finds its completion, the target is closed.
pub wait_loop-Found :
    (timeout : ℤ) (target : ℕ) (r : Runtime) (polls : List Poll)
    → Inv r
    → Inv (wait_loop timeout target r polls).0 × Found target (wait_loop timeout target r polls)
unfolding wait_loop
wait_loop-Found timeout target r [] v = (v, tt)
wait_loop-Found timeout target r (cancels e ∷ polls) v = (v, tt)
wait_loop-Found timeout target r (reads (err e) expired ∷ polls) v =
    elim (Bool-cases (is_sentinel Sentinel.no_completion e)) [
      | inr x ↦ rw x (v, tt)
      | inl x ↦ elim (Bool-cases (gives_up timeout expired)) [
        | inl y ↦ rw (x, y) (v, tt)
        | inr y ↦ rw (x, y) (wait_loop-Found timeout target r polls v)
      ]
    ]
wait_loop-Found timeout target r (reads (ok ptr) expired ∷ polls) v =
    on_resolved-Found target ptr (resolve_completion ptr r)
      (wait_loop timeout target (resolve_completion ptr r).0 polls) (resolve-Inv r ptr v)
      (resolve_closes r ptr target v)
      (wait_loop-Found timeout target (resolve_completion ptr r).0 polls (resolve-Inv r ptr v))

-- A pointer that resolves to a context resolves to an open one.
resolve_open :
    (r : Runtime) (ptr id : ℕ)
    → Inv r
    → (resolve_completion ptr r).1 ≡ ok id
    → (r.objects id).closed ≡ false
unfolding resolve_completion
resolve_open r ptr id v e = ground (arith, v.registered ptr id)

-- A closed context stays closed.
resolve_keeps_closed :
    (r : Runtime) (ptr id : ℕ)
    → (r.objects id).closed ≡ true
    → ((resolve_completion ptr r).0.objects id).closed ≡ true
unfolding resolve_completion release_with
resolve_keeps_closed r ptr id c = ground arith

on_resolved_closed :
    (target p ptr : ℕ) (o : Runtime × Result ℕ) (rest : Runtime × Waited)
    → o.1 ≢ ok target
    → rest.1 ≢ found ptr
    → (on_resolved target p o rest).1 ≢ found ptr
unfolding on_resolved
on_resolved_closed target p ptr (r, ok id) rest n s e = ground arith
on_resolved_closed target p ptr (r, err x) rest n s e = ground arith

-- A wait for a context that has been resolved or released, by whomever, never finds a completion: from a
-- state with the registry invariant, whatever happens in the rounds.
pub wait_loop_closed :
    (timeout : ℤ) (target : ℕ) (r : Runtime) (polls : List Poll) (ptr : ℕ)
    → Inv r
    → (r.objects target).closed ≡ true
    → (wait_loop timeout target r polls).1 ≢ found ptr
unfolding wait_loop
wait_loop_closed timeout target r [] ptr v c e = ground arith
wait_loop_closed timeout target r (cancels x ∷ polls) ptr v c e = ground arith
wait_loop_closed timeout target r (reads (err x) expired ∷ polls) ptr v c e =
    ground (arith, wait_loop_closed timeout target r polls ptr v c)
wait_loop_closed timeout target r (reads (ok p) expired ∷ polls) ptr v c e =
    on_resolved_closed target p ptr (resolve_completion p r)
      (wait_loop timeout target (resolve_completion p r).0 polls)
      (λ x. ground (arith, resolve_open r p target v x))
      (wait_loop_closed timeout target (resolve_completion p r).0 polls ptr (resolve-Inv r p v)
        (resolve_keeps_closed r p target c))
      e

-- A round that a wait for `ptr` goes on from: an empty queue before the deadline, or a completion of some
-- other pointer.
abbrev pub Passes : ℤ → ℕ → Poll → Type 0
Passes timeout ptr (cancels e) = ⊥
Passes timeout ptr (reads (err e) expired) =
    (is_sentinel Sentinel.no_completion e ≡ true) × (gives_up timeout expired ≡ false)
Passes timeout ptr (reads (ok p) expired) = p ≢ ptr

abbrev pub AllPass : ℤ → ℕ → List Poll → Type 0
AllPass timeout ptr [] = Unit {0}
AllPass timeout ptr (p ∷ polls) = Passes timeout ptr p × AllPass timeout ptr polls

resolve_other :
    (r : Runtime) (p ptr target : ℕ)
    → Inv r
    → p ≢ ptr
    → lookup ptr r.registry ≡ some target
    → ((resolve_completion p r).1 ≢ ok target)
      × (lookup ptr (resolve_completion p r).0.registry ≡ some target)
      × ((e : GoError)
          → (resolve_completion p r).1 ≡ err e
          → is_sentinel Sentinel.context_unknown e ≡ true)
unfolding resolve_completion release_with is_sentinel
resolve_other r p ptr target v n l = (
  λ e. ground (arith, v.registered p target, v.registered ptr target),
  ground (arith, lookup-delete p ptr r.registry),
  λ e h. ground arith,
)

on_resolved_passes :
    (target p ptr : ℕ) (o : Runtime × Result ℕ) (rest : Runtime × Waited)
    → o.1 ≢ ok target
    → ((e : GoError) → o.1 ≡ err e → is_sentinel Sentinel.context_unknown e ≡ true)
    → rest.1 ≡ found ptr
    → (on_resolved target p o rest).1 ≡ found ptr
unfolding on_resolved
on_resolved_passes target p ptr (r, ok id) rest n u s = ground arith
on_resolved_passes target p ptr (r, err x) rest n u s = ground (arith, u x)

-- From a state with the registry invariant in which a pointer finds the target: if the queue yields the
-- completion of this pointer after rounds in which it was empty before the deadline, or yielded
-- completions of other pointers, the wait finds it.
pub wait_loop_finds :
    (timeout : ℤ) (target ptr : ℕ) (r : Runtime) (before later : List Poll) (expired : Bool)
    → Inv r
    → ptr ≢ 0
    → lookup ptr r.registry ≡ some target
    → AllPass timeout ptr before
    → (wait_loop timeout target r (before ++ reads (ok ptr) expired ∷ later)).1 ≡ found ptr
unfolding wait_loop on_resolved
wait_loop_finds timeout target ptr r [] later expired v n l a =
    rw (resolve-release r ptr target v l n) (rw (==_refl target) refl)
wait_loop_finds timeout target ptr r (reads (err e) x ∷ before) later expired v n l a =
    ground (arith, a.0, wait_loop_finds timeout target ptr r before later expired v n l a.1)
wait_loop_finds timeout target ptr r (reads (ok p) x ∷ before) later expired v n l a =
    let (other, kept, unknown) = resolve_other r p ptr target v a.0 l in
    on_resolved_passes target p ptr (resolve_completion p r) _ other unknown (
      wait_loop_finds timeout target ptr (resolve_completion p r).0 before later expired
        (resolve-Inv r p v) n kept a.1)
wait_loop_finds timeout target ptr r (cancels e ∷ before) later expired v n l a = absurd a.0
