-- ===== src/Client/Dispatch/Race.antt =====
-- client/client.go: a completion that the dispatcher reads before or after the operation is attached.
use libfabric_go.Fi.Context.{set_value}
use libfabric_go.Fi.Context.Registry.{Inv, resolve-release, resolve_twice, resolve-Inv}
use libfabric_go.Base.{
  ℕ, ◌≡◌, ◌≢◌, refl, Option, none, some, List, [], ◌∷◌, ◌==◌, ==_iff, arith, lookup, Bool-cases,
  inl, inr, lookup-delete, ap, ◌∙◌,
}
use libfabric_go.Base.Int.{ℤ, eqb_ℤ}
use libfabric_go.Capi.Errors.{is_errno, GoError, ok, err, Result}
use libfabric_go.Fi.Context.{Runtime, resolve_completion, release_with}
use libfabric_go.Client.Dispatch.{
  State, Entry, complete_value, complete_resolved, handle_completion, dispatch, attach, set_value,
  complete, result_of,
}

-- No context that a pointer finds has the operation for its value.
abbrev pub Detached : ℕ → Runtime → Type 0
Detached n r = (p id : ℕ) → lookup p r.registry ≡ some id → (r.objects id).value ≢ some n

resolve-Detached :
    (n p : ℕ) (r : Runtime)
    → Detached n r
    → Detached n (resolve_completion p r).0
      × ((id : ℕ)
          → (resolve_completion p r).1 ≡ ok id
          → ((resolve_completion p r).0.objects id).value ≢ some n)
unfolding resolve_completion release_with
resolve-Detached n p r d = (
  λ q id l e. ground (arith, d q id, lookup-delete p q r.registry),
  λ id h e. ground (arith, d p id),
)

complete_value_other :
    (n : ℕ) (entry : Option Entry) (v : Option ℕ) (s : State)
    → v ≢ some n
    → (complete_value entry v s).operations n ≡ s.operations n
unfolding complete_value
complete_value_other n entry none s h = refl
complete_value_other n entry (some m) s h = elim (Bool-cases (m == n)) [
  | inl x ↦ absurd (h (ap (λ j. some j) ((==_iff m n).0 x)))
  | inr x ↦ rw x refl
]

complete_value-runtime :
    (entry : Option Entry) (v : Option ℕ) (s : State)
    → (complete_value entry v s).runtime ≡ s.runtime
unfolding complete_value
complete_value-runtime entry none s = refl
complete_value-runtime entry (some m) s = refl

complete_resolved-runtime :
    (entry : Option Entry) (o : Runtime × Result ℕ) (s : State)
    → (complete_resolved entry o s).runtime ≡ o.0
unfolding complete_resolved
complete_resolved-runtime entry (r, err e) s = refl
complete_resolved-runtime entry (r, ok id) s =
    complete_value-runtime entry (r.objects id).value (record s { runtime = r })

complete_resolved_other :
    (n : ℕ) (entry : Option Entry) (o : Runtime × Result ℕ) (s : State)
    → Detached n o.0
    → ((id : ℕ) → o.1 ≡ ok id → (o.0.objects id).value ≢ some n)
    → Detached n (complete_resolved entry o s).runtime
      × ((complete_resolved entry o s).operations n ≡ s.operations n)
unfolding complete_resolved
complete_resolved_other n entry (r, err e) s d h = (d, refl)
complete_resolved_other n entry (r, ok id) s d h = (
  rw (complete_value-runtime entry (r.objects id).value (record s { runtime = r })) d,
  complete_value_other n entry (r.objects id).value (record s { runtime = r }) (h id refl),
)

-- While no context in the registry has the operation, completions do not reach it.
operations_unreached :
    (n : ℕ) (events : List (ℕ × Option Entry)) (s : State)
    → Detached n s.runtime
    → (dispatch events s).operations n ≡ s.operations n
unfolding dispatch handle_completion
operations_unreached n [] s d = refl
operations_unreached n ((p, entry) ∷ events) s d =
    let (d', h) = resolve-Detached n p s.runtime d in
    let (k, e) = complete_resolved_other n entry (resolve_completion p s.runtime) s d' h in
    operations_unreached n events (handle_completion p entry s) k ∙ e

-- The context that a completion resolved is found by no pointer any more.
resolved_gone :
    (r : Runtime) (ptr id p : ℕ)
    → Inv r
    → ptr ≢ 0
    → lookup ptr r.registry ≡ some id
    → lookup p (resolve_completion ptr r).0.registry ≢ some id
resolved_gone r ptr id p v n l e =
    let h : (resolve_completion ptr r).1 ≡ ok id = rw (resolve-release r ptr id v l n) refl in
    let shut = (resolve_twice r ptr id v h).0 in
    let open_still = ((resolve-Inv r ptr v).registered p id e).2 in ground (arith, shut, open_still)

attach-Detached :
    (n id : ℕ) (s : State)
    → Detached n s.runtime
    → ((p : ℕ) → lookup p s.runtime.registry ≢ some id)
    → Detached n (attach id n s).runtime
unfolding attach set_value
attach-Detached n id s d g p j l e = elim (Bool-cases (id == j)) [
  | inl x ↦ g p (rw ((==_iff id j).0 x) l)
  | inr x ↦ d p j l (rw x at e)
]

attach-operations : (n id : ℕ) (s : State) → (attach id n s).operations ≡ s.operations
unfolding attach
attach-operations n id s = refl

-- Where the runtime keeps the registry invariant and no context in the registry has the operation `n`: if
-- the dispatcher reads the completion of a context before the operation is attached to it, then the
-- operation stays as it was, whatever completions the dispatcher reads later.
pub early_completion_lost :
    (s : State) (ptr id n : ℕ) (entry : Option Entry) (events : List (ℕ × Option Entry))
    → Inv s.runtime
    → ptr ≢ 0
    → lookup ptr s.runtime.registry ≡ some id
    → Detached n s.runtime
    → (dispatch events (attach id n (handle_completion ptr entry s))).operations n ≡ s.operations n
unfolding handle_completion
early_completion_lost s ptr id n entry events v z l d =
    let (d', h) = resolve-Detached n ptr s.runtime d in
    let (k, e) = complete_resolved_other n entry (resolve_completion ptr s.runtime) s d' h in
    operations_unreached n events (attach id n (handle_completion ptr entry s)) (
      attach-Detached n id (handle_completion ptr entry s) k (λ p.
        rw (complete_resolved-runtime entry (resolve_completion ptr s.runtime) s)
          (resolved_gone s.runtime ptr id p v z l)))
    ∙ (ap (λ f. f n) (attach-operations n id (handle_completion ptr entry s)) ∙ e)

-- Where the runtime keeps the registry invariant: the first completion of a context to which an operation
-- is attached completes this operation, with its size as the length, with no error for a completion from
-- the queue, and for one from the error queue with an error that `errors.Is` finds to be the entry's code
-- and no other.
pub attached_completes :
    (s : State) (ptr id n : ℕ) (entry : Option Entry)
    → Inv s.runtime
    → ptr ≢ 0
    → lookup ptr s.runtime.registry ≡ some id
    → let res = result_of (s.operations n).0 entry in
      ((handle_completion ptr entry (attach id n s)).operations n ≡ complete res (s.operations n))
      × (res.length ≡ (s.operations n).0.size)
      × (entry ≡ none → res.error ≡ none)
      × ((e : Entry)
          → entry ≡ some e
          → (x : GoError) × (res.error ≡ some x) × ((m : ℤ) → is_errno m x ≡ eqb_ℤ e.errno m))
unfolding handle_completion attach set_value complete_resolved complete_value resolve_completion
    release_with result_of is_errno
attached_completes s ptr id n none v z l =
    (ground (arith, v.registered ptr id), refl, λ h. refl, λ e h. absurd (ground arith))
attached_completes s ptr id n (some entry) v z l = (
  ground (arith, v.registered ptr id),
  refl,
  λ h. absurd (ground arith),
  λ e h. (_, refl, λ m. ground arith),
)
