-- ===== src/Client/Session/Agree.antt =====
-- client/client.go: handleCompletion over a session, against the operations and contexts alone.
use libfabric_go.Base.{
  ap, sym, ◌∙◌, ==_iff, ℕ, ◌≡◌, refl, true, Option, none, some, List, ◌∷◌, Bool-cases, inl, inr,
  ◌==◌, ==_iff,
}
use libfabric_go.Capi.Errors.{Result, ok, err}
use libfabric_go.Fi.Context.{Runtime, resolve_completion}
use libfabric_go.Fi.Pool.Ownership.{accepts}
use libfabric_go.Client.Operation.{Operation, Notice, OperationResult, complete}
use libfabric_go.Client.Dispatch.{
  Entry, State, result_of, update, complete_value, complete_resolved, handle_completion,
}
use libfabric_go.Client.Session.{Setting, Session, finish, finish_first, put, with_runtime}
use libfabric_go.Client.Session.Dispatcher.{finish_value, finish_resolved, handle, sourced}
use libfabric_go.Client.Session.Lending.{HasLent, Pending, finish-HasLent}

-- The same contexts, and the same operations with what they made happen.
unfoldable pub Agrees : State → State → Type 0
Agrees a b = (a.runtime ≡ b.runtime) × ((j : ℕ) → a.operations j ≡ b.operations j)

update-same :
    (f : ℕ → Operation × List Notice) (n j : ℕ) (x : Operation × List Notice)
    → x ≡ f n
    → update f n x j ≡ f j
update-same f n j x e = elim (Bool-cases (n == j)) [
  | inl t ↦ let same : n ≡ j = (==_iff n j).0 t in rw t (e ∙ ap f same)
  | inr t ↦ rw t refl
]

complete_fired :
    (res : OperationResult) (o : Operation × List Notice) → o.0.fired ≡ true → complete res o ≡ o
unfolding complete
complete_fired res (op, log) f = rw f refl

finish_first-Agrees :
    (k : Setting) (n : ℕ) (res : OperationResult) (s : Session)
    → Agrees (finish_first k n res s).state (record s.state {
      operations = update s.state.operations n (complete res (s.state.operations n));
    })
unfolding Agrees finish_first
finish_first-Agrees k n res s = (refl, λ j. refl)

done-Agrees :
    (n : ℕ) (res : OperationResult) (s : Session)
    → (s.state.operations n).0.fired ≡ true
    → Agrees s.state (record s.state {
      operations = update s.state.operations n (complete res (s.state.operations n));
    })
unfolding Agrees
done-Agrees n res s f = (
  refl,
  λ j. sym (update-same s.state.operations n j _ (complete_fired res (s.state.operations n) f)),
)

finish-Agrees :
    (k : Setting) (n : ℕ) (res : OperationResult) (s : Session)
    → Agrees (finish k n res s).state (record s.state {
      operations = update s.state.operations n (complete res (s.state.operations n));
    })
unfolding finish
finish-Agrees k n res s = elim (Bool-cases (s.state.operations n).0.fired) [
  | inl t ↦ simp (t, finish) (done-Agrees n res s t)
  | inr t ↦ simp (t, finish) (finish_first-Agrees k n res s)
]

finish_value-Agrees :
    (k : Setting) (source : ℕ) (entry : Option Entry) (v : Option ℕ) (s : Session)
    → Agrees (finish_value k source entry v s).state (complete_value entry v s.state)
unfolding finish_value complete_value Agrees
finish_value-Agrees k source entry none s = (refl, λ j. refl)
finish_value-Agrees k source entry (some n) s =
    finish-Agrees k n (result_of (s.state.operations n).0 entry) (record s {
      metas = put s.metas n (sourced (s.state.operations n).0.kind source (s.metas n));
    })

finish_resolved-Agrees :
    (k : Setting) (source : ℕ) (entry : Option Entry) (o : Runtime × Result ℕ) (s : Session)
    → Agrees (finish_resolved k source entry o s).state (complete_resolved entry o s.state)
unfolding finish_resolved complete_resolved Agrees
finish_resolved-Agrees k source entry (r, err e) s = (refl, λ j. refl)
finish_resolved-Agrees k source entry (r, ok id) s =
    finish_value-Agrees k source entry (r.objects id).value (with_runtime r s)

-- The completion of a pending operation with a region, found as the value of the resolved context.
finish_resolved-HasLent :
    (k : Setting) (source n id region : ℕ) (entry : Option Entry) (r : Runtime) (s : Session)
    (lent : List ℕ)
    → k.closes ≡ accepts
    → (r.objects id).value ≡ some n
    → Pending s n region
    → HasLent s (region ∷ lent)
    → let s' = finish_resolved k source entry (r, ok id) s in
      ((s'.state.operations n).0.done ≡ true) × HasLent s' lent
unfolding finish_resolved finish_value Pending
finish_resolved-HasLent k source n id region entry r s lent a e p v = rw e (
    finish-HasLent k n region (result_of (s.state.operations n).0 entry)
      (record (with_runtime r s) {
        metas = put s.metas n (sourced (s.state.operations n).0.kind source (s.metas n));
      })
      lent a p v)

-- handleCompletion on a session does to the contexts and operations what it does to them alone.
handle-Agrees :
    (k : Setting) (ptr source : ℕ) (entry : Option Entry) (s : Session)
    → Agrees (handle k ptr source entry s).state (handle_completion ptr entry s.state)
unfolding handle handle_completion
handle-Agrees k ptr source entry s =
    finish_resolved-Agrees k source entry (resolve_completion ptr s.state.runtime) s

-- Where the C library accepts every close: if a completion resolves a context whose value is a pending
-- operation with a region of the pool that is lent, then behind handleCompletion the operation is done, and
-- exactly that region is lent no more; the others stay lent.
pub handle_gives_back :
    (k : Setting) (ptr source n id region : ℕ) (entry : Option Entry) (r : Runtime) (s : Session)
    (lent : List ℕ)
    → k.closes ≡ accepts
    → resolve_completion ptr s.state.runtime ≡ (r, ok id)
    → (r.objects id).value ≡ some n
    → Pending s n region
    → HasLent s (region ∷ lent)
    → let s' = handle k ptr source entry s in
      ((s'.state.operations n).0.done ≡ true) × HasLent s' lent
unfolding handle
handle_gives_back k ptr source n id region entry r s lent a e v p l =
    rw e (finish_resolved-HasLent k source n id region entry r s lent a v p l)
