-- ===== src/Client/Operation/Once.antt =====
-- client/client.go: an operation completes once, and each callback is started once.
use mathlib.Core.List.{append-nil, append_assoc}
use libfabric_go.Base.{
  sym, ◌∙◌, ap, ℕ, ◌≡◌, refl, Option, none, some, List, [], ◌∷◌, ◌++◌, true, false, arith, Bool, ap,
  ◌∙◌,
}
use libfabric_go.Capi.Errors.{GoError, OperationKind}
use libfabric_go.Client.Operation.{
  Operation, OperationResult, Notice, started, new_operation, emits, releases, start_all, complete,
  announce, settle, add_callback, await,
}

-- A call of one of the two methods.
pub data Call : Type 0 where
  completes : OperationResult → Call
  adds : Option ℕ → Call

unfoldable pub step : Call → Operation × List Notice → Operation × List Notice
step (completes res) s = complete res s
step (adds cb) s = add_callback cb s

unfoldable pub run : List Call → Operation × List Notice → Operation × List Notice
unfolding step
run [] s = s
run (c ∷ cs) s = run cs (step c s)

-- The callbacks that the calls add.
abbrev pub added : List Call → List ℕ
added [] = []
added (completes res ∷ cs) = added cs
added (adds none ∷ cs) = added cs
added (adds (some cb) ∷ cs) = cb ∷ added cs

-- No call completes.
abbrev pub OnlyAdds : List Call → Type 0
OnlyAdds [] = Unit {0}
OnlyAdds (completes res ∷ cs) = ⊥
OnlyAdds (adds cb ∷ cs) = OnlyAdds cs

start_all-append :
    (res : OperationResult) (a b : List ℕ)
    → start_all res (a ++ b) ≡ start_all res a ++ start_all res b
unfolding start_all
start_all-append res [] b = refl
start_all-append res (cb ∷ a) b = ap (λ n. started cb res ∷ n) (start_all-append res a b)

-- An `addCallback` between the two steps of a completion starts its callback first, and leaves the operation
-- and what the completion makes happen as they are without it.
add_between :
    (res : OperationResult) (cb : ℕ) (op : Operation) (log : List Notice)
    → announce res op.callbacks (add_callback (some cb) (settle res op, log)) ≡ (
      record op { fired = true; completed = true; done = true; result = res; callbacks = [] },
      log ++ (started cb res ∷ (emits op res ++ (releases op ++ start_all res op.callbacks))),
    )
unfolding announce add_callback
add_between res cb op log =
    ap
      (λ more. (
        record op { fired = true; completed = true; done = true; result = res; callbacks = [] },
        more,
      ))
      (append_assoc log (started cb res ∷ [])
        (emits op res ++ (releases op ++ start_all res op.callbacks)))

-- Before a completion, callbacks collect.
run_adds :
    (cs : List Call) (op : Operation) (log : List Notice)
    → OnlyAdds cs
    → op.completed ≡ false
    → run cs (op, log) ≡ (record op { callbacks = op.callbacks ++ added cs }, log)
unfolding run add_callback
run_adds [] op log a h = ground (arith, append-nil op.callbacks)
run_adds (adds none ∷ cs) op log a h = run_adds cs op log a h
run_adds (adds (some cb) ∷ cs) op log a h = ground (
  arith,
  run_adds cs (record op { callbacks = op.callbacks ++ cb ∷ [] }) log a h,
  append_assoc op.callbacks (cb ∷ []) (added cs),
)
run_adds (completes res ∷ cs) op log a h = absurd a

-- Behind a completion, callbacks start at once with its result.
run_completed :
    (cs : List Call) (op : Operation) (log : List Notice)
    → op.completed ≡ true
    → op.fired ≡ true
    → run cs (op, log) ≡ (op, log ++ start_all op.result (added cs))
unfolding run add_callback complete start_all
run_completed [] op log h k = ground (arith, append-nil log)
run_completed (adds none ∷ cs) op log h k = run_completed cs op log h k
run_completed (adds (some cb) ∷ cs) op log h k = ground (
  arith,
  run_completed cs op (log ++ started cb op.result ∷ []) h k,
  append_assoc log (started cb op.result ∷ []) (start_all op.result (added cs)),
)
run_completed (completes res ∷ cs) op log h k = ground (arith, run_completed cs op log h k)

run-append :
    (a : List Call) (c : Call) (b : List Call) (s : Operation × List Notice)
    → run (a ++ c ∷ b) s ≡ run b (step c (run a s))
unfolding run
run-append [] c b s = refl
run-append (d ∷ a) c b s = run-append a c b (step d s)

regroup : (a b c d : List Notice) → (a ++ (b ++ c)) ++ d ≡ a ++ (b ++ (c ++ d))
regroup a b c d = append_assoc a (b ++ c) d ∙ ap (λ t. a ++ t) (append_assoc b c d)

-- The operation of a future, before anything happens to it.
abbrev pub posted : Bool → OperationKind → ℕ → Option ℕ → Operation
posted has_client kind size fn = record (new_operation has_client kind size) { release = fn }

-- Whatever callbacks are added before the first completion, and whatever is called behind it: the client
-- is told once, the release function runs once, behind that every callback is started once, with the
-- result of the first completion, and from then on `Await` returns this result, with any context.
pub complete_once :
    (has_client : Bool) (kind : OperationKind) (size : ℕ) (fn : Option ℕ) (before later : List Call)
    (res : OperationResult)
    → OnlyAdds before
    → let op = posted has_client kind size fn in
      let (end, log) = run (before ++ completes res ∷ later) (op, []) in
      (log ≡ emits op res ++ (releases op ++ start_all res (added before ++ added later)))
      × ((cancelled : Option GoError) → await cancelled end ≡ some res)
unfolding complete new_operation await step
complete_once has_client kind size fn before later res a =
    let op = posted has_client kind size fn in
    let done = complete res (record op { callbacks = added before }, []) in
    let e : run (before ++ completes res ∷ later) (op, [])
        ≡ (done.0, done.1 ++ start_all res (added later)) =
      run-append before (completes res) later (op, [])
      ∙ rw (run_adds before op [] a refl) (run_completed later done.0 done.1 refl refl) in
    rw e (
      regroup (emits op res) (releases op) (start_all res (added before))
            (start_all res (added later))
          ∙ ap (λ t. emits op res ++ (releases op ++ t))
              (sym (start_all-append res (added before) (added later))),
      finished,
    )
  where
    finished :
        (cancelled : Option GoError)
        → await cancelled (record (posted has_client kind size fn) {
          fired = true;
          completed = true;
          done = true;
          result = res;
          callbacks = [];
        })
          ≡ some res
    finished none = refl
    finished (some x) = refl
