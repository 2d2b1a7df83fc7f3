-- ===== src/Client/Telemetry/Counted.antt =====
-- client/client.go: a run of the dispatcher, by the calls of the metric hook and by the statistics.
use libfabric_go.Client.Emit.{Stats}
use libfabric_go.Capi.Queue.{CqError, CqEvent}
use libfabric_go.Capi.Errors.{ok, Result, GoError, err, is_sentinel, Sentinel}
use libfabric_go.Fi.Context.{Runtime, resolve_completion}
use libfabric_go.Client.Dispatch.{Entry, result_of}
use libfabric_go.Client.Telemetry.{
  Signal, Telemetry, Entry, completion_fields, metric_dispatcher_started, metric_dispatcher_stopped,
}
use libfabric_go.Client.Session.Dispatcher.{
  finish_value, sourced, note_failure, finish_resolved, handle, read_errors, round, dispatcher,
  Round, read_events, entry_of,
}
use libfabric_go.Client.Telemetry.Rounds.{
  told_value, told_resolved, told_completion, told_errors, told_round, told_rounds, told_events,
  told_failure, told_start, told_stop, told_dispatch,
}
use libfabric_go.Client.Session.{Session, Setting, with_runtime, put, finish}
use libfabric_go.Base.{
  refl, ◌≡◌, List, [], ◌++◌, ℕ, Option, true, some, false, sym, ◌∙◌, ap, none, String, Bool, ◌∷◌,
  Bool-cases, inl, inr, arith,
}
use libfabric_go.Client.Telemetry.Agree.{
  tally, metrics_of, metrics_of-append, tally-append, completion_metrics, completion_metric-tally,
  told_failure-tally, silence,
}
use libfabric_go.Client.Telemetry.Attached.{
  Attached, Attached-resolved, resolve_ptr, resolve_value, finish-board, finish-runtime,
  finish-others, resolve_refused,
}

-- After: the metrics told in between lead from the statistics before to those after, and the invariant.
abbrev Counted : Session → List Signal → Session → Type 0
Counted s told s' = (s'.board.stats ≡ tally (metrics_of told) s.board.stats) × Attached s'

Counted-none : (s s' : Session) → s'.board ≡ s.board → Attached s' → Counted s [] s'
unfolding tally metrics_of
Counted-none s s' e v = (rw e refl, v)

Counted-then :
    (s s' s'' : Session) (a b : List Signal)
    → Counted s a s'
    → Counted s' b s''
    → Counted s (a ++ b) s''
Counted-then s s' s'' a b (e, v) (e', v') = (
  rw (metrics_of-append a b, tally-append (metrics_of a) (metrics_of b) s.board.stats, ← e) e',
  v',
)

resolved_value-Counted :
    (t : Telemetry) (k : Setting) (ptr id source : ℕ) (entry : Option Entry) (v : Option ℕ)
    (r : Runtime) (s : Session)
    → t.has_metrics ≡ true
    → Attached s
    → resolve_completion ptr s.state.runtime ≡ (r, ok id)
    → (r.objects id).value ≡ v
    → Counted s (told_value t source entry v s) (finish_value k source entry v (with_runtime r s))
unfolding told_value finish_value
resolved_value-Counted t k ptr id source entry none r s h a e w =
    Counted-none s (with_runtime r s) refl
      (Attached-resolved s (with_runtime r s) ptr id r a e refl (λ m d. refl))
resolved_value-Counted t k ptr id source entry (some n) r s h a e w =
    let op = (s.state.operations n).0 in
    let res = result_of op entry in
    let s1 = record (with_runtime r s) {
      metas = put s.metas n (sourced op.kind source (s.metas n));
    } in
    let open_yet : op.fired ≡ false =
      a.waits ptr id n (resolve_ptr ptr id s.state.runtime r e)
        (sym (resolve_value ptr id id s.state.runtime r e) ∙ w) in
    (
      finish-board k n res s1 open_yet
          ∙ rw (completion_metrics t op res source entry) (
              completion_metric-tally t op.kind res.error (completion_fields op res source entry)
                (s1.metas n) res.length s1.board h),
      Attached-resolved s (finish k n res s1) ptr id r a e (finish-runtime k n res s1)
          (λ m d. ap (λ o. o.0.fired) (finish-others k n m res s1 (λ x. d (w ∙ ap some x)))),
    )

resolved-Counted :
    (t : Telemetry) (k : Setting) (ptr source : ℕ) (entry : Option Entry) (s : Session)
    (o : Runtime × Result ℕ)
    → t.has_metrics ≡ true
    → Attached s
    → resolve_completion ptr s.state.runtime ≡ o
    → Counted s (told_resolved t source entry o s) (finish_resolved k source entry o s)
unfolding told_resolved finish_resolved
resolved-Counted t k ptr source entry s (r, err x) h a e =
    rw (resolve_refused ptr s.state.runtime r x e) (Counted-none s s refl a)
resolved-Counted t k ptr source entry s (r, ok id) h a e =
    resolved_value-Counted t k ptr id source entry (r.objects id).value r s h a e refl

-- A completion that the dispatcher handles.
completion-Counted :
    (t : Telemetry) (k : Setting) (ptr source : ℕ) (entry : Option Entry) (s : Session)
    → t.has_metrics ≡ true
    → Attached s
    → Counted s (told_completion t ptr source entry s) (handle k ptr source entry s)
unfolding told_completion handle
completion-Counted t k ptr source entry s h a =
    resolved-Counted t k ptr source entry s (resolve_completion ptr s.state.runtime) h a refl

failure-Counted :
    (t : Telemetry) (event cause : String) (e : GoError) (s : Session)
    → Attached s
    → Counted s (told_failure t event cause e) (note_failure cause e s)
unfolding note_failure
failure-Counted t event cause e s a = elim (Bool-cases (is_sentinel Sentinel.no_completion e)) [
  | inl x ↦ rw x (sym (told_failure-tally t event cause e s.board.stats), a)
  | inr x ↦ rw x (
    sym (told_failure-tally t event cause e s.board.stats),
    record { waits = a.waits; own = a.own },
  )
]

errors-Counted :
    (t : Telemetry) (k : Setting) (stop_last : Bool) (backoff : ℕ) (errors : Result CqError)
    (s : Session)
    → t.has_metrics ≡ true
    → Attached s
    → Counted s (told_errors t errors s) (read_errors k stop_last backoff errors s).0
unfolding told_errors read_errors
errors-Counted t k stop_last backoff (ok e) s h a =
    completion-Counted t k e.context e.src_addr (some (entry_of e)) s h a
errors-Counted t k stop_last backoff (err x) s h a =
    failure-Counted t "cq_readerr_error" "cq readerr" x s a

events-Counted :
    (t : Telemetry) (k : Setting) (stop_last : Bool) (backoff : ℕ) (errors : Result CqError)
    (event : Result CqEvent) (s : Session)
    → t.has_metrics ≡ true
    → Attached s
    → Counted s (told_events t errors event s) (read_events k stop_last backoff errors event s).0
unfolding told_events read_events
events-Counted t k stop_last backoff errors (ok e) s h a =
    completion-Counted t k e.context e.src_addr none s h a
events-Counted t k stop_last backoff errors (err x) s h a =
    let s' = note_failure "cq read" x s in
    let first = failure-Counted t "cq_read_error" "cq read" x s a in
    Counted-then s s' (read_errors k stop_last backoff errors s').0
      (told_failure t "cq_read_error" "cq read" x) (told_errors t errors s') first
      (errors-Counted t k stop_last backoff errors s' h first.1)

round-Counted :
    (t : Telemetry) (k : Setting) (r : Round) (backoff : ℕ) (s : Session)
    → t.has_metrics ≡ true
    → Attached s
    → Counted s (told_round t r s) (round k r backoff s).0
unfolding told_round round
round-Counted t k r backoff s h a = elim (Bool-cases r.stop_first) [
  | inl x ↦ rw x (Counted-none s s refl a)
  | inr x ↦ rw x (events-Counted t k r.stop_last backoff r.error r.event s h a)
]

pub rounds-Counted :
    (t : Telemetry) (k : Setting) (rounds : List Round) (s : Session) (backoff : Option ℕ)
    → t.has_metrics ≡ true
    → Attached s
    → Counted s (told_rounds t k rounds (s, backoff)) (dispatcher k rounds (s, backoff)).0
unfolding told_rounds dispatcher
rounds-Counted t k [] s backoff h a = Counted-none s s refl a
rounds-Counted t k (r ∷ rounds) s none h a = Counted-none s s refl a
rounds-Counted t k (r ∷ rounds) s (some backoff) h a =
    let (s', next) = round k r backoff s in
    let first = round-Counted t k r backoff s h a in
    Counted-then s s' (dispatcher k rounds (s', next)).0 (told_round t r s)
      (told_rounds t k rounds (s', next)) first (rounds-Counted t k rounds s' next h first.1)

start-tally : (t : Telemetry) (s : Stats) → tally (metrics_of (told_start t)) s ≡ s
unfolding told_start metric_dispatcher_started
start-tally t s = simp silence (unfold metrics_of tally in ground arith)

stop-tally :
    (t : Telemetry) (e : Option GoError) (s : Stats) → tally (metrics_of (told_stop t e)) s ≡ s
unfolding told_stop metric_dispatcher_stopped
stop-tally t e s = simp silence (unfold metrics_of tally in ground arith)

-- A run of the dispatcher with a metric hook, from its start to its end, over whatever its reads
-- answer, from a session in which each registered context that carries an operation carries one of its
-- own that is not yet completed: a hook that counts its calls of each kind reaches, from the
-- client's statistics before the run, the client's statistics after it.
pub metrics_agree :
    (t : Telemetry) (k : Setting) (rounds : List Round) (s : Session)
    → t.has_metrics ≡ true
    → Attached s
    → (dispatcher k rounds (s, some 1)).0.board.stats
      ≡ tally (metrics_of (told_dispatch t k rounds s)) s.board.stats
unfolding told_dispatch
metrics_agree t k rounds s h a =
    let after = (dispatcher k rounds (s, some 1)).0 in
    let told = told_rounds t k rounds (s, some 1) in
    let e = (rounds-Counted t k rounds s (some 1) h a).0 in
    rw
      (
        metrics_of-append (told_start t) (told ++ told_stop t after.failure),
        metrics_of-append told (told_stop t after.failure),
        tally-append (metrics_of (told_start t))
            (metrics_of told ++ metrics_of (told_stop t after.failure)) s.board.stats,
        start-tally t s.board.stats,
        tally-append (metrics_of told) (metrics_of (told_stop t after.failure)) s.board.stats,
        stop-tally t after.failure (tally (metrics_of told) s.board.stats),
      )
      e
