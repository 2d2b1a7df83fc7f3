-- ===== src/Client/Session/Ledger/Rounds.antt =====
-- client/client.go: what the dispatcher does to the statistics and the operations.
use libfabric_go.Capi.Queue.{CqError, CqEvent}
use libfabric_go.Client.Dispatch.{Entry, result_of}
use libfabric_go.Capi.Errors.{GoError, Result, is_sentinel, ok, Sentinel, err}
use libfabric_go.Base.{
  String, ℕ, Bool, List, Option, Bool-cases, inl, some, ◌≡◌, none, inr, ◌<◌, refl,
}
use libfabric_go.Client.Session.{Setting, GoError, Runtime, Session, put}
use Prim.Native.String.{String, ◌∷◌}
use libfabric_go.Client.Session.Dispatcher.{
  finish_value, finish_resolved, note_failure, read_errors, read_events, round, dispatcher, handle,
  Round, entry_of, sourced,
}
use libfabric_go.Fi.Context.{resolve_completion, release_with, Runtime}
use libfabric_go.Base.{
  ℕ, ◌<◌, ◌≡◌, refl, Bool, Option, none, some, List, [], ◌∷◌, arith, Bool-cases, inl, inr, String,
}
use libfabric_go.Fi.Post.Values.{Keeps}
use libfabric_go.Fi.Context.{Runtime, resolve_completion, release_with}
use libfabric_go.Client.Session.Ledger.{Ledger}
use libfabric_go.Client.Session.{Setting, Session, with_runtime, put}
use libfabric_go.Client.Dispatch.{Entry, result_of}
use libfabric_go.Capi.Queue.{CqEvent, CqError}
use libfabric_go.Capi.Errors.{GoError, Result, ok, err, is_sentinel, Sentinel}
use libfabric_go.Client.Session.Dispatcher.{
  handle, finish_resolved, finish_value, sourced, note_failure, read_errors, read_events, round,
  dispatcher, Round, entry_of,
}
use libfabric_go.Client.Session.Ledger.Steps.{Carried-Keeps, finish-Ledger}

resolve-Keeps : (ptr : ℕ) (r : Runtime) → Keeps r (resolve_completion ptr r).0
unfolding resolve_completion release_with
resolve-Keeps ptr r j = ground arith

finish_value-Ledger :
    (k : Setting) (source : ℕ) (entry : Option Entry) (o : Option ℕ) (s : Session)
    → ((n : ℕ) → o ≡ some n → n < s.made)
    → Ledger s
    → Ledger (finish_value k source entry o s)
unfolding finish_value
finish_value-Ledger k source entry none s h v = v
finish_value-Ledger k source entry (some n) s h v =
    let op = (s.state.operations n).0 in
    finish-Ledger k n (result_of op entry)
      (record s { metas = put s.metas n (sourced op.kind source (s.metas n)) }) (h n refl)
      (record { books = v.books; carried = v.carried })

finish_resolved-Ledger :
    (k : Setting) (source : ℕ) (entry : Option Entry) (o : Runtime × Result ℕ) (s : Session)
    → Keeps s.state.runtime o.0
    → Ledger s
    → Ledger (finish_resolved k source entry o s)
unfolding finish_resolved
finish_resolved-Ledger k source entry (r, err e) s h v = record {
  books = v.books;
  carried = Carried-Keeps s.state.runtime r s.made h v.carried;
}
finish_resolved-Ledger k source entry (r, ok id) s h v =
    let carried = Carried-Keeps s.state.runtime r s.made h v.carried in
    finish_value-Ledger k source entry (r.objects id).value (with_runtime r s)
      (λ n e. carried id n e) (record { books = v.books; carried = carried })

handle-Ledger :
    (k : Setting) (ptr source : ℕ) (entry : Option Entry) (s : Session)
    → Ledger s
    → Ledger (handle k ptr source entry s)
unfolding handle
handle-Ledger k ptr source entry s v =
    finish_resolved-Ledger k source entry (resolve_completion ptr s.state.runtime) s
      (resolve-Keeps ptr s.state.runtime) v

note_failure-Ledger :
    (text : String) (e : GoError) (s : Session) → Ledger s → Ledger (note_failure text e s)
unfolding note_failure
note_failure-Ledger text e s v = elim (Bool-cases (is_sentinel Sentinel.no_completion e)) [
  | inl x ↦ rw x v
  | inr x ↦ rw x (record { books = v.books; carried = v.carried })
]

read_errors-Ledger :
    (k : Setting) (stop_last : Bool) (backoff : ℕ) (errors : Result CqError) (s : Session)
    → Ledger s
    → Ledger (read_errors k stop_last backoff errors s).0
unfolding read_errors
read_errors-Ledger k stop_last backoff (ok e) s v =
    handle-Ledger k e.context e.src_addr (some (entry_of e)) s v
read_errors-Ledger k stop_last backoff (err x) s v = note_failure-Ledger "cq readerr" x s v

read_events-Ledger :
    (k : Setting) (stop_last : Bool) (backoff : ℕ) (errors : Result CqError)
    (event : Result CqEvent) (s : Session)
    → Ledger s
    → Ledger (read_events k stop_last backoff errors event s).0
unfolding read_events
read_events-Ledger k stop_last backoff errors (ok e) s v =
    handle-Ledger k e.context e.src_addr none s v
read_events-Ledger k stop_last backoff errors (err x) s v =
    read_errors-Ledger k stop_last backoff errors (note_failure "cq read" x s)
      (note_failure-Ledger "cq read" x s v)

round-Ledger :
    (k : Setting) (r : Round) (backoff : ℕ) (s : Session)
    → Ledger s
    → Ledger (round k r backoff s).0
unfolding round
round-Ledger k r backoff s v = elim (Bool-cases r.stop_first) [
  | inl x ↦ rw x v
  | inr x ↦ rw x (read_events-Ledger k r.stop_last backoff r.error r.event s v)
]

pub dispatcher-Ledger :
    (k : Setting) (rounds : List Round) (s : Session) (backoff : Option ℕ)
    → Ledger s
    → Ledger (dispatcher k rounds (s, backoff)).0
unfolding dispatcher
dispatcher-Ledger k [] s backoff v = v
dispatcher-Ledger k (r ∷ rounds) s none v = v
dispatcher-Ledger k (r ∷ rounds) s (some backoff) v =
    let (s', next) = round k r backoff s in
    dispatcher-Ledger k rounds s' next (round-Ledger k r backoff s v)
