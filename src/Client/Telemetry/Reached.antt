-- ===== src/Client/Telemetry/Reached.antt =====
-- client/client.go: the metric hook against the statistics, from the start of a client.
use libfabric_go.Base.{
  ℕ, ◌≡◌, refl, true, Option, none, some, List, [], arith, lookup, Bool, inl, inr, Bool-cases,
  String, ◌∷◌,
}
use libfabric_go.Capi.Errors.{GoError, Result, ok, err}
use libfabric_go.Capi.Queue.{CqEvent, CqError}
use libfabric_go.Fi.Context.{Runtime, resolve_completion}
use libfabric_go.Fi.Context.Registry.{Inv, resolve-Inv}
use libfabric_go.Fi.Context.History.{start-Inv}
use libfabric_go.Fi.Memory.{Memory}
use libfabric_go.Fi.Post.{Endpoint}
use libfabric_go.Client.Setup.Dial.{Client}
use libfabric_go.Client.Session.{Setting, Session, with_runtime, put}
use libfabric_go.Client.Session.Dispatcher.{
  handle, finish_resolved, finish_value, sourced, note_failure, read_errors, read_events, round,
  dispatcher, Round, entry_of,
}
use libfabric_go.Client.Session.Ledger.History.{
  Step, sends, receives, dispatches, hears_sends, hears_receives, drops_sends, drops_receives,
  finds_peer, sets_peer, Reach, here, next, new_session, step-Ledger, new-Ledger,
}
use libfabric_go.Client.Telemetry.Holds.{Sound, Held}
use libfabric_go.Client.Telemetry.Agree.{metrics_of, tally}
use libfabric_go.Client.Telemetry.Attached.{finish-runtime}
use libfabric_go.Client.Telemetry.Counted.{rounds-Counted, metrics_agree}
use libfabric_go.Client.Telemetry.Rounds.{told_dispatch}
use libfabric_go.Client.Operation.{new_operation}
use libfabric_go.Client.Telemetry.{Telemetry}
use libfabric_go.Client.Dispatch.{Entry, result_of}
use libfabric_go.Client.Telemetry.Calls.{send_async-Held, receive_async-Held}

value_runtime :
    (k : Setting) (source : ℕ) (entry : Option Entry) (o : Option ℕ) (s : Session)
    → (finish_value k source entry o s).state.runtime ≡ s.state.runtime
unfolding finish_value
value_runtime k source entry none s = refl
value_runtime k source entry (some n) s =
    let op = (s.state.operations n).0 in
    finish-runtime k n (result_of op entry)
      (record s { metas = put s.metas n (sourced op.kind source (s.metas n)) })

resolved_runtime :
    (k : Setting) (source : ℕ) (entry : Option Entry) (o : Runtime × Result ℕ) (s : Session)
    → (finish_resolved k source entry o s).state.runtime ≡ o.0
unfolding finish_resolved
resolved_runtime k source entry (r, err e) s = refl
resolved_runtime k source entry (r, ok id) s =
    value_runtime k source entry (r.objects id).value (with_runtime r s)

handle-Inv :
    (k : Setting) (ptr source : ℕ) (entry : Option Entry) (s : Session)
    → Inv s.state.runtime
    → Inv (handle k ptr source entry s).state.runtime
unfolding handle
handle-Inv k ptr source entry s v =
    rw (resolved_runtime k source entry (resolve_completion ptr s.state.runtime) s)
      (resolve-Inv s.state.runtime ptr v)

note_failure_runtime :
    (text : String) (e : GoError) (s : Session)
    → (note_failure text e s).state.runtime ≡ s.state.runtime
unfolding note_failure
note_failure_runtime text e s = ground arith

read_errors-Inv :
    (k : Setting) (stop_last : Bool) (backoff : ℕ) (errors : Result CqError) (s : Session)
    → Inv s.state.runtime
    → Inv (read_errors k stop_last backoff errors s).0.state.runtime
unfolding read_errors
read_errors-Inv k stop_last backoff (ok e) s v =
    handle-Inv k e.context e.src_addr (some (entry_of e)) s v
read_errors-Inv k stop_last backoff (err x) s v = rw (note_failure_runtime "cq readerr" x s) v

read_events-Inv :
    (k : Setting) (stop_last : Bool) (backoff : ℕ) (errors : Result CqError)
    (event : Result CqEvent) (s : Session)
    → Inv s.state.runtime
    → Inv (read_events k stop_last backoff errors event s).0.state.runtime
unfolding read_events
read_events-Inv k stop_last backoff errors (ok e) s v = handle-Inv k e.context e.src_addr none s v
read_events-Inv k stop_last backoff errors (err x) s v =
    read_errors-Inv k stop_last backoff errors (note_failure "cq read" x s)
      (rw (note_failure_runtime "cq read" x s) v)

dispatcher-Inv :
    (k : Setting) (rounds : List Round) (s : Session) (backoff : Option ℕ)
    → Inv s.state.runtime
    → Inv (dispatcher k rounds (s, backoff)).0.state.runtime
unfolding dispatcher round
dispatcher-Inv k [] s backoff v = v
dispatcher-Inv k (r ∷ rounds) s none v = v
dispatcher-Inv k (r ∷ rounds) s (some backoff) v = elim (Bool-cases r.stop_first) [
  | inl x ↦ rw (x, round) (dispatcher-Inv k rounds s none v)
  | inr x ↦
      rw (x, round)
        (dispatcher-Inv k rounds (read_events k r.stop_last backoff r.error r.event s).0
          (read_events k r.stop_last backoff r.error r.event s).1
          (read_events-Inv k r.stop_last backoff r.error r.event s v))
]

-- The C allocator returns no context pointer that is still in use.
abbrev pub Lawful : (k : Setting) (s s' : Session) → Step k s s' → Type 0
Lawful k s s' (sends payload dest reply ans e) =
    lookup ans.new_context s.state.runtime.registry ≡ none
Lawful k s s' (receives buf reply ans e) = lookup ans.new_context s.state.runtime.registry ≡ none
Lawful k s s' (dispatches rounds backoff e) = Unit {0}
Lawful k s s' (hears_sends handler e) = Unit {0}
Lawful k s s' (hears_receives handler e) = Unit {0}
Lawful k s s' (drops_sends key e) = Unit {0}
Lawful k s s' (drops_receives key e) = Unit {0}
Lawful k s s' (finds_peer codes av addr buf status out set_default e) = Unit {0}
Lawful k s s' (sets_peer addr e) = Unit {0}

abbrev pub AllLawful : (k : Setting) (s s' : Session) → Reach k s s' → Type 0
AllLawful k s s' here = Unit {0}
AllLawful k s s' (next {u} r t) = AllLawful k s u r × Lawful k u s' t

step-Held :
    (t : Telemetry) (k : Setting) (s s' : Session) (m : Step k s s')
    → t.has_metrics ≡ true
    → Lawful k s s' m
    → Sound s
    → Held s'
step-Held t k s s' (sends payload dest reply ans e) h f v =
    rw e (send_async-Held k payload dest reply ans s f v)
step-Held t k s s' (receives buf reply ans e) h f v =
    rw e (receive_async-Held k buf reply ans s f v)
step-Held t k s s' (dispatches rounds backoff e) h f v = rw e (
  dispatcher-Inv k rounds s backoff v.registry,
  (rounds-Counted t k rounds s backoff h v.attached).1,
)
step-Held t k s s' (hears_sends handler e) h f v =
    rw e (v.registry, record { waits = v.attached.waits; own = v.attached.own })
step-Held t k s s' (hears_receives handler e) h f v =
    rw e (v.registry, record { waits = v.attached.waits; own = v.attached.own })
step-Held t k s s' (drops_sends key e) h f v =
    rw e (v.registry, record { waits = v.attached.waits; own = v.attached.own })
step-Held t k s s' (drops_receives key e) h f v =
    rw e (v.registry, record { waits = v.attached.waits; own = v.attached.own })
step-Held t k s s' (finds_peer codes av addr buf status out set_default e) h f v =
    rw e (v.registry, record { waits = v.attached.waits; own = v.attached.own })
step-Held t k s s' (sets_peer addr e) h f v =
    rw e (v.registry, record { waits = v.attached.waits; own = v.attached.own })

Reach-Sound :
    (t : Telemetry) (k : Setting) (s s' : Session) (r : Reach k s s')
    → t.has_metrics ≡ true
    → AllLawful k s s' r
    → Sound s
    → Sound s'
Reach-Sound t k s s' here h f v = v
Reach-Sound t k s s' (next {u} r m) h (f, g) v =
    let before = Reach-Sound t k s u r h f v in
    let (i, a) = step-Held t k u s' m h g before in
    record { registry = i; ledger = step-Ledger k u s' m before.ledger; attached = a }

new-Sound :
    (client : Client) (endpoint : Endpoint) (memory : Memory)
    → Sound (new_session client endpoint memory)
unfolding lookup new_operation
new-Sound client endpoint memory = record {
  registry = start-Inv;
  ledger = new-Ledger client endpoint memory;
  attached = record {
    waits = λ ptr id n l v. refl;
    own = λ ptr other id j n l m v w. absurd (ground (arith, l));
  };
}

-- A client that is set up, any calls of sendAsync and ReceiveAsync in which the C allocator returns no
-- context pointer still in use, any registrations of handlers and peers, and any rounds of the dispatcher,
-- in any order and each as one step; then a run of the dispatcher with a metric hook, from its start to its end, whatever its
-- reads answer: a hook that counts its calls of each kind reaches, from the client's statistics before
-- the run, the client's statistics after it.
pub Reach-metrics :
    (t : Telemetry) (k : Setting) (client : Client) (endpoint : Endpoint) (memory : Memory)
    (s : Session) (rounds : List Round) (r : Reach k (new_session client endpoint memory) s)
    → t.has_metrics ≡ true
    → AllLawful k (new_session client endpoint memory) s r
    → (dispatcher k rounds (s, some 1)).0.board.stats
      ≡ tally (metrics_of (told_dispatch t k rounds s)) s.board.stats
Reach-metrics t k client endpoint memory s rounds r h f =
    metrics_agree t k rounds s h
      (Reach-Sound t k (new_session client endpoint memory) s r h f
        (new-Sound client endpoint memory)).attached
