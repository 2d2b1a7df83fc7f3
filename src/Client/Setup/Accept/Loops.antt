-- ===== src/Client/Setup/Accept/Loops.antt =====
-- client/listener.go: the resources behind the event loops.
use libfabric_go.Base.{
  arith, ◌≡◌, ◌++◌, ◌∙◌, refl, true, none, some, List, [], ◌∷◌, inl, inr, Bool-cases, false,
}
use libfabric_go.Capi.Errors.{Sentinel, is_sentinel, Result, ok, err}
use libfabric_go.Client.Setup.{Provider, Event, Resource, opened, request, live, live_from, is_busy}
use libfabric_go.Client.Setup.Dial.{Client}
use libfabric_go.Client.Setup.Listener.{Listener, handle_conn_req}
use libfabric_go.Client.Setup.Leaks.{live-append}
use libfabric_go.Client.Setup.ListenerLeaks.{
  AcceptOutcome, listener_resources, handle_conn_req-AcceptOutcome,
}
use libfabric_go.Client.Setup.Accept.{
  Round, stops, cancels, reads, conn_req, connected_event, shutdown_event, other_event, waiting,
  answers, Loop, read_and_freed, answered, wait_connected, accept,
}

read_and_freed-live : (rs : List Resource) → live_from false (some rs) read_and_freed ≡ some rs
read_and_freed-live rs = elim (Bool-cases (is_busy request rs)) [
  | inl x ↦ rw x refl
  | inr x ↦ rw x refl
]

freed_again :
    (log : List Event) (rs : List Resource)
    → live false log ≡ some rs
    → live false (log ++ read_and_freed) ≡ some rs
freed_again log rs h = live-append false log read_and_freed rs h ∙ read_and_freed-live rs

-- What an `Accept` leaves, or has while it still waits.
abbrev pub LoopOutcome : Loop Client → Type 0
LoopOutcome (log, waiting) = live false log ≡ some (listener_resources [])
LoopOutcome (log, answers r) = AcceptOutcome (log, r)

answered-LoopOutcome : (o : List Event × Result Client) → AcceptOutcome o → LoopOutcome (answered o)
answered-LoopOutcome (log, r) h = h

-- `Accept` where Close has been called on all resources but the listener's, whatever the queue yields in however
-- many rounds: while it waits, and after an error, these resources alone are left, so Close has been called
-- once on everything that it opened and every event that was read has been freed. After a success the client's
-- endpoint and queues are left beside them; the client's `Close` calls Close on these, each when nothing rests
-- on it, and leaves the listener's. That a close on an error path takes effect is not said.
pub accept-LoopOutcome :
    (p : Provider) (l : Listener) (rounds : List Round) (log : List Event)
    → live false log ≡ some (listener_resources [])
    → LoopOutcome (accept p l rounds log)
unfolding accept
accept-LoopOutcome p l [] log h = h
accept-LoopOutcome p l (stops ∷ rounds) log h = h
accept-LoopOutcome p l (cancels e ∷ rounds) log h = h
accept-LoopOutcome p l (reads (err e) ∷ rounds) log h =
    elim (Bool-cases (is_sentinel Sentinel.no_event e)) [
      | inl x ↦ rw x (accept-LoopOutcome p l rounds log h)
      | inr x ↦ rw x h
    ]
accept-LoopOutcome p l (reads (ok none) ∷ rounds) log h = accept-LoopOutcome p l rounds log h
accept-LoopOutcome p l (reads (ok (some conn_req)) ∷ rounds) log h =
    answered-LoopOutcome (handle_conn_req p l (log ++ opened request ∷ [])) (
      handle_conn_req-AcceptOutcome p l (log ++ opened request ∷ [])
        (live-append false log (opened request ∷ []) (listener_resources []) h))
accept-LoopOutcome p l (reads (ok (some connected_event)) ∷ rounds) log h =
    accept-LoopOutcome p l rounds (log ++ read_and_freed)
      (freed_again log (listener_resources []) h)
accept-LoopOutcome p l (reads (ok (some shutdown_event)) ∷ rounds) log h =
    accept-LoopOutcome p l rounds (log ++ read_and_freed)
      (freed_again log (listener_resources []) h)
accept-LoopOutcome p l (reads (ok (some other_event)) ∷ rounds) log h =
    accept-LoopOutcome p l rounds (log ++ read_and_freed)
      (freed_again log (listener_resources []) h)

-- The first round that decides a handshake, if there is one: the handshake succeeded there.
abbrev pub Succeeds : List Round → Type 0
Succeeds [] = ⊥
Succeeds (cancels e ∷ rounds) = ⊥
Succeeds (stops ∷ rounds) = ⊥
Succeeds (reads (err e) ∷ rounds) = (is_sentinel Sentinel.no_event e ≡ true) × Succeeds rounds
Succeeds (reads (ok none) ∷ rounds) = Succeeds rounds
Succeeds (reads (ok (some connected_event)) ∷ rounds) = Unit {0}
Succeeds (reads (ok (some shutdown_event)) ∷ rounds) = ⊥
Succeeds (reads (ok (some conn_req)) ∷ rounds) = Succeeds rounds
Succeeds (reads (ok (some other_event)) ∷ rounds) = Succeeds rounds

-- `waitForConnected` leaves open what was open, whatever it answers: every event that it reads is freed.
-- It succeeds if a connected event is read before the context is done, the deadline is over, a read
-- fails or the connection is shut down.
pub wait_connected-live :
    (rounds : List Round) (log : List Event) (rs : List Resource)
    → live false log ≡ some rs
    → (live false (wait_connected rounds log).0 ≡ some rs)
      × (Succeeds rounds → (wait_connected rounds log).1 ≡ answers (ok tt))
unfolding wait_connected
wait_connected-live [] log rs h = (h, λ s. absurd s)
wait_connected-live (cancels e ∷ rounds) log rs h = (h, λ s. absurd s)
wait_connected-live (stops ∷ rounds) log rs h = (h, λ s. absurd s)
wait_connected-live (reads (err e) ∷ rounds) log rs h =
    elim (Bool-cases (is_sentinel Sentinel.no_event e)) [
      | inl x ↦ let (a, b) = wait_connected-live rounds log rs h in rw x (a, λ s. b s.1)
      | inr x ↦ rw x (h, λ s. ground (arith, x, s.0))
    ]
wait_connected-live (reads (ok none) ∷ rounds) log rs h = wait_connected-live rounds log rs h
wait_connected-live (reads (ok (some connected_event)) ∷ rounds) log rs h =
    (freed_again log rs h, λ s. refl)
wait_connected-live (reads (ok (some shutdown_event)) ∷ rounds) log rs h =
    (freed_again log rs h, λ s. absurd s)
wait_connected-live (reads (ok (some conn_req)) ∷ rounds) log rs h =
    wait_connected-live rounds (log ++ read_and_freed) rs (freed_again log rs h)
wait_connected-live (reads (ok (some other_event)) ∷ rounds) log rs h =
    wait_connected-live rounds (log ++ read_and_freed) rs (freed_again log rs h)
