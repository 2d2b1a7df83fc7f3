-- ===== src/Client/Setup/Accept.antt =====
-- client/listener.go: the event loops of Accept and waitForConnected. A round of a loop is one `Round`:
-- what the context, the clock and the event queue answer is an argument, and so is how many rounds there
-- are; a loop that has used up its rounds is still waiting. An event is open from its read to its free.
pub mod Loops
use libfabric_go.Base.{◌++◌, Option, none, some, List, [], ◌∷◌, if◌then◌else◌}
use libfabric_go.Capi.Errors.{GoError, Sentinel, is_sentinel, message, Result, ok, err}
use libfabric_go.Client.Setup.{Provider, Event, opened, closed, request}
use libfabric_go.Client.Setup.Dial.{Client}
use libfabric_go.Client.Setup.Listener.{Listener, handle_conn_req}

-- The types of connection events; `other_event` is any value the code has no name for.
pub data CmEvent : Type 0 where
  conn_req connected_event shutdown_event other_event : CmEvent

-- `stops`: the listener is closed, or the deadline is over; `cancels`: the context is done; else the
-- queue is read, where a nil event is none.
pub data Round : Type 0 where
  stops : Round
  cancels : GoError → Round
  reads : Result (Option CmEvent) → Round

pub data Waited (A : Type 0) : Type 0 where
  waiting : Waited A
  answers : Result A → Waited A

abbrev pub Loop : Type 0 → Type 0
Loop A = List Event × Waited A

-- An event that is read and freed.
abbrev pub read_and_freed : List Event
read_and_freed = opened request ∷ closed request ∷ []

abbrev pub answered : {A : Type 0} → List Event × Result A → Loop A
answered (log, r) = (log, answers r)

unfoldable pub wait_connected : List Round → List Event → Loop (Unit {0})
wait_connected [] log = (log, waiting)
wait_connected (cancels e ∷ rounds) log = (log, answers (err e))
wait_connected (stops ∷ rounds) log =
    (log, answers (err (message "libfabric client: connect timeout exceeded")))
wait_connected (reads (err e) ∷ rounds) log =
    let rest = wait_connected rounds log in
    if is_sentinel Sentinel.no_event e then rest else (log, answers (err e))
wait_connected (reads (ok none) ∷ rounds) log = wait_connected rounds log
wait_connected (reads (ok (some connected_event)) ∷ rounds) log =
    (log ++ read_and_freed, answers (ok tt))
wait_connected (reads (ok (some shutdown_event)) ∷ rounds) log = (
  log ++ read_and_freed,
  answers (err (message "libfabric client: connection closed during handshake")),
)
wait_connected (reads (ok (some conn_req)) ∷ rounds) log =
    wait_connected rounds (log ++ read_and_freed)
wait_connected (reads (ok (some other_event)) ∷ rounds) log =
    wait_connected rounds (log ++ read_and_freed)

unfoldable pub accept : Provider → Listener → List Round → List Event → Loop Client
unfolding handle_conn_req
accept p l [] log = (log, waiting)
accept p l (stops ∷ rounds) log = (log, answers (err (message "libfabric client listener: closed")))
accept p l (cancels e ∷ rounds) log = (log, answers (err e))
accept p l (reads (err e) ∷ rounds) log =
    let rest = accept p l rounds log in
    if is_sentinel Sentinel.no_event e then rest else (log, answers (err e))
accept p l (reads (ok none) ∷ rounds) log = accept p l rounds log
accept p l (reads (ok (some conn_req)) ∷ rounds) log =
    answered (handle_conn_req p l (log ++ opened request ∷ []))
accept p l (reads (ok (some connected_event)) ∷ rounds) log =
    accept p l rounds (log ++ read_and_freed)
accept p l (reads (ok (some shutdown_event)) ∷ rounds) log =
    accept p l rounds (log ++ read_and_freed)
accept p l (reads (ok (some other_event)) ∷ rounds) log = accept p l rounds (log ++ read_and_freed)
