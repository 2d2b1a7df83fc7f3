-- ===== src/Fi/Wait.antt =====
-- fi/wait.go: waitForCompletion. A round of its loop is one `Poll`: the answer of the context, of the
-- queue and of the clock is an argument, and so is how many rounds there are; a wait that has used up its
-- rounds is still waiting. The wait sets are in Fi/Wait/Sets.antt.
pub mod Found
pub mod Sync
pub mod Sets
use libfabric_go.Base.{
  ℕ, Bool, true, false, ◌&&◌, ◌||◌, Option, none, some, List, [], ◌∷◌, ◌==◌, if◌then◌else◌,
}
use libfabric_go.Base.Int.{ℤ, pos, ltb_ℤ, eqb_ℤ}
use libfabric_go.Capi.Errors.{
  GoError, Sentinel, sentinel, invalid_handle, is_sentinel, Result, ok, err,
}
use libfabric_go.Fi.Context.{Runtime, resolve_completion}

-- The context is done with an error, or the queue is read; `expired` tells whether the deadline is over.
pub data Poll : Type 0 where
  cancels : GoError → Poll
  reads : Result ℕ → Bool → Poll

-- `found` carries the context pointer of the event; `nothing` is the answer to a nil target.
pub data Waited : Type 0 where
  waiting : Waited
  found : ℕ → Waited
  fails : GoError → Waited
  nothing : Waited

-- Whether an empty queue ends the wait.
unfoldable pub gives_up : ℤ → Bool → Bool
gives_up timeout expired = (ltb_ℤ (pos 0) timeout && expired) || eqb_ℤ timeout (pos 0)

-- What a round makes of the context that it resolved; `rest` is what the later rounds give.
unfoldable pub on_resolved : ℕ → ℕ → Runtime × Result ℕ → Runtime × Waited → Runtime × Waited
on_resolved target ptr (r, ok id) rest = if id == target then (r, found ptr) else rest
on_resolved target ptr (r, err e) rest =
    if is_sentinel Sentinel.context_unknown e then rest else (r, fails e)

unfoldable pub wait_loop : ℤ → ℕ → Runtime → List Poll → Runtime × Waited
unfolding gives_up on_resolved
wait_loop timeout target r [] = (r, waiting)
wait_loop timeout target r (cancels e ∷ polls) = (r, fails e)
wait_loop timeout target r (reads (err e) expired ∷ polls) =
    let rest = wait_loop timeout target r polls in
    if is_sentinel Sentinel.no_completion e
    then if gives_up timeout expired then (r, fails (sentinel Sentinel.timed_out)) else rest
    else (r, fails e)
wait_loop timeout target r (reads (ok ptr) expired ∷ polls) =
    on_resolved target ptr (resolve_completion ptr r)
      (wait_loop timeout target (resolve_completion ptr r).0 polls)

-- `queue` is the handle of the completion queue.
unfoldable pub wait_for_completion : ℕ → Option ℕ → ℤ → Runtime → List Poll → Runtime × Waited
unfolding wait_loop
wait_for_completion queue none timeout r polls = (r, nothing)
wait_for_completion queue (some target) timeout r polls =
    if queue == 0
    then (r, fails (invalid_handle "completion queue"))
    else wait_loop timeout target r polls
