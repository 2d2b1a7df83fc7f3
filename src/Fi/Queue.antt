-- ===== src/Fi/Queue.antt =====
-- fi/endpoint.go and fi/passive.go: completion and event queues over those of internal/capi/endpoint.go,
-- and the close of every handle. A Go handle is the pointer inside the `capi` value, a nil one `none`.
pub mod Reads
use libfabric_go.Base.{ℕ, String, Option, none, some, List, [], if◌then◌else◌}
use libfabric_go.Base.Int.{ℤ, pos}
use libfabric_go.Capi.Errors.{
  GoError, Sentinel, sentinel, message, invalid_handle, is_errno, Result, ok, err,
}
use libfabric_go.Capi.Handle.{Codes, Closing, close_fid}
use libfabric_go.Capi.Queue.{
  CqEvent, CqFormat, CqError, EqEvent, EqError, CmEntry, CmEvent, read_context, read_error,
  read_event, read_event_error, read_cm, free_info,
}

unfoldable pub translate_err : Codes → Sentinel → GoError → GoError
unfolding is_errno
translate_err k s e =
    if is_errno (pos k.again) e
    then sentinel s
    else if is_errno (pos k.timed_out) e
    then sentinel Sentinel.timed_out
    else e

-- How every read of the package ends: `s` stands for an empty queue.
unfoldable pub translated : {A : Type 0} → Codes → Sentinel → Result (Option A) → Result A
unfolding translate_err
translated k s (err e) = err (translate_err k s e)
translated k s (ok none) = err (sentinel s)
translated k s (ok (some a)) = ok a

-- `ret` and `entry` are the answer of the C call.
unfoldable pub read_completion : Codes → Option ℕ → CqFormat → ℤ → CqEvent → Result CqEvent
unfolding translated read_context
read_completion k none format ret entry = err (invalid_handle "completion queue")
read_completion k (some h) format ret entry =
    translated k Sentinel.no_completion (read_context k h format ret entry)

unfoldable pub read_completion_error : Codes → Option ℕ → ℤ → CqError → Result CqError
unfolding translated read_error
read_completion_error k none ret entry = err (invalid_handle "completion queue")
read_completion_error k (some h) ret entry =
    translated k Sentinel.no_completion (read_error k h ret entry)

unfoldable pub read_queue_event : Codes → Option ℕ → ℤ → EqEvent → Result EqEvent
unfolding translated read_event
read_queue_event k none ret entry = err (invalid_handle "event queue")
read_queue_event k (some h) ret entry = translated k Sentinel.no_event (read_event k h ret entry)

unfoldable pub read_queue_error : Codes → Option ℕ → ℤ → EqError → Result EqError
unfolding translated read_event_error
read_queue_error k none ret entry = err (invalid_handle "event queue")
read_queue_error k (some h) ret entry =
    translated k Sentinel.no_event (read_event_error k h ret entry)

-- A connection event is the `capi` event, `base` the size of the C entry.
unfoldable pub read_connection_event : Codes → Option ℕ → ℕ → ℤ → CmEntry → Result CmEvent
unfolding translated read_cm
read_connection_event k none base ret entry = err (invalid_handle "event queue")
read_connection_event k (some h) base ret entry =
    translated k Sentinel.no_event (read_cm k h base ret entry)

-- `ConnectionEvent.Free`: the `capi` event that is left, and the infos that are freed.
unfoldable pub free_event : Option CmEvent → Option CmEvent × List ℕ
unfolding free_info
free_event none = (none, [])
free_event (some e) = (none, (free_info e).1)

-- A close gives the error and drops the handle; the second part is what the close of the `capi` value did.
unfoldable pub close_handle : String → Option ℕ → ℤ → Option ℕ × Option Closing
unfolding close_fid
close_handle op none status = (none, none)
close_handle op (some h) status = (none, some (close_fid op h status))
