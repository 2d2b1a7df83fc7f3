-- ===== src/Fi/Queue/Reads.antt =====
-- fi/endpoint.go: what a read of a queue gives for each answer of the C library.
use libfabric_go.Base.{
  ℕ, zero, suc, ◌≡◌, ◌<◌, ◌^◌, String, arith, ◌==◌, if◌then◌else◌, ◌≢◌, some, ◌≤◌, [], ◌∷◌,
}
use libfabric_go.Base.Int.{ℤ, pos, negsuc, neg_part, int32}
use libfabric_go.Capi.Errors.{
  Sentinel, sentinel, with_op, error_from_status, Result, ok, err, is_errno,
}
use libfabric_go.Capi.Errors.Laws.{code_of_negative}
use libfabric_go.Capi.Handle.{Codes}
use libfabric_go.Capi.Queue.{
  tagged, msg, other, read_result, CqFormat, read_context, CqEvent, read_cm, free_info, read_error,
  cm_data_len, read_event, CmEntry, read_event_error, CmEvent, CqError, EqEvent, EqError,
}
use libfabric_go.Fi.Queue.{
  translated, read_completion, read_connection_event, read_completion_error, read_queue_event,
  free_event, read_queue_error,
}

-- The result of a read, by the answer of the C call: an entry for a positive one; the error `s` of an empty
-- queue for 0 and for the code to try again; the timeout for its code; else the code.
abbrev pub outcome : {A : Type 0} → Codes → Sentinel → String → A → ℤ → Result A
outcome k s op a (pos zero) = err (sentinel s)
outcome k s op a (pos (suc n)) = ok a
outcome k s op a (negsuc n) =
    if suc n == k.again
    then err (sentinel s)
    else if suc n == k.timed_out
    then err (sentinel Sentinel.timed_out)
    else err (with_op (pos (suc n)) op)

negative_result :
    {A : Type 0} (k : Codes) (s : Sentinel) (op : String) (a : A) (n : ℕ)
    → suc n < 2 ^ 31
    → translated k s (read_result op (negsuc n) a) ≡ outcome k s op a (negsuc n)
unfolding translated read_result error_from_status with_op is_errno
negative_result k s op a n b = ground (arith, code_of_negative n b)

translated-outcome :
    {A : Type 0} (k : Codes) (s : Sentinel) (op : String) (a : A) (ret : ℤ)
    → neg_part ret < 2 ^ 31
    → translated k s (read_result op ret a) ≡ outcome k s op a ret
unfolding translated read_result
translated-outcome k s op a (pos zero) b = ground arith
translated-outcome k s op a (pos (suc n)) b = ground arith
translated-outcome k s op a (negsuc n) b = negative_result k s op a n b

-- The C call for a format, and what its entry tells.
abbrev pub read_op : CqFormat → String
read_op tagged = "fi_cq_read"
read_op msg = "fi_cq_readfrom"
read_op other = "fi_cq_read"

abbrev pub visible : CqFormat → CqEvent → CqEvent
visible tagged e = record { context = e.context; tag = e.tag; payload = e.payload; src_addr = 0 }
visible msg e = record { context = e.context; tag = 0; payload = 0; src_addr = e.src_addr }
visible other e = record { context = e.context; tag = 0; payload = 0; src_addr = 0 }

read_context_on :
    (k : Codes) (h : ℕ) (f : CqFormat) (ret : ℤ) (e : CqEvent)
    → h ≢ 0
    → read_context k h f ret e ≡ read_result (read_op f) ret (visible f e)
unfolding read_context
read_context_on k h tagged ret e live = ground (arith, live)
read_context_on k h msg ret e live = ground (arith, live)
read_context_on k h other ret e live = ground (arith, live)

-- Every read of a queue that is open, with an answer above -2^31: a positive one gives the entry, 0 and the
-- code to try again the error of an empty queue, the code of a timeout the timeout, and any other
-- negative one this code. Only a tagged queue tells a tag and data, only a message queue a source; the code of an error entry
-- is cut to 32 bits.
pub read_outcomes :
    (k : Codes) (h : ℕ) (ret : ℤ)
    → h ≢ 0
    → neg_part ret < 2 ^ 31
    → ((f : CqFormat) (e : CqEvent)
        → read_completion k (some h) f ret e
          ≡ outcome k Sentinel.no_completion (read_op f) (visible f e) ret)
      × ((e : CqError)
          → read_completion_error k (some h) ret e
            ≡ outcome k Sentinel.no_completion "fi_cq_readerr"
                (record e { error = int32 e.error; src_addr = 0 })
                ret)
      × ((e : EqEvent)
          → read_queue_event k (some h) ret e ≡ outcome k Sentinel.no_event "fi_eq_read" e ret)
      × ((e : EqError)
          → read_queue_error k (some h) ret e
            ≡ outcome k Sentinel.no_event "fi_eq_readerr" (record e { error = int32 e.error }) ret)
unfolding read_completion read_completion_error read_queue_event read_queue_error read_error
    read_event read_event_error
read_outcomes k h ret live b = (
  λ f e.
      rw (read_context_on k h f ret e live)
        (translated-outcome k Sentinel.no_completion (read_op f) (visible f e) ret b),
  λ e. ground (
    arith,
    live,
    translated-outcome k Sentinel.no_completion "fi_cq_readerr"
        (record e { error = int32 e.error; src_addr = 0 }) ret b,
  ),
  λ e. ground (arith, live, translated-outcome k Sentinel.no_event "fi_eq_read" e ret b),
  λ e. ground (
    arith,
    live,
    translated-outcome k Sentinel.no_event "fi_eq_readerr" (record e { error = int32 e.error }) ret
        b,
  ),
)

-- A connection event that is read owns its info exactly if it has one, its first Free frees this info
-- and a second Free nothing; where the C library writes no more than the `base` bytes that it was
-- given, the event has no private data.
pub connection_event_once :
    (k : Codes) (h base n : ℕ) (entry : CmEntry) (e : CmEvent)
    → n ≤ base
    → read_connection_event k (some h) base (pos n) entry ≡ ok e
    → (e.data_len ≡ 0)
      × ((free_event (some e)).1 ≡ (if entry.info == 0 then [] else entry.info ∷ []))
      × ((free_event (free_event (some e)).0).1 ≡ [])
unfolding read_connection_event read_cm translated read_result free_event free_info cm_data_len
connection_event_once k h base n entry e le r = ground (arith, r)
