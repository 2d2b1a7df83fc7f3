-- ===== src/Capi/Queue.antt =====
-- internal/capi/endpoint.go: reads of completion and event queues. `ret` is what the C call returns,
-- and the entry what it has stored.
use libfabric_go.Base.{
  ℕ, ◌-◌, ◌/◌, String, Bool, false, not, Option, none, some, List, [], ◌==◌, if◌then◌else◌, ◌∷◌,
}
use libfabric_go.Base.Int.{ℤ, pos, negsuc, int32, ltb_ℤ, eqb_ℤ}
use libfabric_go.Capi.Errors.{GoError, error_from_status, Result, ok, err}
use libfabric_go.Capi.Handle.{Codes, unavailable}

-- `payload` is the field `Data` of the source.
pub record CqEvent : Type 0 where
  pub context : ℕ
  pub tag : ℕ
  pub payload : ℕ
  pub src_addr : ℕ

-- The formats that the code tells apart.
pub data CqFormat : Type 0 where
  tagged msg other : CqFormat

pub record CqError : Type 0 where
  pub context : ℕ
  pub flags : ℕ
  pub len : ℕ
  pub buffer : ℕ
  pub payload : ℕ
  pub tag : ℕ
  pub error : ℤ
  pub provider_err : ℤ
  pub err_data : ℕ
  pub err_data_size : ℕ
  pub src_addr : ℕ

pub record EqEvent : Type 0 where
  pub event : ℕ
  pub fid : ℕ
  pub context : ℕ
  pub payload : ℕ

pub record EqError : Type 0 where
  pub fid : ℕ
  pub context : ℕ
  pub payload : ℕ
  pub error : ℤ
  pub provider_err : ℤ
  pub err_data : ℕ
  pub err_data_size : ℕ

abbrev pub nothing_or : {A : Type 0} → Option GoError → Result (Option A)
nothing_or none = ok none
nothing_or (some e) = err e

-- How every read ends: an entry, nothing, or the error of a negative value.
unfoldable pub read_result : {A : Type 0} → String → ℤ → A → Result (Option A)
unfolding error_from_status
read_result op ret entry =
    if ltb_ℤ (pos 0) ret
    then ok (some entry)
    else if eqb_ℤ ret (pos 0)
    then ok none
    else nothing_or (error_from_status ret op)

-- Only a tagged entry has a tag and data, only a message entry is read with its source.
unfoldable pub read_context : Codes → ℕ → CqFormat → ℤ → CqEvent → Result (Option CqEvent)
unfolding unavailable read_result
read_context k h format ret entry =
    if h == 0 then err (unavailable k "fi_cq_read") else elim format [
      | tagged ↦ read_result "fi_cq_read" ret (record {
        context = entry.context;
        tag = entry.tag;
        payload = entry.payload;
        src_addr = 0;
      })
      | msg ↦
          read_result "fi_cq_readfrom" ret
            (record { context = entry.context; tag = 0; payload = 0; src_addr = entry.src_addr })
      | other ↦
          read_result "fi_cq_read" ret
            (record { context = entry.context; tag = 0; payload = 0; src_addr = 0 })
    ]

-- The source address of an error is not read.
unfoldable pub read_error : Codes → ℕ → ℤ → CqError → Result (Option CqError)
unfolding unavailable read_result
read_error k h ret entry =
    if h == 0
    then err (unavailable k "fi_cq_readerr")
    else read_result "fi_cq_readerr" ret (record entry { error = int32 entry.error; src_addr = 0 })

unfoldable pub read_event : Codes → ℕ → ℤ → EqEvent → Result (Option EqEvent)
unfolding unavailable read_result
read_event k h ret entry =
    if h == 0 then err (unavailable k "fi_eq_read") else read_result "fi_eq_read" ret entry

unfoldable pub read_event_error : Codes → ℕ → ℤ → EqError → Result (Option EqError)
unfolding unavailable read_result
read_event_error k h ret entry =
    if h == 0
    then err (unavailable k "fi_eq_readerr")
    else read_result "fi_eq_readerr" ret (record entry { error = int32 entry.error })

-- A connection event; `data_len` is the length of its `Data`.
pub record CmEvent : Type 0 where
  pub event : ℕ
  pub fid : ℕ
  pub info : ℕ
  pub data_len : ℕ
  pub owns_info : Bool

pub record CmEntry : Type 0 where
  pub event : ℕ
  pub fid : ℕ
  pub info : ℕ

-- Nanoseconds as the milliseconds of a C int; -1 waits for ever.
unfoldable pub timeout_ms : ℤ → ℤ
timeout_ms (pos n) = int32 (pos (n / 1000000))
timeout_ms (negsuc n) = negsuc 0

-- `int(ret) - baseSize`, if it is positive.
unfoldable pub cm_data_len : ℤ → ℕ → ℕ
cm_data_len (pos n) base = n - base
cm_data_len (negsuc n) base = 0

-- `base` is the size of the C entry.
unfoldable pub read_cm : Codes → ℕ → ℕ → ℤ → CmEntry → Result (Option CmEvent)
unfolding unavailable read_result cm_data_len
read_cm k h base ret entry =
    if h == 0
    then err (unavailable k "fi_eq_sread")
    else read_result "fi_eq_sread" ret (record {
      event = entry.event;
      fid = entry.fid;
      info = entry.info;
      data_len = cm_data_len ret base;
      owns_info = not (entry.info == 0);
    })

-- `CMEvent.FreeInfo`: the event afterwards, and the infos that are freed.
unfoldable pub free_info : CmEvent → CmEvent × List ℕ
free_info e =
    if not e.owns_info
    then (e, [])
    else (record e { owns_info = false }, if e.info == 0 then [] else e.info ∷ [])
