-- ===== src/Capi/Handle.antt =====
-- internal/capi/endpoint.go: handles of the C library, and the calls that need one. A handle is the
-- pointer of its fid, 0 for a nil one; the status of a call is an argument.
use libfabric_go.Base.{ℕ, String, Option, none, some, List, [], ◌∷◌, ◌==◌, ◌||◌, if◌then◌else◌}
use libfabric_go.Base.Int.{ℤ, pos}
use libfabric_go.Capi.Errors.{GoError, with_op, error_from_status, Result, ok, err}

-- The error codes of the C headers that the code names.
pub record Codes : Type 0 where
  pub again : ℕ
  pub timed_out : ℕ
  pub unavailable : ℕ
  pub no_space : ℕ

unfoldable pub unavailable : Codes → String → GoError
unfolding with_op
unavailable k op = with_op (pos k.unavailable) op

-- A call on a handle: its error, if it is refused.
unfoldable pub guarded : Codes → String → ℕ → ℤ → Option GoError
unfolding unavailable error_from_status
guarded k op h status = if h == 0 then some (unavailable k op) else error_from_status status op

-- A call that takes two handles.
unfoldable pub guarded_pair : Codes → String → ℕ → ℕ → ℤ → Option GoError
unfolding unavailable error_from_status
guarded_pair k op h other status =
    if h == 0 || other == 0 then some (unavailable k op) else error_from_status status op

abbrev pub opened : Option GoError → ℕ → Result ℕ
opened none out = ok out
opened (some e) out = err e

-- `out` is the handle that the call stores.
unfoldable pub open_endpoint : Codes → ℕ → ℕ → ℤ → ℕ → Result ℕ
unfolding guarded_pair
open_endpoint k domain entry status out =
    opened (guarded_pair k "fi_endpoint" domain entry status) out

unfoldable pub open_completion_queue : Codes → ℕ → ℤ → ℕ → Result ℕ
unfolding guarded
open_completion_queue k domain status out = opened (guarded k "fi_cq_open" domain status) out

unfoldable pub open_event_queue : Codes → ℕ → ℤ → ℕ → Result ℕ
unfolding guarded
open_event_queue k fabric status out = opened (guarded k "fi_eq_open" fabric status) out

unfoldable pub open_passive_endpoint : Codes → ℕ → ℕ → ℤ → ℕ → Result ℕ
unfolding guarded_pair
open_passive_endpoint k fabric entry status out =
    opened (guarded_pair k "fi_passive_ep" fabric entry status) out

unfoldable pub bind_completion_queue : Codes → ℕ → ℕ → ℤ → Option GoError
unfolding guarded_pair
bind_completion_queue k endpoint queue status =
    guarded_pair k "fi_ep_bind(cq)" endpoint queue status

unfoldable pub bind_event_queue : Codes → ℕ → ℕ → ℤ → Option GoError
unfolding guarded_pair
bind_event_queue k endpoint queue status = guarded_pair k "fi_ep_bind(eq)" endpoint queue status

unfoldable pub bind_address_vector : Codes → ℕ → ℕ → ℤ → Option GoError
unfolding guarded_pair
bind_address_vector k endpoint vector status =
    guarded_pair k "fi_ep_bind(av)" endpoint vector status

unfoldable pub enable : Codes → ℕ → ℤ → Option GoError
unfolding guarded
enable k endpoint status = guarded k "fi_enable" endpoint status

unfoldable pub listen : Codes → ℕ → ℤ → Option GoError
unfolding guarded
listen k endpoint status = guarded k "fi_listen" endpoint status

-- A close: the handle afterwards, the handles passed to fi_close, and the error.
pub record Closing : Type 0 where
  pub handle : ℕ
  pub calls : List ℕ
  pub error : Option GoError

abbrev pub after_close : ℕ → Option GoError → Closing
after_close h none = record { handle = 0; calls = h ∷ []; error = none }
after_close h (some e) = record { handle = h; calls = h ∷ []; error = some e }

unfoldable pub close_fid : String → ℕ → ℤ → Closing
unfolding error_from_status
close_fid op h status =
    if h == 0
    then record { handle = 0; calls = []; error = none }
    else after_close h (error_from_status status op)
