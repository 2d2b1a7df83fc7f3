-- ===== src/Capi/Errors.antt =====
-- internal/capi/errors.go, with the error values of fi/errors.go, fi/endpoint.go and
-- client/client.go. A Go `error` is a value of `GoError`, a nil error is `none`.
pub mod Laws
use libfabric_go.Base.{ℕ, String, Bool, true, false, Option, none, some, str_eq, if◌then◌else◌}
use libfabric_go.Base.Int.{ℤ, pos, neg, int32, eqb_ℤ, ltb_ℤ}

-- The package-level error values that the code compares by identity.
pub data Sentinel : Type 0 where
  no_completion no_event timed_out context_unknown capability_unsupported : Sentinel
  insufficient_access client_closed context_cancelled deadline_exceeded : Sentinel

abbrev pub same_sentinel : Sentinel → Sentinel → Bool
same_sentinel Sentinel.no_completion Sentinel.no_completion = true
same_sentinel Sentinel.no_event Sentinel.no_event = true
same_sentinel Sentinel.timed_out Sentinel.timed_out = true
same_sentinel Sentinel.context_unknown Sentinel.context_unknown = true
same_sentinel Sentinel.capability_unsupported Sentinel.capability_unsupported = true
same_sentinel Sentinel.insufficient_access Sentinel.insufficient_access = true
same_sentinel Sentinel.client_closed Sentinel.client_closed = true
same_sentinel Sentinel.context_cancelled Sentinel.context_cancelled = true
same_sentinel Sentinel.deadline_exceeded Sentinel.deadline_exceeded = true
same_sentinel _ _ = false

pub data OperationKind : Type 0 where
  operation_send operation_receive : OperationKind

-- Details of a completion error; the fields other than the error code are unsigned 64-bit values.
pub record OperationError : Type 0 where
  pub kind : OperationKind
  pub errno : ℤ
  pub provider_err : ℤ
  pub flags : ℕ
  pub len : ℕ
  pub payload : ℕ
  pub tag : ℕ

-- `wrapped` is `fmt.Errorf("...: %w", err)`; `message` is an error that wraps nothing.
pub data GoError : Type 0 where
  errno : ℤ → GoError
  sentinel : Sentinel → GoError
  invalid_handle : String → GoError
  message : String → GoError
  operation_error : OperationError → GoError
  wrapped : String → GoError → GoError

pub data Result {ℓ} (A : Type ℓ) : Type ℓ where
  ok : A → Result A
  err : GoError → Result A

-- `errors.Is(e, Errno(n))`, through the `Unwrap` methods.
unfoldable pub is_errno : ℤ → GoError → Bool
is_errno n (GoError.errno m) = eqb_ℤ m n
is_errno n (operation_error d) = eqb_ℤ d.errno n
is_errno n (wrapped op e) = is_errno n e
is_errno n _ = false

-- `errors.Is(e, s)` for an error value of a package.
unfoldable pub is_sentinel : Sentinel → GoError → Bool
is_sentinel s (sentinel t) = same_sentinel t s
is_sentinel s (wrapped op e) = is_sentinel s e
is_sentinel s _ = false

unfoldable pub with_op : ℤ → String → GoError
with_op e op = if str_eq op "" then GoError.errno e else wrapped op (GoError.errno e)

-- A status of the C library is an `int`; its negation is converted to the 32 bits of an `Errno`.
unfoldable pub error_from_status : ℤ → String → Option GoError
unfolding with_op
error_from_status status op =
    let code = int32 (neg status) in
    if ltb_ℤ status (pos 0)
    then if eqb_ℤ code (pos 0) then none else some (with_op code op)
    else none

-- What `MustSucceed` does: it returns, or panics with the error.
pub data Outcome : Type 0 where
  returns : Outcome
  panics : GoError → Outcome

unfoldable pub must_succeed : ℤ → String → Outcome
unfolding error_from_status
must_succeed status op = elim (error_from_status status op) [ none ↦ returns | some e ↦ panics e ]
