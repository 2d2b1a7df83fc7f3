-- ===== src/Client/Dispatch.antt =====
-- client/client.go: handleCompletion, which finds the operation of a completion as the value of its
-- context, and the SetValue by which sendAsync and ReceiveAsync attach an operation after the post. A
-- context without a value, or with a value that is no operation, has none here. The source address of a
-- receive is kept in Client/Session, what is logged in Client/Telemetry.
pub mod Race
use libfabric_go.Base.{ℕ, Option, none, some, List, [], ◌∷◌, ◌==◌, if◌then◌else◌}
use libfabric_go.Capi.Errors.{
  GoError, OperationKind, OperationError, operation_error, Result, ok, err,
}
use libfabric_go.Base.Int.{ℤ}
use libfabric_go.Fi.Context.{Runtime, resolve_completion, set_value}
use libfabric_go.Client.Operation.{Operation, OperationResult, Notice, complete}

-- An entry of the error queue.
pub record Entry : Type 0 where
  pub errno : ℤ
  pub provider_err : ℤ
  pub flags : ℕ
  pub len : ℕ
  pub payload : ℕ
  pub tag : ℕ

-- The operations by number, each with what it made happen.
pub record State : Type 0 where
  pub runtime : Runtime
  pub operations : ℕ → Operation × List Notice

-- The result that `handleCompletion` gives: the size of the operation, and the error of the entry.
unfoldable pub result_of : Operation → Option Entry → OperationResult
result_of op none = record { length = op.size; error = none }
result_of op (some e) = record {
  length = op.size;
  error = some (
      operation_error (record {
        kind = op.kind;
        errno = e.errno;
        provider_err = e.provider_err;
        flags = e.flags;
        len = e.len;
        payload = e.payload;
        tag = e.tag;
      }));
}

abbrev pub update :
    (ℕ → Operation × List Notice) → ℕ → Operation × List Notice → ℕ → Operation × List Notice
update operations n s j = if n == j then s else operations j

unfoldable pub complete_value : Option Entry → Option ℕ → State → State
unfolding result_of
complete_value entry none s = s
complete_value entry (some n) s = record s {
  operations =
      update s.operations n (complete (result_of (s.operations n).0 entry) (s.operations n));
}

unfoldable pub complete_resolved : Option Entry → Runtime × Result ℕ → State → State
unfolding complete_value
complete_resolved entry (r, err e) s = record s { runtime = r }
complete_resolved entry (r, ok id) s =
    complete_value entry (r.objects id).value (record s { runtime = r })

-- A completion of the pointer `ptr`, from the queue or, with an entry, from the error queue.
unfoldable pub handle_completion : ℕ → Option Entry → State → State
unfolding complete_resolved
handle_completion ptr entry s = complete_resolved entry (resolve_completion ptr s.runtime) s

-- `ctx.SetValue(op)`
unfoldable pub attach : ℕ → ℕ → State → State
attach id n s = record s { runtime = set_value id n s.runtime }

-- The dispatcher, over the completions that it reads.
unfoldable pub dispatch : List (ℕ × Option Entry) → State → State
unfolding handle_completion
dispatch [] s = s
dispatch ((ptr, entry) ∷ rest) s = dispatch rest (handle_completion ptr entry s)
