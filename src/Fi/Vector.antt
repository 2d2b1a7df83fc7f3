-- ===== src/Fi/Vector.antt =====
-- fi/address_vector.go over internal/capi/av.go, and RegisterAddress of fi/endpoint.go. A Go handle is the
-- pointer inside the `capi` value, a nil one `none`.
pub mod Insert
use libfabric_go.Base.{ℕ, String, Option, none, some, List, [], ◌∷◌, ◌==◌, if◌then◌else◌, length}
use libfabric_go.Base.Int.{ℤ}
use libfabric_go.Capi.Errors.{GoError, message, invalid_handle, Result, ok, err}
use libfabric_go.Capi.Handle.{Codes}
use libfabric_go.Capi.Name.{Reply, NameEffect, name}
use libfabric_go.Capi.Vector.{insert_service, insert_raw, remove}

pub data VectorEffect : Type 0 where
  allocated copied freed : ℕ → VectorEffect

unfoldable pub add_service : Codes → Option ℕ → ℤ → ℕ → Result ℕ
unfolding insert_service
add_service k none status out = err (invalid_handle "address vector")
add_service k (some v) status out = insert_service k v status out

unfoldable pub remove_addresses : Codes → Option ℕ → List ℕ → ℤ → Option GoError
unfolding remove
remove_addresses k none addresses status = some (invalid_handle "address vector")
remove_addresses k (some v) addresses status = remove k v addresses status

-- `buf` is the answer of `AllocBytes`; the address is copied into it for the time of the call.
unfoldable pub add_raw : Codes → Option ℕ → List ℕ → ℕ → ℤ → ℕ → Result ℕ × List VectorEffect
unfolding insert_raw
add_raw k none addr buf status out = (err (invalid_handle "address vector"), [])
add_raw k (some v) addr buf status out =
    if length addr == 0
    then (err (message "libfabric: empty address payload"), [])
    else if buf == 0
    then (err (message "libfabric: unable to allocate address buffer"), [])
    else (insert_raw k v buf status out, allocated buf ∷ copied (length addr) ∷ freed buf ∷ [])

-- The end of RegisterAddress, from what the read of the name gave.
unfoldable pub insert_name : Codes → ℕ → Result (List ℕ) → ℕ → ℤ → ℕ → Result ℕ × List VectorEffect
unfolding add_raw
insert_name k v (err e) buf status out = (err e, [])
insert_name k v (ok bytes) buf status out = add_raw k (some v) bytes buf status out

-- The endpoint's own name, put into a vector; `provider` answers the reads of the name.
unfoldable pub register_address :
    Codes → Option ℕ → Option ℕ → (ℕ → Reply) → ℕ → ℤ → ℕ → Result ℕ × List VectorEffect
unfolding insert_name
register_address k none v provider buf status out = (err (invalid_handle "endpoint"), [])
register_address k (some ep) none provider buf status out =
    (err (invalid_handle "address vector"), [])
register_address k (some ep) (some v) provider buf status out =
    insert_name k v (name k ep provider).0 buf status out
