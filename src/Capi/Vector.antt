-- ===== src/Capi/Vector.antt =====
-- internal/capi/av.go: address vectors. A vector is its pointer, 0 for a nil one; the status and the
-- stored address are the answers of the C library.
use libfabric_go.Base.{ℕ, Option, none, some, List, ◌==◌, ◌||◌, if◌then◌else◌, length}
use libfabric_go.Base.Int.{ℤ, pos, eqb_ℤ}
use libfabric_go.Capi.Errors.{GoError, error_from_status, Result, ok, err}
use libfabric_go.Capi.Handle.{Codes, unavailable, guarded, opened}

unfoldable pub open_av : Codes → ℕ → ℤ → ℕ → Result ℕ
unfolding guarded
open_av k domain status out = opened (guarded k "fi_av_open" domain status) out

-- The status counts the addresses; none is an error.
unfoldable pub insert_service : Codes → ℕ → ℤ → ℕ → Result ℕ
unfolding unavailable error_from_status
insert_service k vector status out =
    if vector == 0
    then err (unavailable k "fi_av_insertsvc")
    else elim (error_from_status status "fi_av_insertsvc") [
      | some e ↦ err e
      | none ↦ if eqb_ℤ status (pos 0) then err (unavailable k "fi_av_insertsvc") else ok out
    ]

unfoldable pub insert_raw : Codes → ℕ → ℕ → ℤ → ℕ → Result ℕ
unfolding unavailable error_from_status
insert_raw k vector address status out =
    if vector == 0 || address == 0
    then err (unavailable k "fi_av_insert")
    else opened (error_from_status status "fi_av_insert") out

unfoldable pub remove : Codes → ℕ → List ℕ → ℤ → Option GoError
unfolding unavailable error_from_status
remove k vector addresses status =
    if vector == 0
    then some (unavailable k "fi_av_remove")
    else if length addresses == 0
    then none
    else error_from_status status "fi_av_remove"
