-- ===== src/Capi/Version.antt =====
-- internal/capi/version.go. The two versions that the C library reports are parameters.
pub mod Order
use libfabric_go.Base.{ℕ, Bool, true, false, Option, none, some, if◌then◌else◌, ltb, ◌==◌, not}
use libfabric_go.Base.Int.{ℤ, pos, negsuc, ltb_ℤ}
use libfabric_go.Capi.Errors.{GoError, message}

pub record Version : Type 0 where
  pub major : ℕ
  pub minor : ℕ

unfoldable pub compare : Version → Version → ℤ
compare v other =
    if ltb v.major other.major
    then negsuc 0
    else if ltb other.major v.major
    then pos 1
    else if ltb v.minor other.minor
    then negsuc 0
    else if ltb other.minor v.minor
    then pos 1
    else pos 0

-- `runtime` is what the linked library reports.
unfoldable pub ensure_runtime_at_least : Version → Version → Option GoError
unfolding compare
ensure_runtime_at_least runtime minimum =
    if ltb_ℤ (compare runtime minimum) (pos 0)
    then some (message "libfabric runtime is older than required")
    else none

-- `build` is the version of the headers.
unfoldable pub ensure_runtime_compatible : Version → Version → Option GoError
ensure_runtime_compatible runtime build =
    if not (runtime.major == build.major)
    then some (message "libfabric major version mismatch")
    else if ltb runtime.minor build.minor
    then some (message "libfabric runtime predates header minor version")
    else none
