-- ===== src/Capi/Examples.antt =====
-- internal/capi: runs of the error and version code on fixed inputs.
use libfabric_go.Base.{leb, if◌then◌else◌}
use libfabric_go.Capi.Errors.{ok}
use libfabric_go.Capi.Handle.{Codes}
use libfabric_go.Capi.Region.{
  IoVec, mr_register_iov, registered_iov, fill, CArray, array_taken, array_freed,
}
use libfabric_go.Capi.Region.Vectors.{IovOutcome, mr_register_iov-IovOutcome}
use libfabric_go.Capi.Name.Bounds.{is_allocated, is_freed, provider_of, named, name_total}
use libfabric_go.Capi.Name.{name, Reply}
use libfabric_go.Base.{
  ◌≡◌, refl, some, none, arith, ◌↔◌, ◌≤◌, List, ℕ, length, ◌*◌, count_if, ◌⊎◌, ◌∷◌, [],
}
use libfabric_go.Base.Int.{pos, negsuc}
use libfabric_go.Capi.Errors.{GoError, wrapped, error_from_status, with_op, err, message}
use libfabric_go.Capi.Version.{Version, compare, ensure_runtime_at_least, ensure_runtime_compatible}
use libfabric_go.Capi.Version.Order.{ensure_runtime_compatible_iff}

-- -FI_EAGAIN of a call is wrapped with the call's name.
try_again :
    error_from_status (negsuc 10) "fi_send" ≡ some (wrapped "fi_send" (GoError.errno (pos 11)))
unfolding error_from_status with_op
try_again = refl

abbrev v1_18 : Version
v1_18 = record { major = 1; minor = 18 }

abbrev v1_20 : Version
v1_20 = record { major = 1; minor = 20 }

abbrev v2_0 : Version
v2_0 = record { major = 2; minor = 0 }

older : compare v1_18 v1_20 ≡ negsuc 0
unfolding compare
older = refl

newer : compare v1_20 v2_0 ≡ negsuc 0
unfolding compare
newer = refl

ensure_runtime_compatible_iff_example :
    ((ensure_runtime_compatible v1_20 v1_18 ≡ none)
      ↔ ((v1_20.major ≡ v1_18.major) × (v1_18.minor ≤ v1_20.minor)))
    × (ensure_runtime_compatible v1_20 v1_18 ≡ none → ensure_runtime_at_least v1_20 v1_18 ≡ none)
ensure_runtime_compatible_iff_example = ensure_runtime_compatible_iff v1_20 v1_18

abbrev pub codes : Codes
codes = record { again = 11; timed_out = 110; unavailable = 259; no_space = 28 }

-- 257 is FI_ETOOSMALL.
name_total_example :
    ((bytes : List ℕ)
      → (name codes 7 (provider_of 257 bytes)).0
        ≡ (if leb (length bytes) 128 then ok bytes else err (with_op (pos 257) "fi_getname")))
    × ((bytes : List ℕ) → (name codes 7 (provider_of 28 bytes)).0 ≡ named bytes 4096)
    × ((provider : ℕ → Reply) (n : ℕ)
        → let log = (name codes 7 provider).1 in
          (length log ≤ 6 * 2)
          × (count_if (is_allocated n) log ≡ count_if (is_freed n) log)
          × ((n ≤ 4096) ⊎ (count_if (is_allocated n) log ≡ 0)))
name_total_example =
    name_total codes 7 257 (omega arith) (omega arith) (omega arith) (omega arith) (omega arith)

-- The second segment has no base: the array is freed, and C gets nothing.
abbrev segments : List IoVec
segments = record { base = 64; len = 8 } ∷ record { base = 0; len = 8 } ∷ []

abbrev zeroes : CArray
zeroes i = record { base = 0; len = 0 }

refused_segment : mr_register_iov codes 12 16 3 segments zeroes 500 (pos 0) 9 ≡ (
  array_taken 500 32 ∷ array_freed 500 ∷ [],
  err (message "fi_mr_regv: segment requires base pointer and length"),
)
unfolding mr_register_iov registered_iov fill
refused_segment = refl

mr_register_iov-IovOutcome_example :
    IovOutcome 16 3 segments 500
      (pos 0)
      9
      (mr_register_iov codes 12 16 3 segments zeroes 500 (pos 0) 9)
mr_register_iov-IovOutcome_example =
    mr_register_iov-IovOutcome codes 12 16 3 segments zeroes 500 (pos 0) 9
