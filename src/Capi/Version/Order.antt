-- ===== src/Capi/Version/Order.antt =====
-- internal/capi/version.go: the order of versions, and what the two checks accept.
use libfabric_go.Base.{◌≤◌, ◌<◌, ◌≡◌, ◌⊎◌, ◌↔◌, none, arith}
use libfabric_go.Base.Int.{pos, negsuc, neg}
use libfabric_go.Capi.Version.{Version, compare, ensure_runtime_at_least, ensure_runtime_compatible}

-- The lexicographic order of versions, for comparison with the code.
abbrev pub Before : Version → Version → Type 0
Before v w = (v.major < w.major) ⊎ ((v.major ≡ w.major) × (v.minor < w.minor))

-- `Compare` answers -1 exactly on the lexicographic order.
pub compare-Before : (v w : Version) → (compare v w ≡ negsuc 0) ↔ Before v w
unfolding compare
compare-Before v w = ground arith

-- Swapping the arguments negates the answer, and the answer 0 means equal versions.
pub compare_antisymm :
    (v w : Version) → (compare w v ≡ neg (compare v w)) × (compare v w ≡ pos 0 → v ≡ w)
unfolding compare
compare_antisymm v w = ground arith

-- `Compare` is transitive.
pub compare_trans :
    (u v w : Version) → compare u v ≡ negsuc 0 → compare v w ≡ negsuc 0 → compare u w ≡ negsuc 0
unfolding compare
compare_trans u v w = ground arith

-- The compatibility check passes exactly on the headers' major version with at least their minor
-- version, and then the plain minimum check passes too.
pub ensure_runtime_compatible_iff :
    (runtime build : Version)
    → ((ensure_runtime_compatible runtime build ≡ none)
        ↔ ((runtime.major ≡ build.major) × (build.minor ≤ runtime.minor)))
      × (ensure_runtime_compatible runtime build ≡ none
          → ensure_runtime_at_least runtime build ≡ none)
unfolding ensure_runtime_compatible ensure_runtime_at_least
ensure_runtime_compatible_iff runtime build = ground arith
