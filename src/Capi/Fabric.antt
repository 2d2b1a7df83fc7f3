-- ===== src/Capi/Fabric.antt =====
-- internal/capi/fabric.go, wait.go, memory.go and context.go: fabrics, domains, wait sets, and the memory of the
-- C library. An entry is its pointer, 0 for a nil one; the answers of the C library are arguments.
use libfabric_go.Base.{ℕ, Bool, Option, none, some, List, [], ◌∷◌, ◌==◌, ◌||◌, not, if◌then◌else◌}
use libfabric_go.Base.Int.{ℤ, pos, negsuc, ltb_ℤ, int32}
use libfabric_go.Capi.Errors.{GoError, error_from_status, Result, err}
use libfabric_go.Capi.Handle.{Codes, unavailable, guarded, guarded_pair, opened}

-- `has_attr` tells whether the entry has a fabric attribute.
unfoldable pub open_fabric : Codes → ℕ → Bool → ℤ → ℕ → Result ℕ
unfolding unavailable error_from_status
open_fabric k entry has_attr status out =
    if entry == 0 || not has_attr
    then err (unavailable k "fi_fabric")
    else opened (error_from_status status "fi_fabric") out

unfoldable pub open_domain : Codes → ℕ → ℕ → ℤ → ℕ → Result ℕ
unfolding guarded_pair
open_domain k fabric entry status out = opened (guarded_pair k "fi_domain" fabric entry status) out

unfoldable pub open_wait_set : Codes → ℕ → ℤ → ℕ → Result ℕ
unfolding guarded
open_wait_set k fabric status out = opened (guarded k "fi_wait_open" fabric status) out

-- The timeouts passed to fi_wait, converted to 32 bits, and the error.
unfoldable pub wait_set_wait : Codes → ℕ → ℤ → ℤ → List ℤ × Option GoError
unfolding unavailable error_from_status
wait_set_wait k h timeout status = if h == 0 then ([], some (unavailable k "fi_wait")) else (
  int32 timeout ∷ [],
  if ltb_ℤ status (pos 0) then error_from_status status "fi_wait" else none,
)

-- `fd` is what fi_control stores.
unfoldable pub wait_set_fd : Codes → ℕ → ℤ → ℤ → ℤ × Option GoError
unfolding guarded
wait_set_fd k h status fd = elim (guarded k "fi_control(FI_GETWAIT)" h status) [
  | some e ↦ (negsuc 0, some e)
  | none ↦ (fd, none)
]

-- What happens to memory of the C library.
pub data Touch : Type 0 where
  taken given_back : ℕ → Touch
  moved : ℕ → ℕ → ℕ → Touch

-- `alloc` is what malloc returns.
unfoldable pub alloc_bytes : ℕ → ℕ → ℕ × List Touch
alloc_bytes size alloc = if size == 0 || alloc == 0 then (0, []) else (alloc, taken alloc ∷ [])

unfoldable pub free_bytes : ℕ → List Touch
free_bytes ptr = if ptr == 0 then [] else given_back ptr ∷ []

unfoldable pub memcpy : ℕ → ℕ → ℕ → List Touch
memcpy dst src len = if len == 0 || dst == 0 || src == 0 then [] else moved dst src len ∷ []

unfoldable pub completion_context_alloc : ℕ → ℕ × List Touch
completion_context_alloc alloc = if alloc == 0 then (0, []) else (alloc, taken alloc ∷ [])

unfoldable pub completion_context_free : ℕ → List Touch
completion_context_free ptr = if ptr == 0 then [] else given_back ptr ∷ []
