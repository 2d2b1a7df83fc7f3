-- ===== src/Fi/Wait/Sets.antt =====
-- fi/wait.go over internal/capi/wait.go: wait sets. A Go handle is the pointer inside the `capi` value, a nil one
-- `none`; a duration is in nanoseconds, the answers of the C library are arguments.
use native.Mathlib.Decide.{dec_lt}
use libfabric_go.Base.{
  ℕ, ◌*◌, ◌+◌, ◌/◌, ◌<◌, ◌≤◌, ◌^◌, ◌-◌, ◌≡◌, Option, none, some, List, [], ◌∷◌, arith, ◌⊎◌, ◌≢◌,
  ◌%◌, inl, ◌∙◌, ap, inr,
}
use libfabric_go.Base.Int.{ℤ, pos, negsuc, int32, pos_part, int32-pos}
use libfabric_go.Capi.Errors.{GoError, invalid_handle, Result, err}
use libfabric_go.Capi.Handle.{Codes}
use libfabric_go.Capi.Fabric.{open_wait_set, wait_set_wait, wait_set_fd}

unfoldable pub open_waits : Codes → Option ℕ → ℤ → ℕ → Result ℕ
unfolding open_wait_set
open_waits k none status out = err (invalid_handle "fabric")
open_waits k (some fabric) status out = open_wait_set k fabric status out

-- The milliseconds of a duration, -1 for a negative one.
unfoldable pub wait_ms : ℤ → ℤ
wait_ms (pos n) = pos (n / 1000000)
wait_ms (negsuc n) = negsuc 0

unfoldable pub wait_on : Codes → Option ℕ → ℤ → ℤ → List ℤ × Option GoError
unfolding wait_ms wait_set_wait
wait_on k none timeout status = ([], some (invalid_handle "wait set"))
wait_on k (some h) timeout status = wait_set_wait k h (wait_ms timeout) status

unfoldable pub wait_fd : Codes → Option ℕ → ℤ → ℤ → ℤ × Option GoError
unfolding wait_set_fd
wait_fd k none status fd = (negsuc 0, some (invalid_handle "wait set"))
wait_fd k (some h) status fd = wait_set_fd k h status fd

-- 2^31 milliseconds, in nanoseconds: about 25 days.
abbrev pub wait_limit : ℕ
wait_limit = 2 ^ 31 * 1000000

-- The timeout that reaches C: a negative duration makes -1, which waits without an end; one below the limit
-- the whole milliseconds in it, so never more than asked and less than one short; one from the limit to twice
-- the limit a negative number, which waits without an end as well.
unfoldable pub TimeoutOutcome : ℤ → List ℤ → Type 0
TimeoutOutcome (negsuc n) told = told ≡ negsuc 0 ∷ []
TimeoutOutcome (pos n) told =
    ((n < wait_limit)
      × ((ms : ℕ) × (told ≡ pos ms ∷ []) × (ms * 1000000 ≤ n) × (n < ms * 1000000 + 1000000)))
    ⊎ ((wait_limit ≤ n) × ((m : ℕ) × (told ≡ negsuc m ∷ [])))

int32-wraps : (n : ℕ) → 2 ^ 31 ≤ n → n < 2 ^ 32 → (m : ℕ) × (int32 (pos n) ≡ negsuc m)
int32-wraps n a b = let e : n % 2 ^ 32 ≡ n = omega arith in (2 ^ 32 - n - 1, rw e (ground arith))

wait_set_told :
    (k : Codes) (h : ℕ) (timeout status : ℤ)
    → h ≢ 0
    → (wait_set_wait k h timeout status).0 ≡ int32 timeout ∷ []
unfolding wait_set_wait
wait_set_told k h timeout status z = ground (arith, z)

-- WaitSet.Wait on an open wait set, with a duration below twice the limit of 2^31 milliseconds.
pub wait_on-TimeoutOutcome :
    (k : Codes) (h : ℕ) (timeout status : ℤ)
    → h ≢ 0
    → pos_part timeout < 2 * wait_limit
    → TimeoutOutcome timeout (wait_on k (some h) timeout status).0
unfolding wait_on TimeoutOutcome
wait_on-TimeoutOutcome k h (negsuc n) status z b = wait_set_told k h (negsuc 0) status z
wait_on-TimeoutOutcome k h (pos n) status z b =
    let told = wait_set_told k h (pos (n / 1000000)) status z in
    elim (dec_lt n wait_limit) [
      | yes x ↦ inl (
        x,
        (
          n / 1000000,
          told ∙ ap (λ (c : ℤ). c ∷ []) (int32-pos (n / 1000000) (omega arith)),
          omega arith,
          omega arith,
        ),
      )
      | no x ↦
          let (m, e) = int32-wraps (n / 1000000) (omega arith) (omega arith) in
          inr (omega arith, (m, told ∙ ap (λ (c : ℤ). c ∷ []) e))
    ]
