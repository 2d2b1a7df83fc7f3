-- ===== src/Fi/Context/Effects.antt =====
-- fi/context.go: what a release does, as a log.
use libfabric_go.Base.{ℕ, zero, suc, Bool, false, Option, none, some, List, [], ◌∷◌, ◌==◌}

-- A slice of Go memory: where it starts, and its length.
pub record Slice : Type 0 where
  pub base : ℕ
  pub len : ℕ

pub data Effect : Type 0 where
  ran_complete : ℕ → ℕ → Effect
  copied_back : Slice → ℕ → Effect
  freed_bytes : ℕ → Effect
  ran_cleanup : ℕ → Effect
  freed_context : ℕ → ℕ → Effect

abbrev pub get_elem? : List ℕ → ℕ → Option ℕ
get_elem? [] i = none
get_elem? (x ∷ xs) zero = some x
get_elem? (x ∷ xs) (suc i) = get_elem? xs i

-- `for _, fn := range completions { fn(c) }`
unfoldable pub run_completions : ℕ → List ℕ → List Effect
run_completions id [] = []
run_completions id (fn ∷ fns) = ran_complete id fn ∷ run_completions id fns

abbrev pub run_cleanup : Option ℕ → List Effect → List Effect
run_cleanup none rest = rest
run_cleanup (some fn) rest = ran_cleanup fn ∷ rest

-- `for i := len(cleanups) - 1; i >= 0; i-- { cleanups[i]() }`, with i + 1 rounds left.
unfoldable pub run_cleanups : ℕ → List ℕ → List Effect
run_cleanups zero fns = []
run_cleanups (suc i) fns = run_cleanup (get_elem? fns i) (run_cleanups i fns)

abbrev pub is_freed : ℕ → Effect → Bool
is_freed id (freed_context j p) = j == id
is_freed id _ = false
