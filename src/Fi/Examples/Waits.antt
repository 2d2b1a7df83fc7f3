-- ===== src/Fi/Examples/Waits.antt =====
-- fi/wait.go: waits on fixed inputs.
use libfabric_go.Base.{◌≡◌, ◌++◌, refl, some, List, [], ◌∷◌, true, false, lookup, arith, insert}
use libfabric_go.Base.Int.{pos}
use libfabric_go.Capi.Errors.{Sentinel, sentinel, ok, err, is_sentinel}
use libfabric_go.Fi.Context.{Runtime, new_completion_context}
use libfabric_go.Fi.Context.{release}
use libfabric_go.Fi.Context.Registry.{Inv}
use libfabric_go.Fi.Context.History.{run, start, step, create, free, run-Inv}
use libfabric_go.Fi.Wait.{Poll, reads, wait_loop, gives_up}
use libfabric_go.Fi.Wait.Found.{Found, AllPass, wait_loop-Found}

-- Two contexts.
abbrev both : Runtime
both = run start (create 100 ∷ create 200 ∷ [])

both-Inv : Inv both
unfolding step new_completion_context lookup insert
both-Inv = run-Inv (create 100 ∷ create 200 ∷ []) (refl, (refl, tt))

-- The queue is empty, then yields the completion of the other context.
abbrev before : List Poll
before = reads (err (sentinel Sentinel.no_completion)) false ∷ reads (ok 100) false ∷ []

abbrev both_complete : List Poll
both_complete = before ++ reads (ok 200) false ∷ []

before-AllPass : AllPass (pos 1000) 200 before
unfolding is_sentinel gives_up
before-AllPass = ((refl, refl), (ground arith, tt))

registered : lookup 200 both.registry ≡ some 1
unfolding run step new_completion_context lookup insert
registered = refl

wait_loop-Found_example :
    Inv (wait_loop (pos 1000) 1 both both_complete).0
    × Found 1 (wait_loop (pos 1000) 1 both both_complete)
wait_loop-Found_example = wait_loop-Found (pos 1000) 1 both both_complete both-Inv

-- The same, with the second context released.
abbrev one_left : Runtime
one_left = run start (create 100 ∷ create 200 ∷ free 1 ∷ [])

one_left-Inv : Inv one_left
unfolding step new_completion_context lookup insert
one_left-Inv = run-Inv (create 100 ∷ create 200 ∷ free 1 ∷ []) (refl, (refl, (omega arith, tt)))

released : (one_left.objects 1).closed ≡ true
unfolding run step new_completion_context lookup insert release
released = refl
