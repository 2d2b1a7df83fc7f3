-- ===== src/Fi/Examples/Contexts.antt =====
-- fi: runs of completion contexts on fixed inputs.
use libfabric_go.Base.{
  ◌≡◌, ◌++◌, refl, some, arith, List, [], ◌∷◌, true, false, lookup, map, reverse, if◌then◌else◌,
  insert, delete,
}
use libfabric_go.Capi.Errors.{Sentinel, sentinel, ok, err}
use libfabric_go.Fi.Context.Effects.{
  ran_complete, copied_back, freed_bytes, ran_cleanup, freed_context, run_completions, run_cleanups,
}
use libfabric_go.Fi.Context.{
  release_with, copy_effects, free_effects, resolve_completion, new_completion_context,
  ensure_buffer, add_on_complete, add_cleanup, set_copy_back, release_effects,
}
use libfabric_go.Fi.Context.Cleanup.{release_order}
use libfabric_go.Fi.Context.Registry.{Inv, resolve_twice}
use libfabric_go.Fi.Context.History.{
  Call, create, on_complete, cleanup, buffer, set_copy, run, start, AllAllowed, run-Inv, step,
}

-- Two contexts; the first has a callback, two cleanups, a buffer and a copy back.
abbrev two_contexts : List Call
two_contexts =
    create 100
    ∷ create 200
    ∷ on_complete 0 (some 5)
    ∷ cleanup 0 (some 6)
    ∷ cleanup 0 (some 7)
    ∷ buffer 0 16 900
    ∷ set_copy 0 (record { base = 40; len = 16 })
    ∷ []

two_contexts-AllAllowed : AllAllowed start two_contexts
unfolding step new_completion_context lookup insert add_on_complete add_cleanup ensure_buffer
two_contexts-AllAllowed =
    (refl, (refl, (omega arith, (omega arith, (omega arith, (omega arith, (omega arith, tt)))))))

run-Inv_example : Inv (run start two_contexts)
run-Inv_example = run-Inv two_contexts two_contexts-AllAllowed

-- The completion of the first context runs the callback, copies, frees, and cleans up backwards.
completed :
    (resolve_completion 100 (run start two_contexts)).0.log
    ≡ ran_complete 0 5
      ∷ copied_back (record { base = 40; len = 16 }) 900
      ∷ freed_bytes 900
      ∷ ran_cleanup 7
      ∷ ran_cleanup 6
      ∷ freed_context 0 100
      ∷ []
unfolding run step resolve_completion ensure_buffer new_completion_context lookup insert delete
    add_on_complete add_cleanup set_copy_back release_effects run_completions run_cleanups
completed = refl

still_open : ((run start two_contexts).objects 0).closed ≡ false
unfolding run step resolve_completion ensure_buffer new_completion_context lookup insert delete
    add_on_complete add_cleanup set_copy_back
still_open = refl

release_order_example :
    (release_with true true 0 (run start two_contexts)).log
    ≡ (run start two_contexts).log
      ++ ((if true
            then map (ran_complete 0) ((run start two_contexts).objects 0).on_complete
            else [])
          ++ (copy_effects ((run start two_contexts).objects 0)
              ++ (free_effects ((run start two_contexts).objects 0)
                  ++ (map ran_cleanup (reverse ((run start two_contexts).objects 0).cleanups)
                      ++ freed_context 0 ((run start two_contexts).objects 0).ptr ∷ []))))
release_order_example = release_order true true 0 (run start two_contexts) still_open

resolves : (resolve_completion 100 (run start two_contexts)).1 ≡ ok 0
unfolding run step resolve_completion ensure_buffer new_completion_context lookup insert delete
    add_on_complete add_cleanup set_copy_back
resolves = refl

resolve_twice_example :
    (((resolve_completion 100 (run start two_contexts)).0.objects 0).closed ≡ true)
    × (resolve_completion 100 (resolve_completion 100 (run start two_contexts)).0 ≡ (
      (resolve_completion 100 (run start two_contexts)).0,
      err (sentinel Sentinel.context_unknown),
    ))
resolve_twice_example = resolve_twice (run start two_contexts) 100 0 run-Inv_example resolves
