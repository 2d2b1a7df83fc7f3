-- ===== src/Fi/Context/Cleanup.antt =====
-- fi/context.go, release: the order of what runs, and that it runs once.
use mathlib.Core.List.{reverse-cons, map-append}
use libfabric_go.Base.{
  ℕ, zero, suc, ◌≡◌, refl, ap, ◌∙◌, Bool, false, Option, none, some, List, [], ◌∷◌, ◌++◌, map,
  reverse, length, count_if, count_if-append, arith, ==_refl, Bool-cases, inl, inr, if◌then◌else◌,
  ◌==◌,
}
use libfabric_go.Fi.Context.Effects.{
  ran_complete, ran_cleanup, freed_context, run_completions, run_cleanup, run_cleanups, get_elem?,
  is_freed,
}
use libfabric_go.Fi.Context.{
  Context, Runtime, release_effects, copy_effects, free_effects, release_with,
}

run_completions-map : (id : ℕ) (fns : List ℕ) → run_completions id fns ≡ map (ran_complete id) fns
unfolding run_completions
run_completions-map id [] = refl
run_completions-map id (fn ∷ fns) = ap (◌∷◌ (ran_complete id fn)) (run_completions-map id fns)

-- The loop over the first `i + 1` of `fns` reads no entry behind them.
run_cleanups-cons :
    (i : ℕ) (fn : ℕ) (fns : List ℕ)
    → run_cleanups (suc i) (fn ∷ fns) ≡ run_cleanups i fns ++ ran_cleanup fn ∷ []
unfolding run_cleanups
run_cleanups-cons zero fn fns = refl
run_cleanups-cons (suc i) fn fns = go (get_elem? fns i) (run_cleanups-cons i fn fns)
  where
    go :
        (o : Option ℕ)
        → run_cleanups (suc i) (fn ∷ fns) ≡ run_cleanups i fns ++ ran_cleanup fn ∷ []
        → run_cleanup o (run_cleanups (suc i) (fn ∷ fns))
          ≡ run_cleanup o (run_cleanups i fns) ++ ran_cleanup fn ∷ []
    go none e = e
    go (some g) e = ap (◌∷◌ (ran_cleanup g)) e

run_cleanups-reverse :
    (fns : List ℕ) → run_cleanups (length fns) fns ≡ map ran_cleanup (reverse fns)
run_cleanups-reverse [] = unfold run_cleanups in refl
run_cleanups-reverse (fn ∷ fns) =
    run_cleanups-cons (length fns) fn fns
    ∙ (rw
        (
          run_cleanups-reverse fns,
          reverse-cons fn fns,
          map-append ran_cleanup (reverse fns) (fn ∷ []),
        )
        refl)

-- A release of an open context runs, in this order: the completion callbacks in the order in which
-- they were added (only if asked to), the copy back, the free of the buffer, the cleanups in the
-- reverse of the order in which they were added, and the free of the C context, once.
pub release_order :
    (run_complete remove : Bool) (id : ℕ) (r : Runtime)
    → (r.objects id).closed ≡ false
    → (release_with run_complete remove id r).log
      ≡ r.log
        ++ ((if run_complete then map (ran_complete id) (r.objects id).on_complete else [])
            ++ (copy_effects (r.objects id)
                ++ (free_effects (r.objects id)
                    ++ (map ran_cleanup (reverse (r.objects id).cleanups)
                        ++ freed_context id (r.objects id).ptr ∷ []))))
unfolding release_with release_effects
release_order run_complete remove id r h =
    rw
      (
        h,
        run_completions-map id (r.objects id).on_complete,
        run_cleanups-reverse (r.objects id).cleanups,
      )
      refl

-- Whatever closed a context first, a later release of it, of either kind, changes nothing.
pub release_once :
    (a b c d : Bool) (id : ℕ) (r : Runtime)
    → release_with a b id (release_with c d id r) ≡ release_with c d id r
unfolding release_with
release_once a b c d id r = elim (Bool-cases (r.objects id).closed) [
  | inl e ↦ rw (e, release_with) (rw e)
  | inr e ↦ rw (e, ==_refl id) refl
]

-- How often a release frees the C context of `id`: once for its own, and of no other.
count_freed-completions :
    (k id : ℕ) (fns : List ℕ) → count_if (is_freed k) (run_completions id fns) ≡ 0
unfolding run_completions
count_freed-completions k id [] = refl
count_freed-completions k id (fn ∷ fns) = omega (arith, count_freed-completions k id fns)

count_freed-cleanups : (k n : ℕ) (fns : List ℕ) → count_if (is_freed k) (run_cleanups n fns) ≡ 0
unfolding run_cleanups
count_freed-cleanups k zero fns = refl
count_freed-cleanups k (suc n) fns = ground (arith, count_freed-cleanups k n fns)

count_freed-copy : (k : ℕ) (c : Context) → count_if (is_freed k) (copy_effects c) ≡ 0
count_freed-copy k c = ground arith

count_freed-free : (k : ℕ) (c : Context) → count_if (is_freed k) (free_effects c) ≡ 0
count_freed-free k c = ground arith

pub count_freed-release :
    (k : ℕ) (run : Bool) (id : ℕ) (c : Context)
    → count_if (is_freed k) (release_effects run id c) ≡ (if id == k then 1 else 0)
unfolding release_effects
count_freed-release k run id c = ground (
  arith,
  count_if-append (is_freed k) (run_completions id c.on_complete) (
      copy_effects c
      ++ (free_effects c
          ++ (run_cleanups (length c.cleanups) c.cleanups ++ freed_context id c.ptr ∷ []))),
  count_if-append (is_freed k) (copy_effects c) (
      free_effects c
      ++ (run_cleanups (length c.cleanups) c.cleanups ++ freed_context id c.ptr ∷ [])),
  count_if-append (is_freed k) (free_effects c)
      (run_cleanups (length c.cleanups) c.cleanups ++ freed_context id c.ptr ∷ []),
  count_if-append (is_freed k) (run_cleanups (length c.cleanups) c.cleanups)
      (freed_context id c.ptr ∷ []),
  count_freed-completions k id c.on_complete,
  count_freed-cleanups k (length c.cleanups) c.cleanups,
  count_freed-copy k c,
  count_freed-free k c,
)
