-- ===== src/Fi/Pool/History.antt =====
-- fi/memory_pool.go: the pool across any sequence of calls by callers that give back only what they hold.
use libfabric_go.Base.{ℕ, ◌≡◌, List, [], ◌∷◌, ◌++◌, count_if-append, arith, ◌==◌}
use libfabric_go.Capi.Errors.{Result, ok}
use libfabric_go.Base.Int.{ℤ}
use libfabric_go.Fi.Memory.{Flags, Domain, Memory, closed_region}
use libfabric_go.Fi.Pool.{MrPool, Reply, new_mr_pool, acquire, release, close}
use libfabric_go.Fi.Pool.Ownership.{Inv, count, accepts, lend, acquire-Inv, release-Inv, close-Inv}

-- A pool, the regions, and the regions that callers hold.
pub record World : Type 0 where
  pub pool : MrPool
  pub memory : Memory
  pub lent : List ℕ

abbrev pub after_acquire : MrPool × Memory × Result ℕ → List ℕ → World
after_acquire (p, h, r) lent = record { pool = p; memory = h; lent = lend r lent }

abbrev pub after_call : MrPool × Memory → List ℕ → World
after_call (p, h) lent = record { pool = p; memory = h; lent = lent }

-- One call of a method, at any time; a region that is given back is one that a caller holds.
pub data Step (k : Flags) (w v : World) : Type 0 where
  acquires :
      (reply : Reply) → v ≡ after_acquire (acquire k w.pool reply w.memory) w.lent → Step k w v
  releases :
      (id : ℕ) (before later : List ℕ)
      → w.lent ≡ before ++ id ∷ later
      → v ≡ after_call (release accepts w.pool id w.memory) (before ++ later)
      → Step k w v
  closes : v ≡ after_call (close accepts w.pool w.memory) w.lent → Step k w v

pub data Reach (k : Flags) (w : World) : World → Type 0 where
  here : Reach k w w
  next : {u v : World} → Reach k w u → Step k u v → Reach k w v

-- The order of what is lent does not matter.
Inv-reorder :
    (p : MrPool) (h : Memory) (a b : List ℕ)
    → ((j : ℕ) → count j a ≡ count j b)
    → Inv p h a
    → Inv p h b
Inv-reorder p h a b e v = record {
  sized = v.sized;
  bounded = v.bounded;
  shut = v.shut;
  once = λ j. omega (arith, e j, v.once j);
  usable = λ j c. v.usable j (omega (arith, e j));
  lost = λ j lt c. v.lost j lt (omega (arith, e j));
}

count-middle :
    (j id : ℕ) (before later : List ℕ)
    → count j (before ++ id ∷ later) ≡ count j (id ∷ (before ++ later))
count-middle j id before later = omega (
  arith,
  count_if-append (λ x. x == j) before (id ∷ later),
  count_if-append (λ x. x == j) before later,
)

abbrev pub Holds : World → Type 0
Holds w = Inv w.pool w.memory w.lent

Step-Inv : (k : Flags) {w v : World} → Step k w v → Holds w → Holds v
Step-Inv k {w} (acquires reply e) h = rw e (acquire-Inv k w.pool reply w.memory w.lent h)
Step-Inv k {w} (releases id before later l e) h = rw e (
    release-Inv w.pool id w.memory (before ++ later) (
      Inv-reorder w.pool w.memory (before ++ id ∷ later) (id ∷ (before ++ later))
        (λ j. count-middle j id before later) (rw l at h)))
Step-Inv k {w} (closes e) h = rw e (close-Inv w.pool w.memory w.lent h)

Reach-Inv : (k : Flags) {w v : World} → Holds w → Reach k w v → Holds v
Reach-Inv k h here = h
Reach-Inv k h (next r st) = Step-Inv k st (Reach-Inv k h r)

abbrev pub no_regions : Memory
no_regions = record { regions = λ id. closed_region; next = 0; log = [] }

new_mr_pool-Inv :
    (d : Domain) (size : ℤ) (access : ℕ) (capacity : ℤ) (p : MrPool)
    → new_mr_pool d size access capacity ≡ ok p
    → Inv p no_regions []
unfolding new_mr_pool
new_mr_pool-Inv d size access capacity p e = record {
  sized = ground arith;
  bounded = ground arith;
  shut = λ c. ground arith;
  once = λ j. ground arith;
  usable = λ j c. ground arith;
  lost = λ j lt c. ground arith;
}

-- From a new pool, through any calls in any order by callers that give back only regions that they
-- hold, and with closes that the C library accepts: no region is pooled or lent twice, the pool never
-- holds more than its capacity and is empty once closed, what is pooled or lent is registered at the
-- pool's size, and every region that is neither has been closed.
pub Reach-new-Inv :
    (k : Flags) (d : Domain) (size : ℤ) (access : ℕ) (capacity : ℤ) (p : MrPool) (v : World)
    → new_mr_pool d size access capacity ≡ ok p
    → Reach k (record { pool = p; memory = no_regions; lent = [] }) v
    → Inv v.pool v.memory v.lent
Reach-new-Inv k d size access capacity p v e r =
    Reach-Inv k (new_mr_pool-Inv d size access capacity p e) r
