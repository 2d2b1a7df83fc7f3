-- ===== src/Fi/Pool/Race.antt =====
-- fi/memory_pool.go: `Release` reads `closed` and later sends to the channel; a `Close` between the two.
use libfabric_go.Base.{ℕ, ◌<◌, ◌≡◌, true, [], ◌∷◌, arith}
use libfabric_go.Fi.Memory.{Flags, Memory}
use libfabric_go.Fi.Pool.{MrPool, Reply, may_pool, give_back, acquire, close}
use libfabric_go.Fi.Pool.Ownership.{count, accepts, drain-lens}

-- A `Close` that runs between the test of a `Release` and its send leaves the released region in the
-- closed pool, registered as before: no later `Acquire` hands it out, and no later `Close` closes it.
-- The channel has room for a region, and the region was not in it.
pub release_close_race :
    (k : Flags) (p : MrPool) (id : ℕ) (h : Memory) (reply : Reply)
    → may_pool p id h ≡ true
    → 0 < p.capacity
    → count id p.queue ≡ 0
    → let (q, m) = close accepts p h in
      let (q', m') = give_back accepts q id m in
      (q'.queue ≡ id ∷ [])
      × (q'.closed ≡ true)
      × ((m'.regions id).len ≡ p.size)
      × (close accepts q' m' ≡ (q', m'))
      × ((acquire k q' reply m').0 ≡ q')
unfolding may_pool give_back close acquire
release_close_race k p id h reply t c n = ground (arith, drain-lens p.queue h id)
