-- ===== src/Fi/Examples/Pools.antt =====
-- fi/memory_pool.go: a pool on fixed inputs.
use libfabric_go.Base.{◌≡◌, ◌<◌, refl, arith, [], ◌∷◌, true, false}
use libfabric_go.Base.Int.{pos}
use libfabric_go.Capi.Errors.{ok}
use libfabric_go.Fi.Memory.{Flags, Domain, Memory, register_memory, register_memory_with_options}
use libfabric_go.Fi.Pool.{MrPool, Reply, new_mr_pool, may_pool, give_back, acquire, release, close}
use libfabric_go.Fi.Pool.Ownership.{Inv, count, accepts}
use libfabric_go.Fi.Pool.History.{
  World, acquires, releases, closes, here, next, after_acquire, after_call, no_regions,
  Reach-new-Inv,
}
use libfabric_go.Fi.Pool.Race.{release_close_race}

abbrev flags : Flags
flags = record { mr_local = 4; supported_modes = 7 }

abbrev local_domain : Domain
local_domain = record { handle = 3; mr_mode = 4; mr_key_size = 8; mr_iov_limit = 2 }

abbrev fresh_pool : MrPool
fresh_pool = record {
  domain = local_domain;
  size = 64;
  access = 4;
  queue = [];
  capacity = 1;
  closed = false;
}

abbrev reply : Reply
reply = record { cbuf = 500; handle = ok 9 }

abbrev unused : World
unused = record { pool = fresh_pool; memory = no_regions; lent = [] }

abbrev lent_one : World
lent_one = after_acquire (acquire flags fresh_pool reply no_regions) []

abbrev returned : World
returned = after_call (release accepts lent_one.pool 0 lent_one.memory) []

abbrev shut_down : World
shut_down = after_call (close accepts returned.pool returned.memory) []

lends : lent_one.lent ≡ 0 ∷ []
unfolding acquire register_memory register_memory_with_options
lends = refl

creates : new_mr_pool local_domain (pos 64) 4 (pos 1) ≡ ok fresh_pool
unfolding new_mr_pool
creates = refl

Reach-new-Inv_example : Inv shut_down.pool shut_down.memory shut_down.lent
Reach-new-Inv_example =
    Reach-new-Inv flags local_domain (pos 64) 4 (pos 1) fresh_pool shut_down creates
      (next (next (next here (acquires reply refl)) (releases 0 [] [] lends refl)) (closes refl))

poolable : may_pool lent_one.pool 0 lent_one.memory ≡ true
unfolding may_pool acquire register_memory register_memory_with_options
poolable = refl

roomy : 0 < lent_one.pool.capacity
unfolding acquire
roomy = omega arith

unpooled : count 0 lent_one.pool.queue ≡ 0
unfolding acquire
unpooled = refl

abbrev closed_before : MrPool × Memory
closed_before = close accepts lent_one.pool lent_one.memory

abbrev raced : MrPool × Memory
raced = give_back accepts closed_before.0 0 closed_before.1

release_close_race_example :
    (raced.0.queue ≡ 0 ∷ [])
    × (raced.0.closed ≡ true)
    × ((raced.1.regions 0).len ≡ lent_one.pool.size)
    × (close accepts raced.0 raced.1 ≡ (raced.0, raced.1))
    × ((acquire flags raced.0 reply raced.1).0 ≡ raced.0)
release_close_race_example =
    release_close_race flags lent_one.pool 0 lent_one.memory reply poolable roomy unpooled
