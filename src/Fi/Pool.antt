-- ===== src/Fi/Pool.antt =====
-- fi/memory_pool.go: a pool of registered regions. The channel is the list of the regions in it, the
-- oldest first, with its capacity; a method is one step. A nil pool is not modelled, and neither is a
-- nil region. What the C library answers to a registration is an argument of `acquire`.
pub mod Ownership
pub mod History
pub mod Race
use libfabric_go.Base.{
  ℕ, ◌+◌, Bool, true, false, not, ◌||◌, Option, none, some, List, [], ◌∷◌, ◌++◌, ◌==◌, ltb,
  if◌then◌else◌, length,
}
use libfabric_go.Base.Int.{ℤ, pos, pos_part, ltb_ℤ}
use libfabric_go.Capi.Errors.{GoError, message, invalid_handle, Result, ok, err}
use libfabric_go.Fi.Memory.{Flags, Domain, Memory, register_memory, close_region}

pub record MrPool : Type 0 where
  pub domain : Domain
  pub size : ℕ
  pub access : ℕ
  pub queue : List ℕ
  pub capacity : ℕ
  pub closed : Bool

unfoldable pub new_mr_pool : Domain → ℤ → ℕ → ℤ → Result MrPool
new_mr_pool domain size access capacity =
    if domain.handle == 0
    then err (invalid_handle "domain")
    else if not (ltb_ℤ (pos 0) size)
    then err (message "libfabric: MRPool requires positive region size")
    else ok (record {
      domain = domain;
      size = pos_part size;
      access = access;
      queue = [];
      capacity = pos_part capacity;
      closed = false;
    })

-- The answers of `AllocBytes` and of the registration, read only if the pool is empty.
pub record Reply : Type 0 where
  pub cbuf : ℕ
  pub handle : Result ℕ

unfoldable pub provision : Flags → MrPool → Reply → Memory → MrPool × Memory × Result ℕ
provision k p reply h =
    let (h', r) = register_memory k p.domain p.size p.access reply.cbuf reply.handle h in (p, h', r)

-- `select { case mr := <-p.pool: ... default: ... }`
unfoldable pub from_queue : Flags → MrPool → Reply → Memory → List ℕ → MrPool × Memory × Result ℕ
unfolding provision
from_queue k p reply h [] = provision k p reply h
from_queue k p reply h (id ∷ rest) = (record p { queue = rest }, h, ok id)

unfoldable pub acquire : Flags → MrPool → Reply → Memory → MrPool × Memory × Result ℕ
unfolding from_queue
acquire k p reply h =
    if p.closed
    then (p, h, err (message "libfabric: MRPool closed"))
    else from_queue k p reply h p.queue

-- The error of a close is dropped.
abbrev pub closed_by : (ℕ → Option GoError) → ℕ → Memory → Memory
closed_by closes id h = (close_region closes id h).0

-- The first test of `Release`: whether the region may go back into the channel.
unfoldable pub may_pool : MrPool → ℕ → Memory → Bool
may_pool p id h = not (p.closed || not ((h.regions id).len == p.size))

-- `select { case p.pool <- mr: default: ... }`
unfoldable pub give_back : (ℕ → Option GoError) → MrPool → ℕ → Memory → MrPool × Memory
give_back closes p id h =
    if ltb (length p.queue) p.capacity
    then (record p { queue = p.queue ++ id ∷ [] }, h)
    else (p, closed_by closes id h)

unfoldable pub release : (ℕ → Option GoError) → MrPool → ℕ → Memory → MrPool × Memory
unfolding may_pool give_back
release closes p id h =
    if may_pool p id h then give_back closes p id h else (p, closed_by closes id h)

-- The loop of `Close`, which takes the channel empty.
unfoldable pub drain : (ℕ → Option GoError) → List ℕ → Memory → Memory
drain closes [] h = h
drain closes (id ∷ ids) h = drain closes ids (closed_by closes id h)

unfoldable pub close : (ℕ → Option GoError) → MrPool → Memory → MrPool × Memory
unfolding drain
close closes p h =
    if p.closed then (p, h) else (record p { closed = true; queue = [] }, drain closes p.queue h)
