-- ===== src/Fi/Pool/Ownership.antt =====
-- fi/memory_pool.go: who holds a region. Every region that the pool made is in the pool, with one
-- caller, or closed.
use libfabric_go.Base.{
  ℕ, ◌+◌, ◌≤◌, ◌<◌, ◌≡◌, refl, true, Option, none, List, [], ◌∷◌, ◌==◌, length, length-append,
  count_if, count_if-append, arith, if◌then◌else◌, inl, inr, Bool-cases,
}
use libfabric_go.Capi.Errors.{GoError, Result, ok, err}
use libfabric_go.Fi.Memory.{Flags, Memory, register_memory, close_region}
use libfabric_go.Fi.Pool.{
  MrPool, Reply, provision, acquire, release, drain, close, closed_by, from_queue,
}

-- How often a list holds a region.
abbrev pub count : ℕ → List ℕ → ℕ
count id = count_if (λ x. x == id)

-- `lent` lists the regions that callers hold; `h` holds only regions that the pool registered.
pub record Inv (p : MrPool) (h : Memory) (lent : List ℕ) : Type 0 where
  pub sized : 0 < p.size
  pub bounded : length p.queue ≤ p.capacity
  pub shut : p.closed ≡ true → p.queue ≡ []
  -- No region is handed out twice, or pooled while it is lent.
  pub once : (id : ℕ) → count id p.queue + count id lent ≤ 1
  -- What is pooled or lent is registered and of the pool's size.
  pub usable :
      (id : ℕ)
      → 0 < count id p.queue + count id lent
      → (id < h.next) × ((h.regions id).len ≡ p.size)
  -- What is neither has been closed.
  pub lost : (id : ℕ) → id < h.next → count id p.queue + count id lent ≡ 0 → (h.regions id).len ≡ 0

-- The C library accepts the close of every handle.
abbrev pub accepts : ℕ → Option GoError
accepts handle = none

closed_by-regions :
    (id j : ℕ) (h : Memory)
    → ((closed_by accepts id h).next ≡ h.next)
      × (((closed_by accepts id h).regions j).len ≡ (if id == j then 0 else (h.regions j).len))
unfolding close_region
closed_by-regions id j h = ground arith

-- The list of the lent regions after a call.
abbrev pub lend : Result ℕ → List ℕ → List ℕ
lend (ok id) lent = id ∷ lent
lend (err e) lent = lent

provision-Inv :
    (k : Flags) (p : MrPool) (reply : Reply) (h : Memory) (lent : List ℕ)
    → Inv p h lent
    → let (p', h', r) = provision k p reply h in Inv p' h' (lend r lent)
unfolding provision register_memory
provision-Inv k p reply h lent v = record {
  sized = v.sized;
  bounded = v.bounded;
  shut = v.shut;
  once = λ id. ground (arith, v.once id, v.usable id);
  usable = λ id c. ground (arith, v.usable id);
  lost = λ id lt c. ground (arith, v.lost id, v.usable id);
}

taken-Inv :
    (p : MrPool) (h : Memory) (lent rest : List ℕ) (id : ℕ)
    → p.queue ≡ id ∷ rest
    → Inv p h lent
    → Inv (record p { queue = rest }) h (id ∷ lent)
taken-Inv p h lent rest id e v = record {
  sized = v.sized;
  bounded = ground (arith, v.bounded);
  shut = ground (arith, v.shut);
  once = λ j. ground (arith, v.once j);
  usable = λ j c. ground (arith, v.usable j);
  lost = λ j lt c. ground (arith, v.lost j);
}

open_acquire-Inv :
    (k : Flags) (p : MrPool) (reply : Reply) (h : Memory) (lent queue : List ℕ)
    → p.queue ≡ queue
    → Inv p h lent
    → let (p', h', r) = from_queue k p reply h queue in Inv p' h' (lend r lent)
unfolding from_queue
open_acquire-Inv k p reply h lent [] e v = provision-Inv k p reply h lent v
open_acquire-Inv k p reply h lent (id ∷ rest) e v = taken-Inv p h lent rest id e v

pub acquire-Inv :
    (k : Flags) (p : MrPool) (reply : Reply) (h : Memory) (lent : List ℕ)
    → Inv p h lent
    → let (p', h', r) = acquire k p reply h in Inv p' h' (lend r lent)
unfolding acquire
acquire-Inv k p reply h lent v = elim (Bool-cases p.closed) [
  | inl c ↦ simp (c, acquire) v
  | inr c ↦ simp (c, acquire) (open_acquire-Inv k p reply h lent p.queue refl v)
]

-- A caller gives back a region that it holds; `rest` are the lent regions without it.
pub release-Inv :
    (p : MrPool) (id : ℕ) (h : Memory) (rest : List ℕ)
    → Inv p h (id ∷ rest)
    → let (p', h') = release accepts p id h in Inv p' h' rest
unfolding release
release-Inv p id h rest v = record {
  sized = ground (arith, v.sized);
  bounded = ground (arith, v.bounded, length-append p.queue (id ∷ []));
  shut = ground (arith, v.shut);
  once = λ j. ground (arith, v.once j, count_if-append (λ x. x == j) p.queue (id ∷ []));
  usable = λ j c. ground (
    arith,
    v.usable j,
    v.once j,
    v.once id,
    closed_by-regions id j h,
    count_if-append (λ x. x == j) p.queue (id ∷ []),
  );
  lost = λ j lt c. ground (
    arith,
    v.lost j,
    v.usable j,
    closed_by-regions id j h,
    count_if-append (λ x. x == j) p.queue (id ∷ []),
  );
}

pub drain-lens :
    (ids : List ℕ) (h : Memory) (j : ℕ)
    → ((drain accepts ids h).next ≡ h.next)
      × (((drain accepts ids h).regions j).len
          ≡ (if count j ids == 0 then (h.regions j).len else 0))
unfolding drain
drain-lens [] h j = ground arith
drain-lens (id ∷ ids) h j =
    ground (arith, drain-lens ids (closed_by accepts id h) j, closed_by-regions id j h)

pub close-Inv :
    (p : MrPool) (h : Memory) (lent : List ℕ)
    → Inv p h lent
    → let (p', h') = close accepts p h in Inv p' h' lent
unfolding close
close-Inv p h lent v = record {
  sized = ground (arith, v.sized);
  bounded = ground (arith, v.bounded);
  shut = ground (arith, v.shut);
  once = λ j. ground (arith, v.once j);
  usable = λ j c. ground (arith, v.usable j, v.once j, drain-lens p.queue h j);
  lost = λ j lt c. ground (arith, v.lost j, drain-lens p.queue h j);
}
