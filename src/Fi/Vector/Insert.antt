-- ===== src/Fi/Vector/Insert.antt =====
-- fi/address_vector.go: insertions of addresses.
use libfabric_go.Capi.Errors.Laws.{error_of_code, no_error}
use libfabric_go.Capi.Name.{Reply, name}
use libfabric_go.Base.{◌↔◌, true, ◌<◌, ◌^◌}
use libfabric_go.Base.Int.{pos, negsuc, neg_part, ltb_ℤ}
use libfabric_go.Capi.Handle.{Codes}
use libfabric_go.Base.{
  ℕ, List, Bool, ◌≢◌, ◌==◌, length, false, some, if◌then◌else◌, ◌≡◌, leb, count_if, arith, refl,
}
use libfabric_go.Capi.Errors.{err, ok, message, Result}
use libfabric_go.Capi.Vector.{insert_service, insert_raw}
use libfabric_go.Capi.Name.Bounds.{provider_of, name-named}
use libfabric_go.Fi.Vector.{
  VectorEffect, allocated, freed, add_service, add_raw, register_address, ℕ, Codes, ℤ, insert_name,
  Reply,
}

-- The insertions on an open vector, of a non-empty address for which there is a buffer, by the status of the
-- C library, the number of inserted addresses or a negative code above -2^31. InsertService succeeds exactly
-- if it is positive. InsertRaw succeeds, with whatever its result variable holds, exactly if it is not
-- negative: so at the status 0, where nothing is inserted, the one fails and the other does not.
pub insert_outcomes :
    (k : Codes) (v buf out : ℕ) (addr : List ℕ) (status : ℤ)
    → v ≢ 0
    → buf ≢ 0
    → length addr ≢ 0
    → neg_part status < 2 ^ 31
    → ((add_service k (some v) status out ≡ ok out) ↔ (ltb_ℤ (pos 0) status ≡ true))
      × (((add_raw k (some v) addr buf status out).0 ≡ ok out) ↔ (ltb_ℤ status (pos 0) ≡ false))
unfolding add_service insert_service add_raw insert_raw
insert_outcomes k v buf out addr (pos n) live room some_addr b =
    let e = no_error n "fi_av_insertsvc" in
    let f = no_error n "fi_av_insert" in
    (ground (arith, live, e), ground (arith, live, room, some_addr, f))
insert_outcomes k v buf out addr (negsuc n) live room some_addr b =
    let e = error_of_code n "fi_av_insertsvc" b in
    let f = error_of_code n "fi_av_insert" b in
    (ground (arith, live, e), ground (arith, live, room, some_addr, f))

abbrev pub is_allocated : ℕ → VectorEffect → Bool
is_allocated p (allocated q) = q == p
is_allocated p _ = false

abbrev pub is_freed : ℕ → VectorEffect → Bool
is_freed p (freed q) = q == p
is_freed p _ = false

add_raw-frees :
    (k : Codes) (v : ℕ) (addr : List ℕ) (buf : ℕ) (status : ℤ) (out p : ℕ)
    → let log = (add_raw k (some v) addr buf status out).1 in
      count_if (is_allocated p) log ≡ count_if (is_freed p) log
unfolding add_raw
add_raw-frees k v addr buf status out p = ground arith

insert_name-frees :
    (k : Codes) (v : ℕ) (found : Result (List ℕ)) (buf : ℕ) (status : ℤ) (out p : ℕ)
    → let log = (insert_name k v found buf status out).1 in
      count_if (is_allocated p) log ≡ count_if (is_freed p) log
unfolding insert_name
insert_name-frees k v (err e) buf status out p = refl
insert_name-frees k v (ok bytes) buf status out p = add_raw-frees k v bytes buf status out p

-- RegisterAddress on open handles, with a provider that answers FI_ENOSPC to a buffer too small for the
-- endpoint's name: it inserts a name of 1 to 4096 bytes as InsertRaw of the C layer does, refuses an
-- empty one and does not find a longer one; with any provider the copy of the name is freed as often as it
-- is allocated.
pub register_address_named :
    (k : Codes) (ep v buf out : ℕ) (status : ℤ)
    → ep ≢ 0
    → v ≢ 0
    → buf ≢ 0
    → k.no_space ≢ 0
    → ((bytes : List ℕ)
        → (register_address k (some ep) (some v) (provider_of k.no_space bytes) buf status out).0
          ≡ (if length bytes == 0
              then err (message "libfabric: empty address payload")
              else if leb (length bytes) 4096
              then insert_raw k v buf status out
              else err (message "libfabric: unable to retrieve endpoint name")))
      × ((provider : ℕ → Reply) (p : ℕ)
          → let log = (register_address k (some ep) (some v) provider buf status out).1 in
            count_if (is_allocated p) log ≡ count_if (is_freed p) log)
unfolding register_address add_raw
register_address_named k ep v buf out status live lv lb ne = (
  λ bytes. rw (name-named k ep bytes live ne) (ground (arith, lb)),
  λ provider p. insert_name-frees k v (name k ep provider).0 buf status out p,
)
