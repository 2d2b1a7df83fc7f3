-- ===== src/Fi/Memory/Close.antt =====
-- fi/memory.go, MemoryRegion.Close: what a close gives back, and that it does so once.
use mathlib.Core.List.{append-nil}
use libfabric_go.Base.{ℕ, ◌≡◌, Option, none, some, ◌++◌, ==_refl, arith}
use libfabric_go.Capi.Errors.{GoError}
use libfabric_go.Fi.Memory.{Memory, close_region, closed_region, deregister, free_owned, update}

accepted :
    (closes : ℕ → Option GoError) (id : ℕ) (h : Memory)
    → (close_region closes id h).1 ≡ none
    → (close_region closes id h).0 ≡ record h {
      regions = update h.regions id closed_region;
      log = h.log ++ (deregister (h.regions id) ++ free_owned (h.regions id));
    }
unfolding close_region
accepted closes id h e = ground arith

-- A closed region has nothing to give back.
close_closed :
    (closes : ℕ → Option GoError) (id : ℕ) (h : Memory)
    → h.regions id ≡ closed_region
    → ((close_region closes id h).1 ≡ none)
      × ((close_region closes id h).0.log ≡ h.log)
      × ((close_region closes id h).0.regions id ≡ closed_region)
unfolding close_region
close_closed closes id h e = ground (arith, append-nil h.log)

-- A close that the C library refuses keeps the region as it was. One that it accepts deregisters the
-- handle if there is one, frees the buffer if the region owns one, and leaves a region whose next close
-- succeeds, gives nothing back a second time and keeps the region closed, whatever the library answers.
pub close_region_once :
    (closes closes' : ℕ → Option GoError) (id : ℕ) (h : Memory)
    → ((e : GoError) → (close_region closes id h).1 ≡ some e → (close_region closes id h).0 ≡ h)
      × ((close_region closes id h).1 ≡ none
          → ((close_region closes id h).0.log
              ≡ h.log ++ (deregister (h.regions id) ++ free_owned (h.regions id)))
            × ((close_region closes id h).0.regions id ≡ closed_region)
            × ((close_region closes' id (close_region closes id h).0).1 ≡ none)
            × ((close_region closes' id (close_region closes id h).0).0.log
                ≡ (close_region closes id h).0.log)
            × ((close_region closes' id (close_region closes id h).0).0.regions id ≡ closed_region))
close_region_once closes closes' id h = (
  λ e p. unfold close_region in ground arith,
  λ p.
      let a = accepted closes id h p in
      let z : (close_region closes id h).0.regions id ≡ closed_region = rw (a, ==_refl id) in
      let (x, y, w) = close_closed closes' id (close_region closes id h).0 z in (rw a, z, x, y, w),
)
