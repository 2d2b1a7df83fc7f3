-- ===== src/Fi/Discover/Manual.antt =====
-- internal/capi/info.go: what the manual pages of the C library say of the memory of fi_info lists, and
-- what GetInfo and Free make of it.
use libfabric_go.Capi.Errors.Laws.{error_from_status-is_errno}
use libfabric_go.Base.Int.{pos, ℤ, negsuc}
use libfabric_go.Base.{
  ℕ, ◌^◌, List, suc, ◌≡◌, ◌⊎◌, length, ◌<◌, ◌≢◌, true, none, Bool-cases, some, refl, ◌==◌, arith,
  inl, inr,
}
use libfabric_go.Capi.Errors.{GoError, ok, err, error_from_status}
use libfabric_go.Capi.Info.{Heap, Info, Query, Libfabric, free, found_list}
use libfabric_go.Capi.Info.Chains.{Chain, Without, Chain-nil}
use libfabric_go.Fi.Discover.Filters.{After, blank}

-- Addresses have 64 bits, so that no list has more nodes.
abbrev pub max_nodes : ℕ
max_nodes = 2 ^ 64

-- A list that fi_getinfo has allocated, with all else as it was.
pub record Finds (c : Libfabric) (q : Query) (h : Heap) : Type 0 where
  pub nodes : List ℕ
  pub succeeds : (c.fi_getinfo q h).0.0 ≡ pos 0
  pub short : length nodes < max_nodes
  pub chain : Chain (c.fi_getinfo q h).1 (c.fi_getinfo q h).0.1 nodes
  pub others : Without nodes (c.fi_getinfo q h).1 h

-- A negative code and no change.
pub record Misses (c : Libfabric) (q : Query) (h : Heap) : Type 0 where
  pub code : ℕ
  pub bound : suc code < 2 ^ 31
  pub fails : (c.fi_getinfo q h).0.0 ≡ negsuc code
  pub others : (p : ℕ) → (c.fi_getinfo q h).1 p ≡ h p

-- A node without hints at an address that was free, or a nil pointer and no change.
unfoldable pub Allocates : Libfabric → Heap → Type 0
Allocates c h =
    (((c.fi_allocinfo h).0 ≡ 0) × ((p : ℕ) → (c.fi_allocinfo h).1 p ≡ h p))
    ⊎ (((c.fi_allocinfo h).0 ≢ 0)
        × (h (c.fi_allocinfo h).0 ≡ none)
        × After h (c.fi_allocinfo h).0 0 blank (c.fi_allocinfo h).1)

pub record Documented (c : Libfabric) : Type 0 where
  pub getinfo : (q : Query) (h : Heap) → Finds c q h ⊎ Misses c q h
  pub allocinfo : (h : Heap) → Allocates c h
  pub freeinfo :
      (h : Heap) (p : ℕ) (ps : List ℕ)
      → Chain h p ps
      → length ps < max_nodes
      → Without ps h (c.fi_freeinfo p h)

-- A free of an owned list takes exactly its nodes out of memory.
pub free-Without :
    (c : Libfabric) (i : Info) (h : Heap) (ps : List ℕ)
    → Documented c
    → i.owns ≡ true
    → Chain h i.ptr ps
    → length ps < max_nodes
    → Without ps h (free c i h).1
unfolding free Without
free-Without c i h ps d o l b q = elim (Bool-cases (i.ptr == 0)) [
  | inl z ↦ ground (arith, Chain-nil q l z)
  | inr z ↦ ground (arith, d.freeinfo h i.ptr ps l b q)
]

pub found_list-ok : (out : ℕ) → found_list (pos 0) out ≡ ok (record { ptr = out; owns = true })
unfolding found_list error_from_status
found_list-ok out = refl

found_list-some :
    (status : ℤ) (out : ℕ) (e : GoError)
    → error_from_status status "fi_getinfo" ≡ some e
    → found_list status out ≡ err e
unfolding found_list
found_list-some status out e r = ground (arith, r)

pub found_list-err :
    (code out : ℕ) → suc code < 2 ^ 31 → (e : GoError) × (found_list (negsuc code) out ≡ err e)
found_list-err code out b =
    let (e, r, _) = error_from_status-is_errno code "fi_getinfo" b in
    (e, found_list-some (negsuc code) out e r)
