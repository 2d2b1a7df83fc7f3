-- ===== src/Fi/Examples/Discoveries.antt =====
-- fi/discover.go: discoveries on a C library with two descriptors.
use libfabric_go.Capi.Info.Read.{
  provider_name, fabric_name, domain_name, domain_attr_of, caps_of, mode_of, endpoint_type_of,
}
use libfabric_go.Base.{
  Option, ℕ, none, ◌*◌, ◌≡◌, ◌≢◌, Option-cases, some, if◌then◌else◌, ◌∷◌, ◌⊎◌, inl, List, ◌^◌, ◌==◌,
  is_some, [], arith, inr, length, ◌+◌, ◌<◌, not, ◌%◌, ◌&&◌, refl, true, Bool-cases,
}
use Prim.Native.Nat.{ℕ}
use libfabric_go.Base.{◌/◌}
use libfabric_go.Base.Int.{ℤ, pos, negsuc}
use libfabric_go.Capi.Info.{FiInfo, FabricAttr, Heap, Query, Libfabric, walk}
use libfabric_go.Capi.Info.Chains.{Chain, end, link, among, walk-Chain, Without}
use libfabric_go.Capi.Version.{Version}
use libfabric_go.Fi.Discover.{
  DiscoverOption, discover, discover_descriptors, with_provider, with_caps, apply_options,
  default_discover_config, apply_hints,
}
use libfabric_go.Fi.Discover.Filters.{After, blank, asked, summary, view, apply_hints-After}
use libfabric_go.Fi.Discover.Manual.{Documented, Finds, Misses, Allocates, max_nodes}
use libfabric_go.Fi.Discover.Leakless.{discover_leakless, Found}

abbrev tcp : Option FabricAttr
tcp = some (record { prov_name = some "tcp"; name = some "lo"; prov_version = 1; api_version = 2 })

abbrev descriptor : ℕ → ℕ → FiInfo
descriptor caps next = record {
  caps = caps;
  mode = 0;
  fabric_attr = tcp;
  domain_attr = none;
  ep_attr = some 3;
  tx_attr = none;
  next = next;
}

abbrev no_hints : FiInfo
no_hints = record {
  caps = 0;
  mode = 0;
  fabric_attr = none;
  domain_attr = none;
  ep_attr = none;
  tx_attr = none;
  next = 0;
}

abbrev store : ℕ → FiInfo → Heap → Heap
store p n h q = if p == q then some n else h q

-- Two nodes at the addresses 10 and 11, or no memory left.
unfoldable getinfo : Query → Heap → (ℤ × ℕ) × Heap
getinfo q h =
    if not (is_some (h 10)) && not (is_some (h 11))
    then ((pos 0, 10), store 10 (descriptor 2 11) (store 11 (descriptor 4 0) h))
    else ((negsuc 11, 0), h)

-- One node at the address 5, or nil.
unfoldable allocinfo : Heap → ℕ × Heap
allocinfo h = if is_some (h 5) then (0, h) else (5, store 5 no_hints h)

abbrev without : Option (List ℕ) → Heap → Heap
without none h = h
without (some ps) h = λ q. if among q ps then none else h q

unfoldable freeinfo : ℕ → Heap → Heap
freeinfo p h = without (walk max_nodes h p) h

unfoldable pub library : Libfabric
unfolding getinfo allocinfo freeinfo
library = record {
  fi_version = λ major minor. major * 2 ^ 16 + minor;
  fi_major = λ v. v / 2 ^ 16;
  fi_minor = λ v. v % 2 ^ 16;
  fi_getinfo = getinfo;
  fi_allocinfo = allocinfo;
  fi_freeinfo = freeinfo;
}

abbrev two_nodes : Heap → Heap
two_nodes h = store 10 (descriptor 2 11) (store 11 (descriptor 4 0) h)

finds_two :
    (q : Query) (h : Heap)
    → h 10 ≡ none
    → h 11 ≡ none
    → library.fi_getinfo q h ≡ ((pos 0, 10), two_nodes h)
unfolding library getinfo
finds_two q h e f = rw (e, f) refl

two-Chain : (h : Heap) → Chain (two_nodes h) 10 (10 ∷ 11 ∷ [])
two-Chain h = link (omega arith) refl (link (omega arith) refl end)

two-Without : (h : Heap) → h 10 ≡ none → h 11 ≡ none → Without (10 ∷ 11 ∷ []) (two_nodes h) h
unfolding Without
two-Without h e f p = elim (Bool-cases (p == 10)) [
  | inl t ↦ let same : p ≡ 10 = ground (arith, t) in rw same (ground (arith, e))
  | inr t ↦ elim (Bool-cases (p == 11)) [
    | inl u ↦ let same : p ≡ 11 = ground (arith, u) in rw same (ground (arith, f))
    | inr u ↦ ground (arith, t, u)
  ]
]

finds : (q : Query) (h : Heap) → h 10 ≡ none → h 11 ≡ none → Finds library q h
finds q h e f =
    let r = finds_two q h e f in
    record {
      nodes = 10 ∷ 11 ∷ [];
      succeeds = rw r refl;
      short = omega arith;
      chain = rw r (two-Chain h);
      others = rw r (two-Without h e f);
    }

misses : (q : Query) (h : Heap) → (h 10 ≢ none) ⊎ (h 11 ≢ none) → Misses library q h
unfolding library getinfo
misses q h e = record {
  code = 11;
  bound = omega arith;
  fails = ground (arith, e);
  others = λ p. ground (arith, e);
}

allocates_one : (h : Heap) → h 5 ≡ none → library.fi_allocinfo h ≡ (5, store 5 no_hints h)
unfolding library allocinfo
allocates_one h e = rw e refl

one-After : (h : Heap) → After h 5 0 blank (store 5 no_hints h)
unfolding After summary view provider_name fabric_name domain_name domain_attr_of caps_of mode_of
    endpoint_type_of
one-After h = (refl, λ q d. ground (arith, d))

allocates : (h : Heap) → Allocates library h
unfolding library allocinfo Allocates
allocates h = elim (Option-cases (h 5)) [
  | inl e ↦ inr (rw (allocates_one h e) (omega arith, e, one-After h))
  | inr (n, e) ↦ inl (ground (arith, e), λ p. ground (arith, e))
]

frees :
    (h : Heap) (p : ℕ) (ps : List ℕ)
    → Chain h p ps
    → length ps < max_nodes
    → Without ps h (library.fi_freeinfo p h)
unfolding library freeinfo Without
frees h p ps l b q = rw (walk-Chain max_nodes l (omega arith)) refl

documented : Documented library
documented = record {
  getinfo = λ q h. elim (Option-cases (h 10)) [
    | inl e ↦ elim (Option-cases (h 11)) [
      | inl f ↦ inl (finds q h e f)
      | inr (n, f) ↦ inr (misses q h (inr (ground (arith, f))))
    ]
    | inr (n, e) ↦ inr (misses q h (inl (ground (arith, e))))
  ];
  allocinfo = allocates;
  freeinfo = frees;
}

abbrev version : Version
version = record { major = 1; minor = 20 }

abbrev options : List DiscoverOption
options = with_provider "tcp" ∷ with_caps 2 ∷ []

abbrev no_memory : Heap
no_memory p = none

discover_leakless_example :
    ((q : ℕ) → (discover max_nodes library version version options no_memory).1 q ≡ none)
    × Found library
        (discover_descriptors library version version options no_memory)
        (discover max_nodes library version version options no_memory).0
discover_leakless_example =
    discover_leakless max_nodes library version version options no_memory documented (omega arith)

apply_hints-After_example :
    After no_memory 5 0 (asked (apply_options options (default_discover_config version))) (
      apply_hints
        (apply_options options (default_discover_config version))
        (record { ptr = 5; owns = true })
        (store 5 no_hints no_memory))
apply_hints-After_example =
    apply_hints-After no_memory 0 (record { ptr = 5; owns = true })
      (apply_options options (default_discover_config version)) (store 5 no_hints no_memory)
      (omega arith) (one-After no_memory)
