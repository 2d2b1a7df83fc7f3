-- ===== src/Fi/Discover/Leakless.antt =====
-- fi/discover.go: a discovery reads its list before it frees it, and gives back what it allocated. The
-- calls of the C library are parameters; what their manual pages say of memory is `Documented`.
use libfabric_go.Fi.Discover.Manual.{
  Allocates, Documented, max_nodes, found_list-ok, free-Without, found_list-err,
}
use libfabric_go.Capi.Version.{Version, ensure_runtime_compatible}
use libfabric_go.Capi.Errors.{Result, err, ok, GoError}
use libfabric_go.Base.{
  ℕ, ◌≡◌, ◌≢◌, ◌<◌, ◌∙◌, refl, true, none, some, List, arith, Option, map, Bool-cases, inl, [], inr,
  ◌∷◌, Option-cases, sym, String, length, ◌≤◌,
}
use mathlib.Core.Path.{subst}
use libfabric_go.Capi.Info.{Heap, Libfabric, Info, free, alloc_info, get_info, query, entries}
use libfabric_go.Capi.Info.Chains.{
  Chain, end, link, link, entries-Chain, Without, Chain-agree, Chain-some,
}
use libfabric_go.Fi.Discover.{
  Snapshot, info_from_entry, snapshots, info_from_entry, Result, make_hints, DiscoverConfig,
  needs_hints, apply_hints, free_hints, Version, discover_descriptors, discover, DiscoverOption,
  apply_options, default_discover_config, discover_checked, take_snapshots,
}
use libfabric_go.Fi.Discover.Filters.{After, summary, View, apply_hints-After, apply_hints-nil}

-- What can be read at the addresses.
abbrev pub read_all : Libfabric → Heap → List ℕ → List Snapshot
read_all c h ps = map (λ p. info_from_entry c (h p)) ps

-- The nodes of a chain can be read.
snapshots-Chain :
    (c : Libfabric) {h : Heap} {p : ℕ} {ps : List ℕ}
    → Chain h p ps
    → snapshots c h ps ≡ some (read_all c h ps)
unfolding snapshots
snapshots-Chain c end = refl
snapshots-Chain c (link {n = n} ne e l) = ground (arith, e, snapshots-Chain c l)

-- A list that the Go value owns and that is all that is new in memory.
unfoldable pub Owned : Heap → Info → Heap → Type 0
unfolding Without
Owned h i h' =
    (i.owns ≡ true)
    × ((ps : List ℕ) × (length ps < max_nodes) × Chain h' i.ptr ps × Without ps h' h)

-- What a call for descriptors leaves: an error and the memory as it was, or a list, which is all that is
-- new.
DescriptorsOutcome : Heap → Result Info → Heap → Type 0
DescriptorsOutcome h (err e) h' = (q : ℕ) → h' q ≡ h q
DescriptorsOutcome h (ok i) h' = Owned h i h'

-- Hints: nothing, or a list that is all that is new.
HintsOutcome : Heap → Option Info → Heap → Type 0
HintsOutcome h none h' = (q : ℕ) → h' q ≡ h q
HintsOutcome h (some i) h' = Owned h i h'

Node-Chain : (h0 h : Heap) (p : ℕ) (v : View) → p ≢ 0 → After h0 p 0 v h → Chain h p (p ∷ [])
unfolding After summary
Node-Chain h0 h p v ne a = elim (Option-cases (h p)) [
  | inl e ↦ ground (arith, a.0, e)
  | inr (n, e) ↦ link ne e (subst (λ x. Chain h x []) (ground (arith, a.0, e)) end)
]

-- The hints in new memory, by what the C library allocated for them.
allocated-HintsOutcome :
    (c : Libfabric) (cfg : DiscoverConfig) (h : Heap)
    → Allocates c h
    → let i = (alloc_info c h).0 in HintsOutcome h (some i) (apply_hints cfg i (alloc_info c h).1)
unfolding Owned alloc_info Allocates HintsOutcome Without After
allocated-HintsOutcome c cfg h (inl (z, same)) = (
  refl,
  (
    [],
    omega arith,
    subst (λ p. Chain (apply_hints cfg (alloc_info c h).0 (alloc_info c h).1) p []) (sym z) end,
    λ q. ground (arith, same q, apply_hints-nil (alloc_info c h).0 cfg (alloc_info c h).1 q z),
  ),
)
allocated-HintsOutcome c cfg h (inr (ne, was, after)) =
    let i : Info = (alloc_info c h).0 in
    let a = apply_hints-After h 0 i cfg (alloc_info c h).1 ne after in
    (refl, (i.ptr ∷ [], omega arith, Node-Chain h _ _ _ ne a, λ q. ground (arith, was, a.1 q)))

make_hints-Outcome :
    (c : Libfabric) (cfg : DiscoverConfig) (h : Heap)
    → Documented c
    → HintsOutcome h (make_hints c cfg h).0 (make_hints c cfg h).1
unfolding Owned make_hints HintsOutcome
make_hints-Outcome c cfg h d = elim (Bool-cases (needs_hints cfg)) [
  | inl t ↦ rw t (allocated-HintsOutcome c cfg h (d.allocinfo h))
  | inr f ↦ rw f (λ q. refl)
]

get_info-Outcome :
    (c : Libfabric) (ver : Version) (node service : String) (flags : ℕ) (hints : Option Info)
    (h : Heap)
    → Documented c
    → let g = get_info c ver node service flags hints h in DescriptorsOutcome h g.0 g.1
unfolding Owned get_info DescriptorsOutcome
get_info-Outcome c ver node service flags hints h d =
    let asks = query c ver node service flags hints in
    let answer = c.fi_getinfo asks h in
    elim (d.getinfo asks h) [
      | inl f ↦
          rw (f.succeeds, found_list-ok answer.0.1) (refl, (f.nodes, f.short, f.chain, f.others))
      | inr f ↦ let (e, r) = found_list-err f.code answer.0.1 f.bound in rw (f.fails, r) f.others
    ]

free_hints-Outcome :
    (c : Libfabric) (h h1 h2 : Heap) (hints : Option Info) (r : Result Info)
    → Documented c
    → HintsOutcome h hints h1
    → DescriptorsOutcome h1 r h2
    → DescriptorsOutcome h r (free_hints c hints h2)
unfolding Owned HintsOutcome DescriptorsOutcome Without free_hints
free_hints-Outcome c h h1 h2 none (err e) d a b = λ q. b q ∙ a q
free_hints-Outcome c h h1 h2 none (ok i) d a (o, (ps, n, l, w)) =
    (o, (ps, n, l, λ q. ground (arith, a q, w q)))
free_hints-Outcome c h h1 h2 (some i) (err e) d (o, (ps, n, l, w)) b =
    let freed = free-Without c i h2 ps d o (Chain-agree l (λ q m. b q)) n in
    λ q. ground (arith, freed q, b q, w q)
free_hints-Outcome c h h1 h2 (some i) (ok j) d (o, (ps, n, l, w)) (o', (ps', n', l', w')) =
    let kept : Chain h2 i.ptr ps = Chain-agree l (λ q m. ground (arith, w' q, Chain-some q l m)) in
    let freed = free-Without c i h2 ps d o kept n in
    (
      o',
      (
        ps',
        n',
        Chain-agree l' (λ q m. ground (arith, freed q, m, w' q, w q, Chain-some q l)),
        λ q. ground (arith, freed q, w' q, w q, Chain-some q l),
      ),
    )

discover_checked-Outcome :
    (c : Libfabric) (check : Option GoError) (build : Version) (opts : List DiscoverOption)
    (h : Heap)
    → Documented c
    → let r = discover_checked c check build opts h in DescriptorsOutcome h r.0 r.1
unfolding Owned discover_checked DescriptorsOutcome
discover_checked-Outcome c (some e) build opts h d = λ q. refl
discover_checked-Outcome c none build opts h d =
    let cfg = apply_options opts (default_discover_config build) in
    let m = make_hints c cfg h in
    free_hints-Outcome c h m.1 _ m.0 _ d (make_hints-Outcome c cfg h d)
      (get_info-Outcome c cfg.version cfg.node cfg.service cfg.flags m.0 m.1 d)

-- What Discover gives: the error of the call for descriptors, or what can be read in the nodes of the
-- list that this call found.
unfoldable pub Found : Libfabric → Result Info × Heap → Option (Result (List Snapshot)) → Type 0
Found c (err e, h) r = r ≡ some (err e)
Found c (ok i, h) r = (ps : List ℕ) × Chain h i.ptr ps × (r ≡ some (ok (read_all c h ps)))

take_snapshots-ok :
    (fuel : ℕ) (c : Libfabric) (i : Info) (h : Heap) (ps : List ℕ) (infos : List Snapshot)
    → entries fuel i h ≡ some ps
    → snapshots c h ps ≡ some infos
    → take_snapshots fuel c (ok i, h) ≡ (some (ok infos), (free c i h).1)
unfolding take_snapshots
take_snapshots-ok fuel c i h ps infos e s = ground (arith, e, s)

take_snapshots-Found :
    (fuel : ℕ) (c : Libfabric) (h h1 : Heap) (r : Result Info)
    → Documented c
    → max_nodes ≤ fuel
    → DescriptorsOutcome h r h1
    → ((q : ℕ) → (take_snapshots fuel c (r, h1)).1 q ≡ h q)
      × Found c (r, h1) (take_snapshots fuel c (r, h1)).0
unfolding Owned take_snapshots DescriptorsOutcome Found Without
take_snapshots-Found fuel c h h1 (err e) d f o = (o, refl)
take_snapshots-Found fuel c h h1 (ok i) d f (o, (ps, n, l, w)) =
    let walked = entries-Chain fuel i h1 ps l (omega arith) in
    let freed = free-Without c i h1 ps d o l n in
    rw (take_snapshots-ok fuel c i h1 ps _ walked (snapshots-Chain c l))
      (λ q. ground (arith, freed q, w q), (ps, l, refl))

-- Where the C library does with its memory what it documents, and the loop over the entries has as many
-- rounds as memory has addresses: when Discover ends, the memory is as it was before, whether it failed or
-- not; an error is that of the call for descriptors, and a success holds what the nodes of the list that
-- this call found held before they were freed, all of them in their order.
pub discover_leakless :
    (fuel : ℕ) (c : Libfabric) (runtime build : Version) (opts : List DiscoverOption) (h : Heap)
    → Documented c
    → max_nodes ≤ fuel
    → let r = discover fuel c runtime build opts h in
      ((q : ℕ) → r.1 q ≡ h q) × Found c (discover_descriptors c runtime build opts h) r.0
unfolding discover discover_descriptors
discover_leakless fuel c runtime build opts h d f =
    let check = ensure_runtime_compatible runtime build in
    let r = discover_checked c check build opts h in
    take_snapshots-Found fuel c h r.1 r.0 d f (discover_checked-Outcome c check build opts h d)
