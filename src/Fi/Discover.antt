-- ===== src/Fi/Discover.antt =====
-- fi/discover.go: the options of a discovery, the hints made from them, and the discovery itself over
-- the lists of fi_info of internal/capi/info.go. A capability or mode word is a number.
pub mod Filters
pub mod Manual
pub mod Leakless
use libfabric_go.Base.{
  ℕ, String, Bool, true, false, not, ◌&&◌, ◌||◌, Option, none, some, List, [], ◌∷◌, map, ◌==◌,
  if◌then◌else◌, str_eq,
}
use libfabric_go.Base.Bits.{and_bits}
use libfabric_go.Capi.Errors.{Result, ok, err, GoError}
use libfabric_go.Capi.Version.{Version, ensure_runtime_compatible}
use libfabric_go.Capi.Info.{
  FiInfo, Heap, Info, Libfabric, set_provider, set_fabric_name, set_domain_name, set_endpoint_type,
  set_caps, set_mode, alloc_info, free, get_info, entries,
}
use libfabric_go.Capi.Info.Read.{
  provider_name, fabric_name, domain_name, caps_of, mode_of, endpoint_type_of, provider_version,
  api_version, inject_size, mr_mode, mr_key_size, mr_iov_limit,
}

-- `Info` of the source, a copy of the values of an entry.
pub record Snapshot : Type 0 where
  pub provider : String
  pub fabric : String
  pub domain : String
  pub caps : ℕ
  pub mode : ℕ
  pub endpoint : ℕ
  pub provider_version : Version
  pub api_version : Version
  pub inject_size : ℕ
  pub mr_mode : ℕ
  pub mr_key_size : ℕ
  pub mr_iov_limit : ℕ

unfoldable pub info_from_entry : Libfabric → Option FiInfo → Snapshot
info_from_entry c e = record {
  provider = provider_name e;
  fabric = fabric_name e;
  domain = domain_name e;
  caps = caps_of e;
  mode = mode_of e;
  endpoint = endpoint_type_of e;
  provider_version = libfabric_go.Capi.Info.Read.provider_version c e;
  api_version = libfabric_go.Capi.Info.Read.api_version c e;
  inject_size = libfabric_go.Capi.Info.Read.inject_size e;
  mr_mode = libfabric_go.Capi.Info.Read.mr_mode e;
  mr_key_size = libfabric_go.Capi.Info.Read.mr_key_size e;
  mr_iov_limit = libfabric_go.Capi.Info.Read.mr_iov_limit e;
}

-- `nil` of a pointer in the configuration is `none`, an unset name is "".
pub record DiscoverConfig : Type 0 where
  pub version : Version
  pub node : String
  pub service : String
  pub flags : ℕ
  pub provider : String
  pub fabric : String
  pub domain : String
  pub endpoint_type : Option ℕ
  pub caps : Option ℕ
  pub mode : Option ℕ

abbrev pub DiscoverOption : Type 0
DiscoverOption = DiscoverConfig → DiscoverConfig

-- `build` is the version of the headers.
unfoldable pub default_discover_config : Version → DiscoverConfig
default_discover_config build = record {
  version = build;
  node = "";
  service = "";
  flags = 0;
  provider = "";
  fabric = "";
  domain = "";
  endpoint_type = none;
  caps = none;
  mode = none;
}

unfoldable pub with_node : String → DiscoverOption
with_node node cfg = record cfg { node = node }

unfoldable pub with_service : String → DiscoverOption
with_service service cfg = record cfg { service = service }

unfoldable pub with_flags : ℕ → DiscoverOption
with_flags flags cfg = record cfg { flags = flags }

unfoldable pub with_provider : String → DiscoverOption
with_provider provider cfg = record cfg { provider = provider }

unfoldable pub with_fabric : String → DiscoverOption
with_fabric name cfg = record cfg { fabric = name }

unfoldable pub with_domain : String → DiscoverOption
with_domain name cfg = record cfg { domain = name }

unfoldable pub with_endpoint_type : ℕ → DiscoverOption
with_endpoint_type ep cfg = record cfg { endpoint_type = some ep }

unfoldable pub with_caps : ℕ → DiscoverOption
with_caps caps cfg = record cfg { caps = some caps }

unfoldable pub with_mode : ℕ → DiscoverOption
with_mode mode cfg = record cfg { mode = some mode }

unfoldable pub with_version : Version → DiscoverOption
with_version ver cfg = record cfg { version = ver }

unfoldable pub apply_options : List DiscoverOption → DiscoverConfig → DiscoverConfig
apply_options [] cfg = cfg
apply_options (opt ∷ opts) cfg = apply_options opts (opt cfg)

abbrev pub given : Option ℕ → Bool
given none = false
given (some n) = true

unfoldable pub needs_hints : DiscoverConfig → Bool
needs_hints cfg =
    not (str_eq cfg.provider "")
    || not (str_eq cfg.fabric "")
    || not (str_eq cfg.domain "")
    || given cfg.endpoint_type
    || given cfg.caps
    || given cfg.mode

-- A name is set unless it is "", a word unless its pointer is nil.
abbrev pub apply_name : (String → Info → Heap → Heap) → String → Info → Heap → Heap
apply_name set s i h = if str_eq s "" then h else set s i h

abbrev pub apply_word : (ℕ → Info → Heap → Heap) → Option ℕ → Info → Heap → Heap
apply_word set none i h = h
apply_word set (some n) i h = set n i h

unfoldable pub apply_hints : DiscoverConfig → Info → Heap → Heap
unfolding needs_hints
apply_hints cfg i h =
    if not (needs_hints cfg)
    then h
    else let h1 = apply_name set_provider cfg.provider i h in
      let h2 = apply_name set_fabric_name cfg.fabric i h1 in
      let h3 = apply_name set_domain_name cfg.domain i h2 in
      let h4 = apply_word set_endpoint_type cfg.endpoint_type i h3 in
      let h5 = apply_word set_caps cfg.caps i h4 in apply_word set_mode cfg.mode i h5

-- The hints, which are allocated only if an option asks for some.
unfoldable pub make_hints : Libfabric → DiscoverConfig → Heap → Option Info × Heap
make_hints c cfg h =
    let a = alloc_info c h in
    if needs_hints cfg then (some a.0, apply_hints cfg a.0 a.1) else (none, h)

-- `defer hints.Free()`.
unfoldable pub free_hints : Libfabric → Option Info → Heap → Heap
free_hints c none h = h
free_hints c (some i) h = (free c i h).1

-- A `*Discovery` is the list that it owns. The first argument is the answer of the runtime check.
unfoldable pub discover_checked :
    Libfabric → Option GoError → Version → List DiscoverOption → Heap → Result Info × Heap
unfolding default_discover_config apply_options make_hints free_hints
discover_checked c (some e) build opts h = (err e, h)
discover_checked c none build opts h =
    let cfg = apply_options opts (default_discover_config build) in
    let m = make_hints c cfg h in
    let q = get_info c cfg.version cfg.node cfg.service cfg.flags m.0 m.1 in
    (q.0, free_hints c m.0 q.1)

-- `runtime` and `build` are the versions of the linked library and of the headers.
unfoldable pub discover_descriptors :
    Libfabric → Version → Version → List DiscoverOption → Heap → Result Info × Heap
unfolding discover_checked
discover_descriptors c runtime build opts h =
    discover_checked c (ensure_runtime_compatible runtime build) build opts h

-- `Discovery.Close`; a closed discovery has no list.
unfoldable pub close_discovery : Libfabric → Option Info → Heap → Option Info × Heap
close_discovery c none h = (none, h)
close_discovery c (some i) h = (none, (free c i h).1)

-- The entries of a discovery, after at most `fuel` rounds of the loop of Entries; without fuel, `none`.
unfoldable pub descriptors : ℕ → Option Info → Heap → Option (List ℕ)
descriptors fuel none h = some []
descriptors fuel (some i) h = entries fuel i h

abbrev pub any_endpoint : ℕ → Heap → List ℕ → Bool
any_endpoint t h [] = false
any_endpoint t h (p ∷ ps) = endpoint_type_of (h p) == t || any_endpoint t h ps

unfoldable pub supports_endpoint_type : ℕ → ℕ → Option Info → Heap → Option Bool
unfolding descriptors
supports_endpoint_type fuel t d h = elim (descriptors fuel d h) [
  | none ↦ none
  | some ps ↦ some (any_endpoint t h ps)
]

-- A read of memory that is not allocated gives no snapshot.
unfoldable pub snapshots : Libfabric → Heap → List ℕ → Option (List Snapshot)
snapshots c h [] = some []
snapshots c h (p ∷ ps) = elim (h p) [
  | none ↦ none
  | some n ↦ elim (snapshots c h ps) [
    | none ↦ none
    | some infos ↦ some (info_from_entry c (some n) ∷ infos)
  ]
]

-- The end of a discovery, from what the call for descriptors gave: `none` is a discovery that reads
-- memory that is not allocated, or whose loop still runs.
unfoldable pub take_snapshots :
    ℕ → Libfabric → Result Info × Heap → Option (Result (List Snapshot)) × Heap
unfolding descriptors snapshots close_discovery
take_snapshots fuel c (err e, h) = (some (err e), h)
take_snapshots fuel c (ok i, h) =
    let closed = (close_discovery c (some i) h).1 in
    elim (descriptors fuel (some i) h) [
      | none ↦ (none, closed)
      | some ps ↦ elim (snapshots c h ps) [
        | none ↦ (none, closed)
        | some infos ↦ (some (ok infos), closed)
      ]
    ]

unfoldable pub discover :
    ℕ
    → Libfabric
    → Version
    → Version
    → List DiscoverOption
    → Heap
    → Option (Result (List Snapshot)) × Heap
unfolding discover_descriptors take_snapshots
discover fuel c runtime build opts h =
    take_snapshots fuel c (discover_descriptors c runtime build opts h)
