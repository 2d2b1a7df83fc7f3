-- ===== src/Fi/Discover/Filters.antt =====
-- fi/discover.go: what a configuration asks for, read back from the hints made of it.
use libfabric_go.Base.{
  ℕ, ◌≡◌, ◌≢◌, String, Option, some, arith, ◌==◌, false, none, Bool-cases, inl, inr, refl,
}
use libfabric_go.Capi.Info.{
  FiInfo, Heap, Info, c_string, set_provider, ensure_fabric_attr, set_fabric_name, set_domain_name,
  set_endpoint_type, set_caps, set_mode, ensure_domain_attr,
}
use libfabric_go.Capi.Info.Read.{
  go_string, provider_name, fabric_name, domain_name, caps_of, mode_of, endpoint_type_of,
  domain_attr_of, or_zero,
}
use libfabric_go.Fi.Discover.{apply_name, DiscoverConfig, needs_hints, apply_hints, apply_word}
use text.Mathlib.TextEquality.{eq_iff}

-- What a provider can read from a node about the hints.
pub record View : Type 0 where
  pub provider : String
  pub fabric : String
  pub domain : String
  pub endpoint : ℕ
  pub caps : ℕ
  pub mode : ℕ

unfoldable pub view : Option FiInfo → View
view e = record {
  provider = provider_name e;
  fabric = fabric_name e;
  domain = domain_name e;
  endpoint = endpoint_type_of e;
  caps = caps_of e;
  mode = mode_of e;
}

go_string-c_string : (s : String) → go_string (c_string s) ≡ s
go_string-c_string s = ground (arith, eq_iff s "")

-- The link of a node and its view.
unfoldable pub summary : Option FiInfo → Option (ℕ × View)
unfolding view
summary none = none
summary (some n) = some (n.next, view (some n))

-- The node at `p` links to `next` and reads as `v`; all else is as in the memory `h0`.
unfoldable pub After : Heap → ℕ → ℕ → View → Heap → Type 0
unfolding summary
After h0 p next v h = (summary (h p) ≡ some (next, v)) × ((q : ℕ) → (p == q) ≡ false → h q ≡ h0 q)

module _ (h0 : Heap) (next : ℕ) (i : Info) (ne : i.ptr ≢ 0) where
  After-set_provider :
      (s : String) (v : View) (h : Heap)
      → v.provider ≡ ""
      → After h0 i.ptr next v h
      → After h0 i.ptr next (record v { provider = s }) (apply_name set_provider s i h)
  unfolding After summary view set_provider provider_name fabric_name domain_name caps_of mode_of
      endpoint_type_of domain_attr_of ensure_fabric_attr ensure_domain_attr
  After-set_provider s v h b a =
      (ground (arith, go_string-c_string s, eq_iff s "", a.0), ground (arith, a.1))

  After-set_fabric_name :
      (s : String) (v : View) (h : Heap)
      → v.fabric ≡ ""
      → After h0 i.ptr next v h
      → After h0 i.ptr next (record v { fabric = s }) (apply_name set_fabric_name s i h)
  unfolding After summary view set_fabric_name provider_name fabric_name domain_name caps_of mode_of
      endpoint_type_of domain_attr_of ensure_fabric_attr ensure_domain_attr
  After-set_fabric_name s v h b a =
      (ground (arith, go_string-c_string s, eq_iff s "", a.0), ground (arith, a.1))

  After-set_domain_name :
      (s : String) (v : View) (h : Heap)
      → v.domain ≡ ""
      → After h0 i.ptr next v h
      → After h0 i.ptr next (record v { domain = s }) (apply_name set_domain_name s i h)
  unfolding After summary view set_domain_name provider_name fabric_name domain_name caps_of mode_of
      endpoint_type_of domain_attr_of ensure_fabric_attr ensure_domain_attr
  After-set_domain_name s v h b a =
      (ground (arith, go_string-c_string s, eq_iff s "", a.0), ground (arith, a.1))

  After-set_endpoint_type :
      (w : Option ℕ) (v : View) (h : Heap)
      → v.endpoint ≡ 0
      → After h0 i.ptr next v h
      → After h0 i.ptr next (record v { endpoint = or_zero w }) (apply_word set_endpoint_type w i h)
  unfolding After summary view set_endpoint_type provider_name fabric_name domain_name caps_of
      mode_of endpoint_type_of domain_attr_of
  After-set_endpoint_type w v h b a = (ground (arith, a.0), ground (arith, a.1))

  After-set_caps :
      (w : Option ℕ) (v : View) (h : Heap)
      → v.caps ≡ 0
      → After h0 i.ptr next v h
      → After h0 i.ptr next (record v { caps = or_zero w }) (apply_word set_caps w i h)
  unfolding After summary view set_caps provider_name fabric_name domain_name caps_of mode_of
      endpoint_type_of domain_attr_of
  After-set_caps w v h b a = (ground (arith, a.0), ground (arith, a.1))

  After-set_mode :
      (w : Option ℕ) (v : View) (h : Heap)
      → v.mode ≡ 0
      → After h0 i.ptr next v h
      → After h0 i.ptr next (record v { mode = or_zero w }) (apply_word set_mode w i h)
  unfolding After summary view set_mode provider_name fabric_name domain_name caps_of mode_of
      endpoint_type_of domain_attr_of
  After-set_mode w v h b a = (ground (arith, a.0), ground (arith, a.1))

abbrev pub blank : View
blank = record { provider = ""; fabric = ""; domain = ""; endpoint = 0; caps = 0; mode = 0 }

-- What the configuration asks for.
abbrev pub asked : DiscoverConfig → View
asked cfg = record {
  provider = cfg.provider;
  fabric = cfg.fabric;
  domain = cfg.domain;
  endpoint = or_zero cfg.endpoint_type;
  caps = or_zero cfg.caps;
  mode = or_zero cfg.mode;
}

asked_nothing : (cfg : DiscoverConfig) → needs_hints cfg ≡ false → asked cfg ≡ blank
unfolding needs_hints
asked_nothing cfg e =
    ground (arith, eq_iff cfg.provider "", eq_iff cfg.fabric "", eq_iff cfg.domain "")

-- Hints that are made in a node without any read back as the configuration asks, and nothing else in
-- memory is written.
pub apply_hints-After :
    (h0 : Heap) (next : ℕ) (i : Info) (cfg : DiscoverConfig) (h : Heap)
    → i.ptr ≢ 0
    → After h0 i.ptr next blank h
    → After h0 i.ptr next (asked cfg) (apply_hints cfg i h)
unfolding apply_hints
apply_hints-After h0 next i cfg h ne a =
    let e = asked_nothing cfg in
    let a1 = After-set_provider h0 next i ne cfg.provider blank h refl a in
    let a2 = After-set_fabric_name h0 next i ne cfg.fabric _ _ refl a1 in
    let a3 = After-set_domain_name h0 next i ne cfg.domain _ _ refl a2 in
    let a4 = After-set_endpoint_type h0 next i ne cfg.endpoint_type _ _ refl a3 in
    let a5 = After-set_caps h0 next i ne cfg.caps _ _ refl a4 in
    let a6 = After-set_mode h0 next i ne cfg.mode _ _ refl a5 in
    elim (Bool-cases (needs_hints cfg)) [ inl t ↦ rw t a6 | inr f ↦ rw (f, e f) a ]

-- Hints without a node: nothing is written.
pub apply_hints-nil :
    (i : Info) (cfg : DiscoverConfig) (h : Heap) (q : ℕ) → i.ptr ≡ 0 → apply_hints cfg i h q ≡ h q
unfolding apply_hints set_provider set_fabric_name set_domain_name set_endpoint_type set_caps
    set_mode
apply_hints-nil i cfg h q e = ground arith
