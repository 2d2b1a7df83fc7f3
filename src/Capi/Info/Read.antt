-- ===== src/Capi/Info/Read.antt =====
-- internal/capi/info.go: the accessors of InfoEntry. The argument is the node that the entry points to,
-- `none` for a nil entry.
use libfabric_go.Base.{ℕ, String, Option, none, some}
use libfabric_go.Capi.Version.{Version}
use libfabric_go.Capi.Info.{FabricAttr, DomainAttr, FiInfo, Libfabric}

abbrev pub go_string : Option String → String
go_string none = ""
go_string (some s) = s

abbrev pub fabric_attr_of : Option FiInfo → Option FabricAttr
fabric_attr_of none = none
fabric_attr_of (some n) = n.fabric_attr

unfoldable pub domain_attr_of : Option FiInfo → Option DomainAttr
domain_attr_of none = none
domain_attr_of (some n) = n.domain_attr

unfoldable pub provider_name : Option FiInfo → String
provider_name e = elim (fabric_attr_of e) [ none ↦ "" | some a ↦ go_string a.prov_name ]

unfoldable pub fabric_name : Option FiInfo → String
fabric_name e = elim (fabric_attr_of e) [ none ↦ "" | some a ↦ go_string a.name ]

unfoldable pub domain_name : Option FiInfo → String
unfolding domain_attr_of
domain_name e = elim (domain_attr_of e) [ none ↦ "" | some a ↦ go_string a.name ]

unfoldable pub caps_of : Option FiInfo → ℕ
caps_of none = 0
caps_of (some n) = n.caps

unfoldable pub mode_of : Option FiInfo → ℕ
mode_of none = 0
mode_of (some n) = n.mode

abbrev pub or_zero : Option ℕ → ℕ
or_zero none = 0
or_zero (some n) = n

-- FI_EP_UNSPEC is 0.
unfoldable pub endpoint_type_of : Option FiInfo → ℕ
endpoint_type_of none = 0
endpoint_type_of (some n) = or_zero n.ep_attr

unfoldable pub inject_size : Option FiInfo → ℕ
inject_size none = 0
inject_size (some n) = or_zero n.tx_attr

abbrev pub decoded : Libfabric → ℕ → Version
decoded c v = record { major = c.fi_major v; minor = c.fi_minor v }

abbrev pub no_version : Version
no_version = record { major = 0; minor = 0 }

unfoldable pub provider_version : Libfabric → Option FiInfo → Version
provider_version c e = elim (fabric_attr_of e) [
  | none ↦ no_version
  | some a ↦ decoded c a.prov_version
]

unfoldable pub api_version : Libfabric → Option FiInfo → Version
api_version c e = elim (fabric_attr_of e) [ none ↦ no_version | some a ↦ decoded c a.api_version ]

unfoldable pub mr_mode : Option FiInfo → ℕ
unfolding domain_attr_of
mr_mode e = elim (domain_attr_of e) [ none ↦ 0 | some a ↦ a.mr_mode ]

unfoldable pub mr_key_size : Option FiInfo → ℕ
unfolding domain_attr_of
mr_key_size e = elim (domain_attr_of e) [ none ↦ 0 | some a ↦ a.mr_key_size ]

unfoldable pub mr_iov_limit : Option FiInfo → ℕ
unfolding domain_attr_of
mr_iov_limit e = elim (domain_attr_of e) [ none ↦ 0 | some a ↦ a.mr_iov_limit ]
