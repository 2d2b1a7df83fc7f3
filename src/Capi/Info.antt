-- ===== src/Capi/Info.antt =====
-- internal/capi/info.go: lists of fi_info. The memory of the C library is a function from addresses,
-- 0 is the nil pointer, and an address without a node is not allocated. C strings are their texts: a
-- nil `char *` is `none`, and the names hold no zero byte. The `calloc` of an attribute succeeds.
pub mod Chains
pub mod Read
use libfabric_go.Base.{
  ℕ, zero, suc, String, Bool, true, false, Option, none, some, List, [], ◌∷◌, ◌==◌, ◌||◌, not,
  if◌then◌else◌, str_eq,
}
use libfabric_go.Base.Int.{ℤ}
use libfabric_go.Capi.Errors.{error_from_status, Result, ok, err}
use libfabric_go.Capi.Version.{Version}

pub record FabricAttr : Type 0 where
  pub prov_name : Option String
  pub name : Option String
  pub prov_version : ℕ
  pub api_version : ℕ

pub record DomainAttr : Type 0 where
  pub name : Option String
  pub mr_mode : ℕ
  pub mr_key_size : ℕ
  pub mr_iov_limit : ℕ

-- `ep_attr` holds an endpoint type, `tx_attr` an inject size; a nil pointer is `none`.
pub record FiInfo : Type 0 where
  pub caps : ℕ
  pub mode : ℕ
  pub fabric_attr : Option FabricAttr
  pub domain_attr : Option DomainAttr
  pub ep_attr : Option ℕ
  pub tx_attr : Option ℕ
  pub next : ℕ

abbrev pub Heap : Type 0
Heap = ℕ → Option FiInfo

pub record Info : Type 0 where
  pub ptr : ℕ
  pub owns : Bool

-- The arguments of fi_getinfo; `hints` is a pointer.
pub record Query : Type 0 where
  pub version : ℕ
  pub node : Option String
  pub service : Option String
  pub flags : ℕ
  pub hints : ℕ

-- The C library: its version macros and the three calls on lists of fi_info.
pub record Libfabric : Type 0 where
  pub fi_version : ℕ → ℕ → ℕ
  pub fi_major : ℕ → ℕ
  pub fi_minor : ℕ → ℕ
  pub fi_getinfo : Query → Heap → (ℤ × ℕ) × Heap
  pub fi_allocinfo : Heap → ℕ × Heap
  pub fi_freeinfo : ℕ → Heap → Heap

-- A Go string as a C string, where "" stands for nil.
abbrev pub c_string : String → Option String
c_string s = if str_eq s "" then none else some s

abbrev pub on_node : (FiInfo → FiInfo) → Option FiInfo → Option FiInfo
on_node f none = none
on_node f (some n) = some (f n)

-- A write through the pointer `p`; a nil pointer is left alone.
abbrev pub write : ℕ → (FiInfo → FiInfo) → Heap → Heap
write p f h q = if p == 0 then h q else if p == q then on_node f (h q) else h q

-- The attributes of a node, which are allocated where they are missing.
unfoldable pub ensure_fabric_attr : Option FabricAttr → FabricAttr
ensure_fabric_attr none = record {
  prov_name = none;
  name = none;
  prov_version = 0;
  api_version = 0;
}
ensure_fabric_attr (some a) = a

unfoldable pub ensure_domain_attr : Option DomainAttr → DomainAttr
ensure_domain_attr none = record { name = none; mr_mode = 0; mr_key_size = 0; mr_iov_limit = 0 }
ensure_domain_attr (some a) = a

-- The setters replace what an earlier call has set.
unfoldable pub set_provider : String → Info → Heap → Heap
unfolding ensure_fabric_attr
set_provider provider i h =
    write i.ptr
      (λ n. record n {
        fabric_attr =
            some (record (ensure_fabric_attr n.fabric_attr) { prov_name = c_string provider });
      })
      h

unfoldable pub set_fabric_name : String → Info → Heap → Heap
unfolding ensure_fabric_attr
set_fabric_name name i h =
    write i.ptr
      (λ n. record n {
        fabric_attr = some (record (ensure_fabric_attr n.fabric_attr) { name = c_string name });
      })
      h

unfoldable pub set_domain_name : String → Info → Heap → Heap
unfolding ensure_domain_attr
set_domain_name name i h =
    write i.ptr
      (λ n. record n {
        domain_attr = some (record (ensure_domain_attr n.domain_attr) { name = c_string name });
      })
      h

unfoldable pub set_caps : ℕ → Info → Heap → Heap
set_caps caps i h = write i.ptr (λ n. record n { caps = caps }) h

unfoldable pub set_mode : ℕ → Info → Heap → Heap
set_mode mode i h = write i.ptr (λ n. record n { mode = mode }) h

unfoldable pub set_endpoint_type : ℕ → Info → Heap → Heap
set_endpoint_type ep i h = write i.ptr (λ n. record n { ep_attr = some ep }) h

unfoldable pub alloc_info : Libfabric → Heap → Info × Heap
alloc_info c h = let a = c.fi_allocinfo h in (record { ptr = a.0; owns = true }, a.1)

unfoldable pub free : Libfabric → Info → Heap → Info × Heap
free c i h =
    if i.ptr == 0 || not i.owns
    then (i, h)
    else (record { ptr = 0; owns = false }, c.fi_freeinfo i.ptr h)

-- `hints` is `none` for a nil `*Info`.
abbrev pub hint_pointer : Option Info → ℕ
hint_pointer none = 0
hint_pointer (some i) = i.ptr

-- What fi_getinfo answers, as a Go result.
unfoldable pub found_list : ℤ → ℕ → Result Info
found_list status out = elim (error_from_status status "fi_getinfo") [
  | some e ↦ err e
  | none ↦ ok (record { ptr = out; owns = true })
]

abbrev pub query : Libfabric → Version → String → String → ℕ → Option Info → Query
query c ver node service flags hints = record {
  version = c.fi_version ver.major ver.minor;
  node = c_string node;
  service = c_string service;
  flags = flags;
  hints = hint_pointer hints;
}

unfoldable pub get_info :
    Libfabric → Version → String → String → ℕ → Option Info → Heap → Result Info × Heap
unfolding found_list
get_info c ver node service flags hints h =
    let q = c.fi_getinfo (query c ver node service flags hints) h in (found_list q.0.0 q.0.1, q.1)

abbrev pub put : ℕ → Option (List ℕ) → Option (List ℕ)
put p none = none
put p (some ps) = some (p ∷ ps)

-- The loop of Entries from the pointer `p`, with at most `fuel` rounds: the entries are pointers. `none`
-- is the loop still running, or a read of memory that is not allocated.
unfoldable pub walk : ℕ → Heap → ℕ → Option (List ℕ)
walk zero h p = if p == 0 then some [] else none
walk (suc fuel) h p =
    if p == 0 then some [] else elim (h p) [ none ↦ none | some n ↦ put p (walk fuel h n.next) ]

unfoldable pub entries : ℕ → Info → Heap → Option (List ℕ)
unfolding walk
entries fuel i h = if i.ptr == 0 then some [] else walk fuel h i.ptr
