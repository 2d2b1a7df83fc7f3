-- ===== src/Fi/Open.antt =====
-- fi/discover.go, fi/endpoint.go and fi/passive.go: opening and binding over internal/capi. A Go handle is the
-- pointer inside the `capi` value, a nil one `none`; a descriptor is the pointer of its entry, which is read from
-- the memory `h`. The attributes of a queue do not change whether it opens, and are not modelled.
use libfabric_go.Fi.Context.Effects.{Slice}
use libfabric_go.Capi.Calls.{endpoint_accept, endpoint_connect, Called}
pub mod Twins
use libfabric_go.Base.{
  ℕ, String, Bool, not, Option, none, some, ◌==◌, if◌then◌else◌, List, length, [], ◌∷◌, false, true,
}
use libfabric_go.Base.Int.{ℤ}
use libfabric_go.Base.Bits.{and_bits}
use libfabric_go.Capi.Errors.{GoError, invalid_handle, message, Result, ok, err}
use libfabric_go.Capi.Handle.{
  Codes, open_endpoint, open_completion_queue, open_event_queue, open_passive_endpoint,
  bind_completion_queue, bind_event_queue, bind_address_vector, enable, listen,
}
use libfabric_go.Capi.Fabric.{open_fabric, open_domain}
use libfabric_go.Capi.Info.{Heap, FiInfo, Libfabric, FabricAttr}
use libfabric_go.Capi.Info.Read.{
  fabric_attr_of, caps_of, inject_size, mr_mode, mr_key_size, mr_iov_limit, endpoint_type_of,
}
use libfabric_go.Fi.Memory.{Domain}
use libfabric_go.Fi.Post.{Endpoint}
use libfabric_go.Fi.Discover.{Snapshot, info_from_entry}

-- `capi.CapTagged` and its kin.
pub record Caps : Type 0 where
  pub msg : ℕ
  pub tagged : ℕ
  pub rma : ℕ
  pub remote_read : ℕ
  pub remote_write : ℕ

-- `word&flag != 0`
abbrev pub has_bit : ℕ → ℕ → Bool
has_bit word flag = not (and_bits word flag == 0)

unfoldable pub info_supports_cap : Snapshot → ℕ → Bool
info_supports_cap i flag = has_bit i.caps flag

unfoldable pub info_supports_tagged : Caps → Snapshot → Bool
unfolding info_supports_cap
info_supports_tagged k i = info_supports_cap i k.tagged

unfoldable pub info_supports_msg : Caps → Snapshot → Bool
unfolding info_supports_cap
info_supports_msg k i = info_supports_cap i k.msg

unfoldable pub info_supports_rma : Caps → Snapshot → Bool
unfolding info_supports_cap
info_supports_rma k i = info_supports_cap i k.rma

unfoldable pub info_supports_remote_read : Caps → Snapshot → Bool
unfolding info_supports_cap
info_supports_remote_read k i = info_supports_cap i k.remote_read

unfoldable pub info_supports_remote_write : Caps → Snapshot → Bool
unfolding info_supports_cap
info_supports_remote_write k i = info_supports_cap i k.remote_write

unfoldable pub info_requires_mr_mode : Snapshot → ℕ → Bool
info_requires_mr_mode i flag = if flag == 0 then false else has_bit i.mr_mode flag

unfoldable pub info_supports_endpoint_type : Snapshot → ℕ → Bool
info_supports_endpoint_type i ep = i.endpoint == ep

unfoldable pub descriptor_supports_tagged : Caps → Option FiInfo → Bool
descriptor_supports_tagged k e = has_bit (caps_of e) k.tagged

unfoldable pub descriptor_supports_msg : Caps → Option FiInfo → Bool
descriptor_supports_msg k e = has_bit (caps_of e) k.msg

unfoldable pub descriptor_supports_rma : Caps → Option FiInfo → Bool
descriptor_supports_rma k e = has_bit (caps_of e) k.rma

unfoldable pub descriptor_supports_remote_read : Caps → Option FiInfo → Bool
descriptor_supports_remote_read k e = has_bit (caps_of e) k.remote_read

unfoldable pub descriptor_supports_remote_write : Caps → Option FiInfo → Bool
descriptor_supports_remote_write k e = has_bit (caps_of e) k.remote_write

unfoldable pub descriptor_requires_mr_mode : Option FiInfo → ℕ → Bool
descriptor_requires_mr_mode e flag = if flag == 0 then false else has_bit (mr_mode e) flag

unfoldable pub descriptor_supports_endpoint_type : Option FiInfo → ℕ → Bool
descriptor_supports_endpoint_type e t = endpoint_type_of e == t

abbrev given_attr : Option FabricAttr → Bool
given_attr none = false
given_attr (some a) = true

-- The handle that an opening call gives.
unfoldable pub open_descriptor_fabric : Codes → ℕ → Heap → ℤ → ℕ → Result ℕ
unfolding open_fabric
open_descriptor_fabric k entry h status out =
    open_fabric k entry (given_attr (fabric_attr_of (h entry))) status out

-- A result with the handle inside.
abbrev pub with_handle : {A : Type 0} → (ℕ → A) → Result ℕ → Result A
with_handle f (ok out) = ok (f out)
with_handle f (err e) = err e

unfoldable pub open_descriptor_domain : Codes → Option ℕ → ℕ → Heap → ℤ → ℕ → Result Domain
unfolding open_domain
open_descriptor_domain k none entry h status out = err (invalid_handle "fabric")
open_descriptor_domain k (some fabric) entry h status out =
    with_handle
      (λ dom. record {
        handle = dom;
        mr_mode = libfabric_go.Capi.Info.Read.mr_mode (h entry);
        mr_key_size = libfabric_go.Capi.Info.Read.mr_key_size (h entry);
        mr_iov_limit = libfabric_go.Capi.Info.Read.mr_iov_limit (h entry);
      })
      (open_domain k fabric entry status out)

unfoldable pub open_descriptor_endpoint :
    Codes → Caps → Option ℕ → ℕ → Heap → ℤ → ℕ → Result Endpoint
unfolding open_endpoint
open_descriptor_endpoint k caps none entry h status out = err (invalid_handle "domain")
open_descriptor_endpoint k caps (some domain) entry h status out =
    with_handle
      (λ ep. record {
        handle = ep;
        inject_limit = inject_size (h entry);
        supports_tagged = has_bit (caps_of (h entry)) caps.tagged;
      })
      (open_endpoint k domain entry status out)

-- The `capi` function of this name has the body of `OpenEndpoint`. The values are read from a snapshot.
unfoldable pub open_endpoint_with_info :
    Codes → Caps → Libfabric → Option ℕ → ℕ → Heap → ℤ → ℕ → Result Endpoint
unfolding open_endpoint info_from_entry info_supports_tagged
open_endpoint_with_info k caps c none entry h status out = err (invalid_handle "domain")
open_endpoint_with_info k caps c (some domain) entry h status out =
    let info = info_from_entry c (h entry) in
    with_handle
      (λ ep. record {
        handle = ep;
        inject_limit = info.inject_size;
        supports_tagged = info_supports_tagged caps info;
      })
      (open_endpoint k domain entry status out)

unfoldable pub open_passive : Codes → Option ℕ → ℕ → ℤ → ℕ → Result ℕ
unfolding open_passive_endpoint
open_passive k none entry status out =
    err (message "libfabric: fabric required for passive endpoint")
open_passive k (some fabric) entry status out = open_passive_endpoint k fabric entry status out

unfoldable pub open_cq : Codes → Option ℕ → ℤ → ℕ → Result ℕ
unfolding open_completion_queue
open_cq k none status out = err (invalid_handle "domain")
open_cq k (some domain) status out = open_completion_queue k domain status out

unfoldable pub open_eq : Codes → Option ℕ → ℤ → ℕ → Result ℕ
unfolding open_event_queue
open_eq k none status out = err (invalid_handle "fabric")
open_eq k (some fabric) status out = open_event_queue k fabric status out

-- A bind checks the endpoint first, then the resource.
unfoldable pub bind_cq : Codes → Option ℕ → Option ℕ → ℤ → Option GoError
unfolding bind_completion_queue
bind_cq k none queue status = some (invalid_handle "endpoint")
bind_cq k (some e) none status = some (invalid_handle "completion queue")
bind_cq k (some e) (some queue) status = bind_completion_queue k e queue status

unfoldable pub bind_eq : Codes → Option ℕ → Option ℕ → ℤ → Option GoError
unfolding bind_event_queue
bind_eq k none queue status = some (invalid_handle "endpoint")
bind_eq k (some e) none status = some (invalid_handle "event queue")
bind_eq k (some e) (some queue) status = bind_event_queue k e queue status

unfoldable pub bind_av : Codes → Option ℕ → Option ℕ → ℤ → Option GoError
unfolding bind_address_vector
bind_av k none vector status = some (invalid_handle "endpoint")
bind_av k (some e) none status = some (invalid_handle "address vector")
bind_av k (some e) (some vector) status = bind_address_vector k e vector status

unfoldable pub enable_endpoint : Codes → Option ℕ → ℤ → Option GoError
unfolding enable
enable_endpoint k none status = some (invalid_handle "endpoint")
enable_endpoint k (some e) status = enable k e status

unfoldable pub listen_passive : Codes → Option ℕ → ℤ → Option GoError
unfolding listen
listen_passive k none status = some (message "libfabric: passive endpoint closed")
listen_passive k (some p) status = listen k p status

-- The parameters of a connection, in Go memory at `base`; C gets a nil pointer for none.
unfoldable pub accept_connection : Codes → Option ℕ → Slice → ℤ → Called
unfolding endpoint_accept
accept_connection k none params status = ([], some (invalid_handle "endpoint"))
accept_connection k (some e) params status =
    endpoint_accept k e (if params.len == 0 then 0 else params.base) params.len status

unfoldable pub connect_endpoint : Codes → Option ℕ → Slice → ℤ → Called
unfolding endpoint_connect
connect_endpoint k none params status = ([], some (invalid_handle "endpoint"))
connect_endpoint k (some e) params status =
    endpoint_connect k e (if params.len == 0 then 0 else params.base) params.len status
