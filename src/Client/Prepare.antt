-- ===== src/Client/Prepare.antt =====
-- client/client.go: prepareSend and prepareReceive, which pick the memory of a request: a region of the
-- pool, a region of its own, or none. The copy of the bytes into a region is not modelled.
pub mod Regions
use libfabric_go.Base.{
  ℕ, ◌||◌, Bool, true, false, Option, none, some, ◌==◌, ltb, leb, if◌then◌else◌,
}
use libfabric_go.Capi.Errors.{GoError, message, Result, ok, err}
use libfabric_go.Fi.Context.Effects.{Slice}
use libfabric_go.Fi.Memory.{Flags, Domain, Memory, Region, register_memory}
use libfabric_go.Fi.Pool.{MrPool, Reply, acquire, release}
use libfabric_go.Fi.Post.{address_unspecified}
use libfabric_go.Fi.Post.Message.{SendRequest, RecvRequest}
use libfabric_go.Client.Setup.{EndpointType, unspec, msg, dgram, rdm}
use libfabric_go.Client.Setup.Dial.{Client}

-- What the operation's release function does with its region.
pub data Cleanup : Type 0 where
  nothing : Cleanup
  gives_back : ℕ → Cleanup
  closes_region : ℕ → Cleanup

-- The client's pool, the regions, and the request with its cleanup.
abbrev pub Prepared : Type 0 → Type 0
Prepared A = Option MrPool × Memory × Result (A × Cleanup)

-- `len(region.Bytes())`
abbrev pub bytes_len : Region → ℕ
bytes_len m = if m.buffer == 0 || m.len == 0 then 0 else m.len

-- The destination that an endpoint of the type is given.
unfoldable pub destination : EndpointType → ℕ → Result ℕ
destination rdm dest =
    if dest == address_unspecified
    then err (message "libfabric client: destination address required")
    else ok dest
destination dgram dest =
    if dest == address_unspecified
    then err (message "libfabric client: destination address required")
    else ok dest
destination msg dest = ok address_unspecified
destination unspec dest = ok dest

abbrev pub send_from : Region → ℕ → ℕ → SendRequest
send_from m len dest = record {
  buffer = record { base = m.buffer; len = len };
  dest = dest;
  context = none;
  region = some m;
}

abbrev pub too_small : {A : Type 0} → MrPool × Memory → Prepared A
too_small (p, h) = (some p, h, err (message "libfabric client: MR pool region too small"))

unfoldable pub send_pooled :
    (ℕ → Option GoError) → Slice → ℕ → MrPool × Memory × Result ℕ → Prepared SendRequest
send_pooled closes payload dest (p, h, err e) = (some p, h, err e)
send_pooled closes payload dest (p, h, ok id) =
    if ltb (bytes_len (h.regions id)) payload.len
    then too_small (release closes p id h)
    else (some p, h, ok (send_from (h.regions id) payload.len dest, gives_back id))

unfoldable pub send_registered :
    Option MrPool → Slice → ℕ → Memory × Result ℕ → Prepared SendRequest
send_registered pool payload dest (h, err e) = (pool, h, err e)
send_registered pool payload dest (h, ok id) =
    (pool, h, ok (send_from (h.regions id) payload.len dest, closes_region id))

unfoldable pub send_plain :
    (ℕ → Option GoError)
    → Flags
    → Domain
    → Client
    → Slice
    → ℕ
    → Reply
    → Memory
    → Prepared SendRequest
unfolding send_registered
send_plain closes k d c payload dest reply h =
    if c.requires_mr
    then send_registered c.pool payload dest
        (register_memory k d payload.len c.mr_access reply.cbuf reply.handle h)
    else (
      c.pool,
      h,
      ok (record { buffer = payload; dest = dest; context = none; region = none }, nothing),
    )

unfoldable pub send_to :
    (ℕ → Option GoError)
    → Flags
    → Domain
    → Client
    → Slice
    → Reply
    → Memory
    → Result ℕ
    → Prepared SendRequest
unfolding send_pooled send_plain
send_to closes k d c payload reply h (err e) = (c.pool, h, err e)
send_to closes k d c payload reply h (ok dest) = elim c.pool [
  | none ↦ send_plain closes k d c payload dest reply h
  | some p ↦
      if leb payload.len p.size
      then send_pooled closes payload dest (acquire k p reply h)
      else send_plain closes k d c payload dest reply h
]

-- `d` is the client's domain.
unfoldable pub prepare_send :
    (ℕ → Option GoError)
    → Flags
    → Domain
    → Client
    → Slice
    → ℕ
    → Reply
    → Memory
    → Prepared SendRequest
unfolding destination send_to
prepare_send closes k d c payload dest reply h =
    if payload.len == 0
    then (c.pool, h, err (message "libfabric client: empty payload"))
    else send_to closes k d c payload reply h (destination c.cfg.endpoint_type dest)

abbrev pub recv_into : Slice → Option Region → RecvRequest
recv_into buf region = record { buffer = buf; source = 0; context = none; region = region }

unfoldable pub recv_pooled :
    (ℕ → Option GoError) → Slice → MrPool × Memory × Result ℕ → Prepared RecvRequest
recv_pooled closes buf (p, h, err e) = (some p, h, err e)
recv_pooled closes buf (p, h, ok id) =
    if ltb (h.regions id).len buf.len
    then too_small (release closes p id h)
    else (some p, h, ok (recv_into buf (some (h.regions id)), gives_back id))

unfoldable pub recv_registered : Option MrPool → Slice → Memory × Result ℕ → Prepared RecvRequest
recv_registered pool buf (h, err e) = (pool, h, err e)
recv_registered pool buf (h, ok id) =
    (pool, h, ok (recv_into buf (some (h.regions id)), closes_region id))

unfoldable pub recv_plain : Flags → Domain → Client → Slice → Reply → Memory → Prepared RecvRequest
unfolding recv_registered
recv_plain k d c buf reply h =
    if c.requires_mr
    then recv_registered c.pool buf
        (register_memory k d buf.len c.mr_access reply.cbuf reply.handle h)
    else (c.pool, h, ok (recv_into buf none, nothing))

unfoldable pub prepare_receive :
    (ℕ → Option GoError) → Flags → Domain → Client → Slice → Reply → Memory → Prepared RecvRequest
unfolding recv_pooled recv_plain
prepare_receive closes k d c buf reply h =
    if buf.len == 0
    then (c.pool, h, err (message "libfabric client: buffer must be non-empty"))
    else elim c.pool [
      | none ↦ recv_plain k d c buf reply h
      | some p ↦
          if leb buf.len p.size
          then recv_pooled closes buf (acquire k p reply h)
          else recv_plain k d c buf reply h
    ]
