-- ===== src/Client/Session/Peers.antt =====
-- client/client.go: the addresses of a client and its peers, and the sends to the default peer. `av` is the
-- handle of the client's address vector.
use libfabric_go.Base.{
  ℕ, ◌≡◌, refl, Bool, true, false, not, Option, none, some, List, ◌==◌, if◌then◌else◌, length,
  arith, ltb,
}
use libfabric_go.Base.Int.{ℤ}
use libfabric_go.Capi.Errors.{message, Result, ok, err}
use libfabric_go.Capi.Handle.{Codes}
use libfabric_go.Capi.Name.{Reply, name}
use libfabric_go.Fi.Context.Effects.{Slice}
use libfabric_go.Fi.Pool.{Reply as PoolReply}
use libfabric_go.Fi.Post.{address_unspecified, Answers}
use libfabric_go.Fi.Vector.{add_raw}
use libfabric_go.Client.Setup.{EndpointType, unspec, msg, dgram, rdm}
use libfabric_go.Client.Setup.Dial.{Client}
use libfabric_go.Client.Session.{Setting, Session}
use libfabric_go.Client.Session.Async.{ensure_open, send_async}

abbrev pub configured : Client → Result ℕ
configured c =
    if c.peer_configured
    then ok c.peer_addr
    else err (message "libfabric client: destination address not configured")

unfoldable pub default_destination : Client → Result ℕ
default_destination c = elim c.cfg.endpoint_type [
  | rdm ↦ configured c
  | dgram ↦ configured c
  | msg ↦ ok address_unspecified
  | unspec ↦ ok address_unspecified
]

unfoldable pub set_default_peer : ℕ → Client → Client
set_default_peer addr c = record c { peer_addr = addr; peer_configured = true }

unfoldable pub default_peer : Client → ℕ
default_peer c = c.peer_addr

abbrev pub registered : Bool → Client → Result ℕ → Client × Result ℕ
registered set_default c (err e) = (c, err e)
registered set_default c (ok a) =
    (if set_default then record c { peer_addr = a; peer_configured = true } else c, ok a)

-- The checks and the insertion of RegisterPeer; `buf`, `status` and `out` are the answers to it.
unfoldable pub peer_inserted : Codes → Option ℕ → List ℕ → ℕ → ℤ → ℕ → Client → Result ℕ
unfolding ensure_open add_raw
peer_inserted k av addr buf status out c = elim (ensure_open c) [
  | some e ↦ err e
  | none ↦
      if not c.has_vector
      then err (message "libfabric client: address vector unavailable for this endpoint type")
      else if length addr == 0
      then err (message "libfabric client: peer address must be non-empty")
      else (add_raw k av addr buf status out).0
]

unfoldable pub register_peer :
    Codes → Option ℕ → List ℕ → ℕ → ℤ → ℕ → Bool → Client → Client × Result ℕ
unfolding peer_inserted
register_peer k av addr buf status out set_default c =
    registered set_default c (peer_inserted k av addr buf status out c)

-- `provider` answers the reads of the endpoint's name.
unfoldable pub local_address : Codes → ℕ → (ℕ → Reply) → Client → Result (List ℕ)
unfolding ensure_open name
local_address k endpoint provider c = elim (ensure_open c) [
  | some e ↦ err e
  | none ↦ if ltb 0 (length c.self_raw) then ok c.self_raw else (name k endpoint provider).0
]

-- SendAsync, from the default destination.
unfoldable pub send_default :
    Setting → Slice → PoolReply → Answers → Session → Result ℕ → Session × Result ℕ
unfolding send_async
send_default k payload reply ans s (err e) = (s, err e)
send_default k payload reply ans s (ok dest) = send_async k payload dest reply ans s

unfoldable pub send_to_default :
    Setting → Slice → PoolReply → Answers → Session → Session × Result ℕ
unfolding default_destination send_default
send_to_default k payload reply ans s =
    send_default k payload reply ans s (default_destination s.client)

-- Where an endpoint of the type sends by default, if `a` is the default peer.
abbrev pub sends_to : EndpointType → ℕ → Result ℕ
sends_to rdm a = ok a
sends_to dgram a = ok a
sends_to msg a = ok address_unspecified
sends_to unspec a = ok address_unspecified

unfoldable pub PeerOutcome : Bool → Client → Client × Result ℕ → Type 0
PeerOutcome set_default c (c', err e) = c' ≡ c
PeerOutcome false c (c', ok a) = c' ≡ c
PeerOutcome true c (c', ok a) =
    (default_peer c' ≡ a) × (default_destination c' ≡ sends_to c.cfg.endpoint_type a)

default_destination-set :
    (a : ℕ) (c : Client)
    → default_destination (set_default_peer a c) ≡ sends_to c.cfg.endpoint_type a
unfolding default_destination set_default_peer
default_destination-set a c = ground arith

registered-PeerOutcome :
    (c : Client) (set_default : Bool) (r : Result ℕ)
    → PeerOutcome set_default c (registered set_default c r)
unfolding PeerOutcome default_peer set_default_peer
registered-PeerOutcome c false (err e) = refl
registered-PeerOutcome c true (err e) = refl
registered-PeerOutcome c false (ok a) = refl
registered-PeerOutcome c true (ok a) = (refl, default_destination-set a c)

-- An address that RegisterPeer gives for a default peer is the one that DefaultPeer gives, and the default
-- destination of an RDM or datagram client; a client of another type sends to the unspecified address. A
-- registration that fails, or one of another peer, changes nothing.
pub register_peer-PeerOutcome :
    (k : Codes) (av : Option ℕ) (addr : List ℕ) (buf : ℕ) (status : ℤ) (out : ℕ)
    (set_default : Bool) (c : Client)
    → PeerOutcome set_default c (register_peer k av addr buf status out set_default c)
unfolding register_peer PeerOutcome
register_peer-PeerOutcome k av addr buf status out set_default c =
    registered-PeerOutcome c set_default (peer_inserted k av addr buf status out c)
