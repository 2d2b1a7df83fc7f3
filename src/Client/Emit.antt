-- ===== src/Client/Emit.antt =====
-- client/client.go: the statistics, the handlers, and emit, which tells them of a completed operation. A
-- handler is the number of a closure (a nil handler is not modelled), the goroutine that runs it is a delivery. A Go map yields its
-- entries in any order; here the order is that of the list.
pub mod Counts
pub mod Register
use libfabric_go.Base.{
  ℕ, zero, suc, Option, none, some, List, [], ◌∷◌, ◌==◌, leb, if◌then◌else◌, insert, delete, Bool,
  true, false,
}
use libfabric_go.Capi.Errors.{GoError, OperationKind, operation_send, operation_receive}
use libfabric_go.Fi.Context.Effects.{Slice}
use libfabric_go.Client.Operation.{OperationResult}

-- Atomic 64-bit counters; that one wraps around is not modelled.
pub record Stats : Type 0 where
  pub send_posted : ℕ
  pub send_completed : ℕ
  pub send_errored : ℕ
  pub recv_posted : ℕ
  pub recv_matched : ℕ
  pub recv_errored : ℕ

pub record Board : Type 0 where
  pub stats : Stats
  pub send_handlers : List (ℕ × ℕ)
  pub receive_handlers : List (ℕ × ℕ)
  pub handler_seq : ℕ

-- `buffer` is the caller's slice, `source` the peer that the completion named.
pub record ReceiveMeta : Type 0 where
  pub buffer : Option Slice
  pub source : ℕ

-- The payload of a receive handler: nil, a copy of the start of a slice, or zeroes.
pub data Payload : Type 0 where
  absent : Payload
  copied : Slice → ℕ → Payload
  zeroes : ℕ → Payload

pub data Delivery : Type 0 where
  to_send : ℕ → OperationResult → Delivery
  to_receive : ℕ → Payload → ℕ → Option GoError → Delivery

-- `RegisterSendHandler`: the key under which it stands, which the unregister function keeps.
unfoldable pub register_send_handler : ℕ → Board → Board × ℕ
register_send_handler handler b =
    let id = suc b.handler_seq in
    (record b { send_handlers = insert id handler b.send_handlers; handler_seq = id }, id)

unfoldable pub register_receive_handler : ℕ → Board → Board × ℕ
register_receive_handler handler b =
    let id = suc b.handler_seq in
    (record b { receive_handlers = insert id handler b.receive_handlers; handler_seq = id }, id)

unfoldable pub unregister_send_handler : ℕ → Board → Board
unregister_send_handler id b = record b { send_handlers = delete id b.send_handlers }

unfoldable pub unregister_receive_handler : ℕ → Board → Board
unregister_receive_handler id b = record b { receive_handlers = delete id b.receive_handlers }

unfoldable pub payload_of : Option ReceiveMeta → ℕ → Payload
payload_of m zero = absent
payload_of none (suc n) = zeroes (suc n)
payload_of (some m) (suc n) = elim m.buffer [
  | none ↦ zeroes (suc n)
  | some s ↦ if leb (suc n) s.len then copied s (suc n) else zeroes (suc n)
]

abbrev pub source_of : Option ReceiveMeta → ℕ
source_of none = 0
source_of (some m) = m.source

unfoldable pub deliver_sends : OperationResult → List (ℕ × ℕ) → List Delivery
deliver_sends res [] = []
deliver_sends res ((id, handler) ∷ rest) = to_send handler res ∷ deliver_sends res rest

unfoldable pub deliver_receives :
    Option ReceiveMeta → OperationResult → List (ℕ × ℕ) → List Delivery
unfolding payload_of
deliver_receives m res [] = []
deliver_receives m res ((id, handler) ∷ rest) =
    to_receive handler (payload_of m res.length) (source_of m) res.error
    ∷ deliver_receives m res rest

abbrev pub count_send : Option GoError → Stats → Stats
count_send none s = record s { send_completed = suc s.send_completed }
count_send (some e) s = record s { send_errored = suc s.send_errored }

abbrev pub count_receive : Option GoError → Stats → Stats
count_receive none s = record s { recv_matched = suc s.recv_matched }
count_receive (some e) s = record s { recv_errored = suc s.recv_errored }

unfoldable pub emit :
    OperationKind → Option ReceiveMeta → OperationResult → Board → Board × List Delivery
unfolding deliver_sends deliver_receives
emit operation_send m res b =
    (record b { stats = count_send res.error b.stats }, deliver_sends res b.send_handlers)
emit operation_receive m res b = (
  record b { stats = count_receive res.error b.stats },
  deliver_receives m res b.receive_handlers,
)
