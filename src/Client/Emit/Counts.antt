-- ===== src/Client/Emit/Counts.antt =====
-- client/client.go: the statistics and the deliveries of a sequence of completed operations.
use libfabric_go.Base.{
  ◌*◌, count_if-append, ℕ, ◌≡◌, Bool, true, false, Option, List, [], ◌∷◌, ◌++◌, arith, is_some,
  ◌&&◌, not, if◌then◌else◌, ◌==◌, refl, count_if, ◌+◌,
}
use libfabric_go.Capi.Errors.{OperationKind, operation_send, operation_receive}
use libfabric_go.Client.Operation.{OperationResult}
use libfabric_go.Client.Emit.{
  Board, ReceiveMeta, Delivery, emit, deliver_sends, to_send, deliver_receives, to_receive,
}

-- A completed operation.
pub record Completion : Type 0 where
  pub kind : OperationKind
  pub source : Option ReceiveMeta
  pub result : OperationResult

unfoldable pub emit_all : List Completion → Board → Board × List Delivery
emit_all [] b = (b, [])
emit_all (c ∷ cs) b =
    let (b', first) = emit c.kind c.source c.result b in
    let (b'', rest) = emit_all cs b' in (b'', first ++ rest)

abbrev pub is_send : OperationKind → Bool
is_send operation_send = true
is_send operation_receive = false

-- The operations of a kind that failed, or that did not.
abbrev pub sends : Bool → Completion → Bool
sends failed c =
    is_send c.kind && (if failed then is_some c.result.error else not (is_some c.result.error))

abbrev pub receives : Bool → Completion → Bool
receives failed c =
    not (is_send c.kind)
    && (if failed then is_some c.result.error else not (is_some c.result.error))

abbrev pub all_sends : Completion → Bool
all_sends c = is_send c.kind

-- What one completion adds to the statistics.
emit-stats :
    (c : Completion) (b : Board)
    → let s = (emit c.kind c.source c.result b).0.stats in
      (s.send_completed ≡ b.stats.send_completed + (if sends false c then 1 else 0))
      × (s.send_errored ≡ b.stats.send_errored + (if sends true c then 1 else 0))
      × (s.recv_matched ≡ b.stats.recv_matched + (if receives false c then 1 else 0))
      × (s.recv_errored ≡ b.stats.recv_errored + (if receives true c then 1 else 0))
unfolding emit
emit-stats c b = ground arith

-- Over any sequence of completed operations, each counter of the statistics grows by the number of the
-- operations that it counts: sends and receives, those that failed and those that did not.
pub emit_all-stats :
    (cs : List Completion) (b : Board)
    → let s = (emit_all cs b).0.stats in
      (s.send_completed ≡ b.stats.send_completed + count_if (sends false) cs)
      × (s.send_errored ≡ b.stats.send_errored + count_if (sends true) cs)
      × (s.recv_matched ≡ b.stats.recv_matched + count_if (receives false) cs)
      × (s.recv_errored ≡ b.stats.recv_errored + count_if (receives true) cs)
unfolding emit_all
emit_all-stats [] b = ground arith
emit_all-stats (c ∷ cs) b =
    ground (arith, emit-stats c b, emit_all-stats cs (emit c.kind c.source c.result b).0)

abbrev pub all_receives : Completion → Bool
all_receives c = not (is_send c.kind)

-- A run of a handler for sends, and one for receives.
abbrev pub runs_send : ℕ → Delivery → Bool
runs_send h (to_send g res) = g == h
runs_send h (to_receive g p a e) = false

abbrev pub runs_receive : ℕ → Delivery → Bool
runs_receive h (to_send g res) = false
runs_receive h (to_receive g p a e) = g == h

-- An entry of a handler map that holds the handler.
abbrev pub holds : ℕ → ℕ × ℕ → Bool
holds h (key, g) = g == h

deliver_sends-runs :
    (h : ℕ) (res : OperationResult) (hs : List (ℕ × ℕ))
    → (count_if (runs_send h) (deliver_sends res hs) ≡ count_if (holds h) hs)
      × (count_if (runs_receive h) (deliver_sends res hs) ≡ 0)
unfolding deliver_sends
deliver_sends-runs h res [] = (refl, refl)
deliver_sends-runs h res ((key, g) ∷ hs) = ground (arith, deliver_sends-runs h res hs)

deliver_receives-runs :
    (h : ℕ) (m : Option ReceiveMeta) (res : OperationResult) (hs : List (ℕ × ℕ))
    → (count_if (runs_receive h) (deliver_receives m res hs) ≡ count_if (holds h) hs)
      × (count_if (runs_send h) (deliver_receives m res hs) ≡ 0)
unfolding deliver_receives
deliver_receives-runs h m res [] = (refl, refl)
deliver_receives-runs h m res ((key, g) ∷ hs) = ground (arith, deliver_receives-runs h m res hs)

-- What one completion delivers; the handlers stay.
emit-deliveries :
    (h : ℕ) (c : Completion) (b : Board)
    → let (b', ds) = emit c.kind c.source c.result b in
      (b'.send_handlers ≡ b.send_handlers)
      × (b'.receive_handlers ≡ b.receive_handlers)
      × (count_if (runs_send h) ds
          ≡ (if all_sends c then count_if (holds h) b.send_handlers else 0))
      × (count_if (runs_receive h) ds
          ≡ (if all_sends c then 0 else count_if (holds h) b.receive_handlers))
unfolding emit
emit-deliveries h c b = ground (
  arith,
  deliver_sends-runs h c.result b.send_handlers,
  deliver_receives-runs h c.source c.result b.receive_handlers,
)

-- Over any sequence of completed operations, each closure is run as a handler of sends as often as there
-- are sends times entries that hold it in the send handlers, and as a handler of receives as often as there
-- are receives times entries that hold it in the receive handlers: so every entry is run once for each.
pub emit_all-deliveries :
    (cs : List Completion) (b : Board) (h : ℕ)
    → let ds = (emit_all cs b).1 in
      (count_if (runs_send h) ds ≡ count_if all_sends cs * count_if (holds h) b.send_handlers)
      × (count_if (runs_receive h) ds
          ≡ count_if all_receives cs * count_if (holds h) b.receive_handlers)
unfolding emit_all
emit_all-deliveries [] b h = (omega arith, omega arith)
emit_all-deliveries (c ∷ cs) b h =
    let b' = (emit c.kind c.source c.result b).0 in
    let first = (emit c.kind c.source c.result b).1 in
    let rest = (emit_all cs b').1 in
    ground (
      arith,
      emit-deliveries h c b,
      emit_all-deliveries cs b' h,
      count_if-append (runs_send h) first rest,
      count_if-append (runs_receive h) first rest,
    )
