-- ===== src/Client/Telemetry/Holds.antt =====
-- client/client.go: what the ends of sendAsync and ReceiveAsync keep of the operations that contexts carry.
use libfabric_go.Base.{
  ℕ, ◌<◌, ◌≡◌, refl, true, false, Option, none, some, List, [], arith, ◌==◌, ◌∙◌, ap,
}
use libfabric_go.Capi.Errors.{OperationKind, operation_send, operation_receive, Result, ok, err}
use libfabric_go.Fi.Context.Registry.{Inv, set_value-Inv}
use libfabric_go.Fi.Context.Effects.{Slice}
use libfabric_go.Fi.Memory.{Region}
use libfabric_go.Fi.Post.{Posted}
use libfabric_go.Fi.Post.Fresh.{FreshOutcome}
use libfabric_go.Fi.Post.Values.{Keeps}
use libfabric_go.Client.Operation.{Operation, OperationResult, Notice, new_operation}
use libfabric_go.Client.Dispatch.{attach}
use libfabric_go.Client.Emit.{ReceiveMeta}
use libfabric_go.Client.Prepare.{Cleanup}
use libfabric_go.Client.Session.{
  Setting, Session, cleaned, finish, add_operation, posted_one, release_of,
}
use libfabric_go.Client.Session.Async.{received_on, sent_on}
use libfabric_go.Client.Session.Ledger.{Ledger}
use libfabric_go.Client.Telemetry.Attached.{Attached, finish-runtime, finish-others}
use libfabric_go.Client.Session.Ledger.{Ledger}
use libfabric_go.Client.Telemetry.Attaches.{kept-Attached, joined-Attached}

-- The registry, the operations that contexts carry, and how these are attached.
pub record Sound (s : Session) : Type 0 where
  pub registry : Inv s.state.runtime
  pub ledger : Ledger s
  pub attached : Attached s

-- The same without the statistics, which have lemmas of their own.
abbrev pub Held : Session → Type 0
Held s = Inv s.state.runtime × Attached s

-- Below a new operation, nothing changes.
added_below :
    (kind : OperationKind) (size : ℕ) (c : Cleanup) (meta : Option ReceiveMeta) (s : Session)
    (n : ℕ)
    → n < s.made
    → (posted_one kind (add_operation kind size c meta s)).state.operations n ≡ s.state.operations n
unfolding posted_one add_operation
added_below kind size c meta s n h =
    let other : (s.made == n) ≡ false = ground (arith, h) in rw other refl

added_runtime :
    (kind : OperationKind) (size : ℕ) (c : Cleanup) (meta : Option ReceiveMeta) (s : Session)
    → (posted_one kind (add_operation kind size c meta s)).state.runtime ≡ s.state.runtime
unfolding posted_one add_operation
added_runtime kind size c meta s = refl

attached_runtime :
    (kind : OperationKind) (size id : ℕ) (c : Cleanup) (meta : Option ReceiveMeta) (s : Session)
    (p : Posted)
    → s.state.runtime ≡ p.runtime
    → Inv p.runtime
    → Inv (attach id s.made (posted_one kind (add_operation kind size c meta s)).state).runtime
unfolding attach posted_one add_operation
attached_runtime kind size id c meta s p r i = set_value-Inv s.state.runtime id s.made (rw r i)

-- The new operation of a session behind a post, attached to the context of the post.
attach-Attached :
    (kind : OperationKind) (size : ℕ) (c : Cleanup) (meta : Option ReceiveMeta) (s s1 : Session)
    (p : Posted) (ptr id : ℕ) (region : Option Region)
    → Sound s
    → s1.made ≡ s.made
    → s1.state.operations ≡ s.state.operations
    → s1.state.runtime ≡ p.runtime
    → Keeps s.state.runtime p.runtime
    → Inv p.runtime
    → FreshOutcome region ptr s.state.runtime p.runtime p.issued (ok (some id))
    → let s2 = posted_one kind (add_operation kind size c meta s1) in
      Attached (record s2 { state = attach id s1.made s2.state })
unfolding posted_one add_operation attach new_operation
attach-Attached kind size c meta s s1 p ptr id region v m o r k i f =
    let s2 = posted_one kind (add_operation kind size c meta s1) in
    joined-Attached s (record s2 { state = attach id s1.made s2.state }) p.runtime ptr id
      (record (new_operation true kind size) { release = release_of c s1.made }, [])
      v.ledger.carried k i f.0 f.1 refl (rw (r, m) refl) (rw (o, m) refl) v.attached

pub sent_on-Held :
    (k : Setting) (size len ptr : ℕ) (c : Cleanup) (s s1 : Session) (p : Posted)
    (region : Option Region) (o : Result (Option ℕ))
    → Sound s
    → s1.made ≡ s.made
    → s1.state.operations ≡ s.state.operations
    → s1.state.runtime ≡ p.runtime
    → Keeps s.state.runtime p.runtime
    → Inv p.runtime
    → FreshOutcome region ptr s.state.runtime p.runtime p.issued o
    → Held (sent_on k size len c s1 o).0
unfolding sent_on
sent_on-Held k size len ptr c s s1 p region (err e) v m o r q i f = (
  rw r i,
  kept-Attached s (cleaned k c s1) v.ledger.carried (rw r q) (rw r f.0) (λ n h. rw o refl)
      v.attached,
)
sent_on-Held k size len ptr c s s1 p region (ok none) v m o r q i f =
    let res : OperationResult = record { length = len; error = none } in
    let s2 = posted_one operation_send (add_operation operation_send size c none s1) in
    let s3 = finish k s1.made res s2 in
    let e : s3.state.runtime ≡ p.runtime =
      finish-runtime k s1.made res s2 ∙ (added_runtime operation_send size c none s1 ∙ r) in
    (
      rw e i,
      kept-Attached s s3 v.ledger.carried (rw e q) (rw e f.0)
          (λ n h.
            ap (λ (x : Operation × List Notice). x.0.fired)
              (finish-others k s1.made n res s2 (omega (arith, h, m))
                ∙ (added_below operation_send size c none s1 n (rw m h)
                    ∙ ap (λ (g : ℕ → Operation × List Notice). g n) o)))
          v.attached,
    )
sent_on-Held k size len ptr c s s1 p region (ok (some id)) v m o r q i f = (
  attached_runtime operation_send size id c none s1 p r i,
  attach-Attached operation_send size c none s s1 p ptr id region v m o r q i f,
)

pub received_on-Held :
    (k : Setting) (buf : Slice) (ptr : ℕ) (c : Cleanup) (s s1 : Session) (p : Posted)
    (region : Option Region) (o : Result (Option ℕ))
    → Sound s
    → s1.made ≡ s.made
    → s1.state.operations ≡ s.state.operations
    → s1.state.runtime ≡ p.runtime
    → Keeps s.state.runtime p.runtime
    → Inv p.runtime
    → FreshOutcome region ptr s.state.runtime p.runtime p.issued o
    → Held (received_on k buf c s1 o).0
unfolding received_on
received_on-Held k buf ptr c s s1 p region (err e) v m o r q i f = (
  rw r i,
  kept-Attached s (cleaned k c s1) v.ledger.carried (rw r q) (rw r f.0) (λ n h. rw o refl)
      v.attached,
)
received_on-Held k buf ptr c s s1 p region (ok none) v m o r q i f =
    let meta = some (record { buffer = some buf; source = 0 }) in
    let s2 = posted_one operation_receive (add_operation operation_receive buf.len c meta s1) in
    let e : s2.state.runtime ≡ p.runtime = added_runtime operation_receive buf.len c meta s1 ∙ r in
    (
      rw e i,
      kept-Attached s s2 v.ledger.carried (rw e q) (rw e f.0)
          (λ n h.
            ap (λ (x : Operation × List Notice). x.0.fired)
              (added_below operation_receive buf.len c meta s1 n (rw m h)
                ∙ ap (λ (g : ℕ → Operation × List Notice). g n) o))
          v.attached,
    )
received_on-Held k buf ptr c s s1 p region (ok (some id)) v m o r q i f =
    let meta = some (record { buffer = some buf; source = 0 }) in
    (
      attached_runtime operation_receive buf.len id c meta s1 p r i,
      attach-Attached operation_receive buf.len c meta s s1 p ptr id region v m o r q i f,
    )
