-- ===== src/Client/Session/Lending.antt =====
-- client/client.go with fi/memory_pool.go: which regions of the pool a call leaves lent.
use libfabric_go.Client.Emit.{ReceiveMeta}
use libfabric_go.Client.Operation.{OperationResult, complete, new_operation}
use libfabric_go.Client.Session.Async.{sent_on}
use libfabric_go.Base.{
  ℕ, ◌≡◌, refl, ◌≤◌, true, Option, some, List, ◌∷◌, arith, inl, inr, Bool-cases, ltb, leb, ◌==◌,
  false, ◌⊎◌, none, ==_refl,
}
use libfabric_go.Capi.Errors.{Result, ok, err, operation_send, OperationKind}
use libfabric_go.Fi.Context.Effects.{Slice}
use libfabric_go.Fi.Memory.{Flags, Domain, Memory}
use libfabric_go.Fi.Pool.{MrPool, Reply, acquire, release}
use libfabric_go.Fi.Pool.Ownership.{Inv, accepts, acquire-Inv, release-Inv, lend}
use libfabric_go.Client.Setup.Dial.{Client}
use libfabric_go.Client.Prepare.{
  Cleanup, gives_back, send_pooled, send_to, prepare_send, recv_pooled, prepare_receive,
  destination, bytes_len,
}
use libfabric_go.Client.Session.{
  Session, run_cleanup, finish, Setting, OperationResult, finish_first, add_operation, posted_one,
  ReceiveMeta,
}

-- A pool that keeps its invariant while these regions are lent.
unfoldable pub Lends : Option MrPool → Memory → List ℕ → Type 0
Lends pool h lent = (p : MrPool) × (pool ≡ some p) × Inv p h lent

abbrev pub HasLent : Session → List ℕ → Type 0
HasLent s lent = Lends s.client.pool s.memory lent

-- A request is given one more region, which its release function gives back; else none more is lent.
unfoldable pub PreparedLends :
    {A : Type 0} → List ℕ → Option MrPool × Memory × Result (A × Cleanup) → Type 0
unfolding Lends
PreparedLends lent (pool, h, err e) = Lends pool h lent
PreparedLends lent (pool, h, ok (q, c)) = (id : ℕ) × (c ≡ gives_back id) × Lends pool h (id ∷ lent)

send_pooled-PreparedLends :
    (payload : Slice) (dest : ℕ) (lent : List ℕ) (p : MrPool) (h : Memory) (r : Result ℕ)
    → Inv p h (lend r lent)
    → PreparedLends lent (send_pooled accepts payload dest (p, h, r))
unfolding send_pooled PreparedLends
send_pooled-PreparedLends payload dest lent p h (err e) v = (p, refl, v)
send_pooled-PreparedLends payload dest lent p h (ok id) v =
    elim (Bool-cases (ltb (bytes_len (h.regions id)) payload.len)) [
      | inl t ↦ rw t ((release accepts p id h).0, refl, release-Inv p id h lent v)
      | inr t ↦ rw t (id, refl, (p, refl, v))
    ]

recv_pooled-PreparedLends :
    (buf : Slice) (lent : List ℕ) (p : MrPool) (h : Memory) (r : Result ℕ)
    → Inv p h (lend r lent)
    → PreparedLends lent (recv_pooled accepts buf (p, h, r))
unfolding recv_pooled PreparedLends
recv_pooled-PreparedLends buf lent p h (err e) v = (p, refl, v)
recv_pooled-PreparedLends buf lent p h (ok id) v =
    elim (Bool-cases (ltb (h.regions id).len buf.len)) [
      | inl t ↦ rw t ((release accepts p id h).0, refl, release-Inv p id h lent v)
      | inr t ↦ rw t (id, refl, (p, refl, v))
    ]

send_to-PreparedLends :
    (k : Flags) (d : Domain) (c : Client) (payload : Slice) (reply : Reply) (h : Memory)
    (lent : List ℕ) (p : MrPool) (dest : Result ℕ)
    → c.pool ≡ some p
    → payload.len ≤ p.size
    → Inv p h lent
    → PreparedLends lent (send_to accepts k d c payload reply h dest)
unfolding send_to PreparedLends
send_to-PreparedLends k d c payload reply h lent p (err e) s f v = (p, s, v)
send_to-PreparedLends k d c payload reply h lent p (ok dest) s f v =
    let fits : leb payload.len p.size ≡ true = ground (arith, f) in
    let a = acquire k p reply h in
    rw (s, fits)
      (send_pooled-PreparedLends payload dest lent a.0 a.1 a.2 (acquire-Inv k p reply h lent v))

pub prepare_send-PreparedLends :
    (k : Flags) (d : Domain) (c : Client) (payload : Slice) (dest : ℕ) (reply : Reply) (h : Memory)
    (lent : List ℕ) (p : MrPool)
    → c.pool ≡ some p
    → payload.len ≤ p.size
    → Inv p h lent
    → PreparedLends lent (prepare_send accepts k d c payload dest reply h)
unfolding prepare_send PreparedLends
prepare_send-PreparedLends k d c payload dest reply h lent p s f v =
    elim (Bool-cases (payload.len == 0)) [
      | inl z ↦ rw z (p, s, v)
      | inr z ↦ rw z (
          send_to-PreparedLends k d c payload reply h lent p (destination c.cfg.endpoint_type dest)
            s f v)
    ]

pub prepare_receive-PreparedLends :
    (k : Flags) (d : Domain) (c : Client) (buf : Slice) (reply : Reply) (h : Memory) (lent : List ℕ)
    (p : MrPool)
    → c.pool ≡ some p
    → buf.len ≤ p.size
    → Inv p h lent
    → PreparedLends lent (prepare_receive accepts k d c buf reply h)
unfolding prepare_receive PreparedLends
prepare_receive-PreparedLends k d c buf reply h lent p s f v =
    let fits : leb buf.len p.size ≡ true = ground (arith, f) in
    let a = acquire k p reply h in
    elim (Bool-cases (buf.len == 0)) [
      | inl z ↦ rw z (p, s, v)
      | inr z ↦
          rw (z, s, fits)
            (recv_pooled-PreparedLends buf lent a.0 a.1 a.2 (acquire-Inv k p reply h lent v))
    ]

pub run_cleanup-Lends :
    (id : ℕ) (pool : Option MrPool) (h : Memory) (lent : List ℕ)
    → Lends pool h (id ∷ lent)
    → let r = run_cleanup accepts (gives_back id) pool h in Lends r.0 r.1 lent
unfolding run_cleanup Lends
run_cleanup-Lends id pool h lent (p, s, v) =
    rw s ((release accepts p id h).0, refl, release-Inv p id h lent v)

-- Operation `n` has not been completed, and its release function gives `id` back.
unfoldable pub Pending : Session → ℕ → ℕ → Type 0
Pending s n id = ((s.state.operations n).0.fired ≡ false) × (s.cleanups n ≡ gives_back id)

finish_first-HasLent :
    (k : Setting) (n id : ℕ) (res : OperationResult) (s : Session) (lent : List ℕ)
    → k.closes ≡ accepts
    → s.cleanups n ≡ gives_back id
    → HasLent s (id ∷ lent)
    → HasLent (finish_first k n res s) lent
unfolding finish_first
finish_first-HasLent k n id res s lent a c v =
    rw (a, c) (run_cleanup-Lends id s.client.pool s.memory lent v)

finish_first-done :
    (k : Setting) (n : ℕ) (res : OperationResult) (s : Session)
    → (s.state.operations n).0.fired ≡ false
    → ((finish_first k n res s).state.operations n).0.done ≡ true
unfolding finish_first complete
finish_first-done k n res s f = ground (arith, f)

-- The completion of a pending operation gives its region back.
pub finish-HasLent :
    (k : Setting) (n id : ℕ) (res : OperationResult) (s : Session) (lent : List ℕ)
    → k.closes ≡ accepts
    → Pending s n id
    → HasLent s (id ∷ lent)
    → (((finish k n res s).state.operations n).0.done ≡ true) × HasLent (finish k n res s) lent
unfolding finish Pending
finish-HasLent k n id res s lent a (f, c) v =
    rw f (finish_first-done k n res s f, finish_first-HasLent k n id res s lent a c v)

-- What a call that posts leaves: an error and what was lent before; or an operation that is done, and the same; or one
-- that is pending and holds one region more.
unfoldable pub LentOutcome : List ℕ → Session × Result ℕ → Type 0
LentOutcome lent (s, err e) = HasLent s lent
LentOutcome lent (s, ok n) =
    (((s.state.operations n).0.done ≡ true) × HasLent s lent)
    ⊎ ((id : ℕ) × Pending s n id × HasLent s (id ∷ lent))

-- A new operation is pending with its cleanup.
pub add_operation-Pending :
    (kind other : OperationKind) (size id : ℕ) (m : Option ReceiveMeta) (s : Session)
    → Pending (posted_one other (add_operation kind size (gives_back id) m s)) s.made id
unfolding add_operation posted_one Pending new_operation
add_operation-Pending kind other size id m s = (rw (==_refl s.made) refl, rw (==_refl s.made) refl)

pub sent_on-LentOutcome :
    (k : Setting) (size len id : ℕ) (s : Session) (lent : List ℕ) (r : Result (Option ℕ))
    → k.closes ≡ accepts
    → HasLent s (id ∷ lent)
    → LentOutcome lent (sent_on k size len (gives_back id) s r)
unfolding sent_on LentOutcome Pending
sent_on-LentOutcome k size len id s lent (err e) a v =
    rw a (run_cleanup-Lends id s.client.pool s.memory lent v)
sent_on-LentOutcome k size len id s lent (ok none) a v =
    let s1 = posted_one operation_send (add_operation operation_send size (gives_back id) none s) in
    inl (
      finish-HasLent k s.made id (record { length = len; error = none }) s1 lent a
        (add_operation-Pending operation_send operation_send size id none s) v)
sent_on-LentOutcome k size len id s lent (ok (some ctx)) a v =
    inr (id, add_operation-Pending operation_send operation_send size id none s, v)
