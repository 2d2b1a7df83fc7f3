-- ===== src/Client/Session/Ledger/Steps.antt =====
-- client/client.go: what sendAsync, ReceiveAsync and the dispatcher do to the statistics and the operations.
use libfabric_go.Base.{
  ℕ, ◌<◌, ◌≡◌, refl, true, Option, none, some, List, arith, Bool-cases, inl, inr, ◌∙◌, sym, [],
  false,
}
use libfabric_go.Capi.Errors.{
  OperationKind, operation_send, operation_receive, GoError, Result, ok, err,
}
use libfabric_go.Fi.Context.{Runtime, set_value}
use libfabric_go.Fi.Context.Effects.{Slice}
use libfabric_go.Fi.Memory.{Memory}
use libfabric_go.Fi.Pool.{MrPool, Reply}
use libfabric_go.Fi.Post.{Answers}
use libfabric_go.Fi.Post.Message.{SendRequest, RecvRequest, post_send, post_recv}
use libfabric_go.Fi.Post.Values.{Keeps, post_send-Keeps, post_recv-Keeps}
use libfabric_go.Client.Operation.{Operation, OperationResult, Notice, complete, new_operation}
use libfabric_go.Client.Dispatch.{attach}
use libfabric_go.Client.Emit.{ReceiveMeta}
use libfabric_go.Client.Prepare.{Cleanup, prepare_send, prepare_receive}
use libfabric_go.Client.Session.{
  Setting, Session, with_memory, finish, finish_first, add_operation, posted_one, release_of,
}
use libfabric_go.Client.Session.Async.{
  behind, send_checked, send_prepared, received_on, receive_checked, receive_prepared, posted_size,
  send_async, receive_async, refusal, sent_on,
}
use libfabric_go.Client.Session.Ledger.{Ledger, Carried, posted-Books, emitted-Books}

pub Carried-Keeps : (r r' : Runtime) (made : ℕ) → Keeps r r' → Carried r made → Carried r' made
Carried-Keeps r r' made k c id n v = elim (k id) [
  | inl e ↦ c id n (sym e ∙ v)
  | inr e ↦ absurd (ground (arith, e, v))
]

completed : (res : OperationResult) (o : Operation × List Notice) → (complete res o).0.fired ≡ true
unfolding complete
completed res (op, log) = ground arith

finish_first-Ledger :
    (k : Setting) (n : ℕ) (res : OperationResult) (s : Session)
    → n < s.made
    → (s.state.operations n).0.fired ≡ false
    → Ledger s
    → Ledger (finish_first k n res s)
unfolding finish_first
finish_first-Ledger k n res s h f v = record {
  books =
      emitted-Books (s.state.operations n).0.kind (s.metas n) res s.board s.state.operations n
        s.made (complete res (s.state.operations n)) h refl f (completed res (s.state.operations n))
        v.books;
  carried = v.carried;
}

pub finish-Ledger :
    (k : Setting) (n : ℕ) (res : OperationResult) (s : Session)
    → n < s.made
    → Ledger s
    → Ledger (finish k n res s)
unfolding finish
finish-Ledger k n res s h v = elim (Bool-cases (s.state.operations n).0.fired) [
  | inl f ↦ rw f v
  | inr f ↦ simp (f, finish) (finish_first-Ledger k n res s h f v)
]

-- A new operation that is counted as posted.
added-Ledger :
    (kind : OperationKind) (size : ℕ) (c : Cleanup) (meta : Option ReceiveMeta) (s : Session)
    → Ledger s
    → Ledger (posted_one kind (add_operation kind size c meta s))
unfolding posted_one add_operation new_operation
added-Ledger kind size c meta s v = record {
  books =
      posted-Books kind s.board.stats s.state.operations s.made
        (record (new_operation true kind size) { release = release_of c s.made }, []) refl refl
        v.books;
  carried = λ id n e. omega (arith, v.carried id n e);
}

added_made :
    (kind : OperationKind) (size : ℕ) (c : Cleanup) (meta : Option ReceiveMeta) (s : Session)
    → s.made < (posted_one kind (add_operation kind size c meta s)).made
unfolding posted_one add_operation
added_made kind size c meta s = omega arith

attach-Ledger :
    (id n : ℕ) (s : Session)
    → n < s.made
    → Ledger s
    → Ledger (record s { state = attach id n s.state })
unfolding attach set_value
attach-Ledger id n s h v = record {
  books = v.books;
  carried = λ j m e. ground (arith, h, e, v.carried j m);
}

sent_on-Ledger :
    (k : Setting) (size len : ℕ) (c : Cleanup) (s : Session) (o : Result (Option ℕ))
    → Ledger s
    → Ledger (sent_on k size len c s o).0
unfolding sent_on
sent_on-Ledger k size len c s (err e) v = record { books = v.books; carried = v.carried }
sent_on-Ledger k size len c s (ok none) v =
    finish-Ledger k s.made (record { length = len; error = none })
      (posted_one operation_send (add_operation operation_send size c none s))
      (added_made operation_send size c none s) (added-Ledger operation_send size c none s v)
sent_on-Ledger k size len c s (ok (some id)) v =
    attach-Ledger id s.made (posted_one operation_send (add_operation operation_send size c none s))
      (added_made operation_send size c none s) (added-Ledger operation_send size c none s v)

received_on-Ledger :
    (k : Setting) (buf : Slice) (c : Cleanup) (s : Session) (o : Result (Option ℕ))
    → Ledger s
    → Ledger (received_on k buf c s o).0
unfolding received_on
received_on-Ledger k buf c s (err e) v = record { books = v.books; carried = v.carried }
received_on-Ledger k buf c s (ok none) v =
    added-Ledger operation_receive buf.len c (some (record { buffer = some buf; source = 0 })) s v
received_on-Ledger k buf c s (ok (some id)) v =
    let meta = some (record { buffer = some buf; source = 0 }) in
    attach-Ledger id s.made
      (posted_one operation_receive (add_operation operation_receive buf.len c meta s))
      (added_made operation_receive buf.len c meta s)
      (added-Ledger operation_receive buf.len c meta s v)

send_prepared-Ledger :
    (k : Setting) (ans : Answers) (s : Session)
    (o : Option MrPool × Memory × Result (SendRequest × Cleanup))
    → Ledger s
    → Ledger (send_prepared k ans s o).0
unfolding send_prepared
send_prepared-Ledger k ans s (pool, h, err e) v = record { books = v.books; carried = v.carried }
send_prepared-Ledger k ans s (pool, h, ok (q, c)) v =
    let p = post_send k.local s.endpoint (some q) ans s.state.runtime in
    sent_on-Ledger k (posted_size q) q.buffer.len c (behind p (with_memory pool h s)) p.result
      (record {
        books = v.books;
        carried =
            Carried-Keeps s.state.runtime p.runtime s.made
              (post_send-Keeps k.local s.endpoint q ans s.state.runtime) v.carried;
      })

send_checked-Ledger :
    (k : Setting) (payload : Slice) (dest : ℕ) (reply : Reply) (ans : Answers) (s : Session)
    (o : Option GoError)
    → Ledger s
    → Ledger (send_checked k payload dest reply ans s o).0
unfolding send_checked
send_checked-Ledger k payload dest reply ans s (some e) v = v
send_checked-Ledger k payload dest reply ans s none v =
    send_prepared-Ledger k ans s
      (prepare_send k.closes k.flags k.domain s.client payload dest reply s.memory) v

pub send_async-Ledger :
    (k : Setting) (payload : Slice) (dest : ℕ) (reply : Reply) (ans : Answers) (s : Session)
    → Ledger s
    → Ledger (send_async k payload dest reply ans s).0
unfolding send_async
send_async-Ledger k payload dest reply ans s v =
    send_checked-Ledger k payload dest reply ans s
      (refusal "libfabric client: empty payload" payload.len s) v

receive_prepared-Ledger :
    (k : Setting) (buf : Slice) (ans : Answers) (s : Session)
    (o : Option MrPool × Memory × Result (RecvRequest × Cleanup))
    → Ledger s
    → Ledger (receive_prepared k buf ans s o).0
unfolding receive_prepared
receive_prepared-Ledger k buf ans s (pool, h, err e) v = record {
  books = v.books;
  carried = v.carried;
}
receive_prepared-Ledger k buf ans s (pool, h, ok (q, c)) v =
    let p = post_recv k.local s.endpoint (some q) ans s.state.runtime in
    received_on-Ledger k buf c (behind p (with_memory pool h s)) p.result (record {
      books = v.books;
      carried =
          Carried-Keeps s.state.runtime p.runtime s.made
            (post_recv-Keeps k.local s.endpoint q ans s.state.runtime) v.carried;
    })

receive_checked-Ledger :
    (k : Setting) (buf : Slice) (reply : Reply) (ans : Answers) (s : Session) (o : Option GoError)
    → Ledger s
    → Ledger (receive_checked k buf reply ans s o).0
unfolding receive_checked
receive_checked-Ledger k buf reply ans s (some e) v = v
receive_checked-Ledger k buf reply ans s none v =
    receive_prepared-Ledger k buf ans s
      (prepare_receive k.closes k.flags k.domain s.client buf reply s.memory) v

pub receive_async-Ledger :
    (k : Setting) (buf : Slice) (reply : Reply) (ans : Answers) (s : Session)
    → Ledger s
    → Ledger (receive_async k buf reply ans s).0
unfolding receive_async
receive_async-Ledger k buf reply ans s v =
    receive_checked-Ledger k buf reply ans s
      (refusal "libfabric client: buffer must be non-empty" buf.len s) v
