-- ===== src/Client/Session/Completion.antt =====
-- client/client.go: a send, from its call to the result that Await gives.
use libfabric_go.Client.Prepare.Regions.{prepare_send_fits}
use libfabric_go.Fi.Context.Effects.{Slice}
use libfabric_go.Fi.Post.Requests.{send, post}
use libfabric_go.Fi.Pool.{MrPool, Reply}
use libfabric_go.Fi.Post.Message.{SendRequest, post_send}
use libfabric_go.Fi.Memory.{Region, Memory}
use libfabric_go.Fi.Post.{Posted, Answers}
use libfabric_go.Fi.Post.Fresh.{FreshOutcome, post-FreshOutcome}
use mathlib.Core.List.{append-nil}
use libfabric_go.Base.{
  inl, inr, ◌⊎◌, ==_refl, ℕ, suc, ◌≡◌, ◌≢◌, refl, true, false, Option, none, some, List, arith,
  lookup, ==_refl, ap, String,
}
use libfabric_go.Capi.Errors.{ok, Result, err, GoError}
use libfabric_go.Fi.Context.{Runtime, resolve_completion, release_with, set_value}
use libfabric_go.Capi.Errors.{OperationKind, operation_send}
use libfabric_go.Client.Emit.{Board, ReceiveMeta, Stats, emit}
use libfabric_go.Client.Dispatch.{result_of, attach}
use libfabric_go.Client.Operation.{
  Notice, Operation, new_operation, OperationResult, await, complete,
}
use libfabric_go.Client.Prepare.{Cleanup, prepare_send}
use libfabric_go.Client.Session.{
  Setting, Session, finish, finish_first, add_operation, posted_one, put, with_runtime,
  count_posted, release_of, SendRequest, Answers, MrPool, Memory, post_send, with_memory, Slice,
  Reply,
}
use libfabric_go.Client.Session.Async.{
  sent_on, behind, posted_size, send_prepared, send_checked, refusal, send_async,
}
use libfabric_go.Client.Session.Dispatcher.{handle, finish_resolved, finish_value, sourced}

-- The completion of a context with a value: the context is resolved and keeps its value.
resolved-value :
    (ptr id n : ℕ) (r : Runtime)
    → ptr ≢ 0
    → lookup ptr r.registry ≡ some id
    → (r.objects id).closed ≡ false
    → (r.objects id).value ≡ some n
    → (r' : Runtime) × (resolve_completion ptr r ≡ (r', ok id)) × ((r'.objects id).value ≡ some n)
unfolding resolve_completion release_with
resolved-value ptr id n r z l c v =
    ((resolve_completion ptr r).0, ground (arith, z, l), ground (arith, z, l, c, v))

-- A send that waits for its completion.
abbrev pub waiting : ℕ → Option ℕ → Operation
waiting size release = record (new_operation true operation_send size) { release = release }

-- What Await and the statistics tell of operation `n` in `after`, against those before its completion.
unfoldable pub SendDone : Stats → Session → ℕ → ℕ → Type 0
unfolding await
SendDone t after n size =
    (await none (after.state.operations n).0 ≡ some (record { length = size; error = none }))
    × (after.board.stats ≡ record t { send_completed = suc t.send_completed })

complete_first :
    (res : OperationResult) (o : Operation × List Notice)
    → o.0.fired ≡ false
    → await none (complete res o).0 ≡ some res
unfolding complete await
complete_first res (op, log) f = rw f refl

emit_send :
    (kind : OperationKind) (m : Option ReceiveMeta) (size : ℕ) (b : Board)
    → kind ≡ operation_send
    → (emit kind m (record { length = size; error = none }) b).0.stats
      ≡ record b.stats { send_completed = suc b.stats.send_completed }
unfolding emit
emit_send kind m size b e = rw e refl

finish_first-SendDone :
    (k : Setting) (n size len : ℕ) (release : Option ℕ) (s : Session)
    → (s.state.operations n).0 ≡ waiting size release
    → SendDone s.board.stats (finish_first k n (record { length = len; error = none }) s) n len
unfolding SendDone finish_first complete emit new_operation
finish_first-SendDone k n size len release s e =
    let res : OperationResult = record { length = len; error = none } in
    let open_yet : (s.state.operations n).0.fired ≡ false = ap (λ (o : Operation). o.fired) e in
    (
      rw (==_refl n) (complete_first res (s.state.operations n) open_yet),
      emit_send (s.state.operations n).0.kind (s.metas n) len s.board
          (ap (λ (o : Operation). o.kind) e),
    )

finish-SendDone :
    (k : Setting) (n size len : ℕ) (release : Option ℕ) (s : Session)
    → (s.state.operations n).0 ≡ waiting size release
    → SendDone s.board.stats (finish k n (record { length = len; error = none }) s) n len
unfolding finish new_operation
finish-SendDone k n size len release s e =
    let open_yet : (s.state.operations n).0.fired ≡ false = ap (λ (o : Operation). o.fired) e in
    simp (open_yet, finish) (finish_first-SendDone k n size len release s e)

handle-SendDone :
    (k : Setting) (ptr id n size source : ℕ) (release : Option ℕ) (r : Runtime) (s : Session)
    → resolve_completion ptr s.state.runtime ≡ (r, ok id)
    → (r.objects id).value ≡ some n
    → (s.state.operations n).0 ≡ waiting size release
    → SendDone s.board.stats (handle k ptr source none s) n size
unfolding handle finish_resolved finish_value result_of new_operation
handle-SendDone k ptr id n size source release r s e v o =
    let metas = put s.metas n (sourced (s.state.operations n).0.kind source (s.metas n)) in
    let same_size : (s.state.operations n).0.size ≡ size = ap (λ (o : Operation). o.size) o in
    rw (e, v, same_size)
      (finish-SendDone k n size size release (record (with_runtime r s) { metas = metas }) o)

-- The context that a send's operation has been attached to.
sent_on-SendDone :
    (k : Setting) (size len ptr id source : ℕ) (c : Cleanup) (s : Session)
    → ptr ≢ 0
    → lookup ptr s.state.runtime.registry ≡ some id
    → (s.state.runtime.objects id).closed ≡ false
    → SendDone
        (count_posted operation_send s.board.stats)
        (handle k ptr source none (sent_on k size len c s (ok (some id))).0)
        s.made
        size
unfolding sent_on posted_one add_operation attach set_value
sent_on-SendDone k size len ptr id source c s z l o =
    let s1 = (sent_on k size len c s (ok (some id))).0 in
    let (r', e, v) =
      resolved-value ptr id s.made s1.state.runtime z l (rw (==_refl id) o)
        (rw (==_refl id) refl) in
    handle-SendDone k ptr id s.made size source (release_of c s.made) r' s1 e v
      (rw (==_refl s.made) refl)

-- What sendAsync leaves, for a payload of `len` bytes: an error, nothing new issued, posted or counted; or
-- an operation, which is done at once, or by the completion of the pointer `ptr`, with the payload's length
-- and no error, and counted once as posted and once as completed.
unfoldable pub SendOutcome : Setting → ℕ → ℕ → Session → Session × Result ℕ → Type 0
SendOutcome k ptr len s (s', err e) =
    (s'.issued ≡ s.issued) × (s'.board ≡ s.board) × (s'.made ≡ s.made)
SendOutcome k ptr len s (s', ok n) =
    SendDone (count_posted operation_send s.board.stats) s' n len
    ⊎ ((await none (s'.state.operations n).0 ≡ none)
        × ((source : ℕ)
            → SendDone (count_posted operation_send s.board.stats) (handle k ptr source none s') n
                len))

-- The same from the session behind a post and the result of the post.
sent_on-SendOutcome :
    (k : Setting) (ptr len : ℕ) (c : Cleanup) (s : Session) (p : Posted) (region : Option Region)
    (o : Result (Option ℕ))
    → ptr ≢ 0
    → FreshOutcome region ptr s.state.runtime p.runtime p.issued o
    → SendOutcome k ptr len s (sent_on k len len c (behind p s) o)
unfolding sent_on SendOutcome posted_one add_operation await new_operation
sent_on-SendOutcome k ptr len c s p region (err e) z f = (rw f.1 (append-nil s.issued), refl, refl)
sent_on-SendOutcome k ptr len c s p region (ok none) z f = inl (
    finish-SendDone k s.made len len (release_of c s.made)
      (posted_one operation_send (add_operation operation_send len c none (behind p s)))
      (rw (==_refl s.made) refl))
sent_on-SendOutcome k ptr len c s p region (ok (some id)) z f = inr (
  rw (==_refl s.made) refl,
  λ source. sent_on-SendDone k len len ptr id source c (behind p s) z f.0 f.2,
)

-- The same where the size of the operation and the length of the buffer are given as the payload's.
sized-SendOutcome :
    (k : Setting) (ptr len size n : ℕ) (c : Cleanup) (s : Session) (p : Posted)
    (region : Option Region) (o : Result (Option ℕ))
    → size ≡ len
    → n ≡ len
    → ptr ≢ 0
    → FreshOutcome region ptr s.state.runtime p.runtime p.issued o
    → SendOutcome k ptr len s (sent_on k size n c (behind p s) o)
sized-SendOutcome k ptr len size n c s p region o a b z f =
    rw (a, b) (sent_on-SendOutcome k ptr len c s p region o z f)

posted_size-len : (q : SendRequest) (len : ℕ) → len ≢ 0 → q.buffer.len ≡ len → posted_size q ≡ len
unfolding posted_size
posted_size-len q len z e = ground (arith, z, e)

-- The memory that the preparation of a send has changed plays no part in its outcome.
prepared-SendOutcome :
    (k : Setting) (ptr len : ℕ) (pool : Option MrPool) (h : Memory) (s : Session)
    (o : Session × Result ℕ)
    → SendOutcome k ptr len (with_memory pool h s) o
    → SendOutcome k ptr len s o
unfolding SendOutcome
prepared-SendOutcome k ptr len pool h s (s', err e) f = f
prepared-SendOutcome k ptr len pool h s (s', ok n) f = f

send_prepared-SendOutcome :
    (k : Setting) (ans : Answers) (len : ℕ) (s : Session)
    (o : Option MrPool × Memory × Result (SendRequest × Cleanup))
    → ans.new_context ≢ 0
    → lookup ans.new_context s.state.runtime.registry ≡ none
    → len ≢ 0
    → ((q : SendRequest) (c : Cleanup)
        → o.2 ≡ ok (q, c)
        → (q.buffer.len ≡ len) × (q.context ≡ none))
    → SendOutcome k ans.new_context len s (send_prepared k ans s o)
unfolding send_prepared SendOutcome post
send_prepared-SendOutcome k ans len s (pool, h, err e) z f l fits = (refl, refl, refl)
send_prepared-SendOutcome k ans len s (pool, h, ok (q, c)) z f l fits =
    let (e, n) = fits q c refl in
    let p = post_send k.local s.endpoint (some q) ans s.state.runtime in
    let fresh : FreshOutcome q.region ans.new_context s.state.runtime p.runtime p.issued p.result =
      post-FreshOutcome k.local s.endpoint (send q) ans s.state.runtime n f in
    prepared-SendOutcome k ans.new_context len pool h s
      (sent_on k (posted_size q) q.buffer.len c (behind p (with_memory pool h s)) p.result)
      (sized-SendOutcome k ans.new_context len (posted_size q) q.buffer.len c (with_memory pool h s)
        p q.region p.result (posted_size-len q len l e) e z fresh)

send_checked-SendOutcome :
    (k : Setting) (payload : Slice) (dest : ℕ) (reply : Reply) (ans : Answers) (s : Session)
    (no : Option GoError)
    → ans.new_context ≢ 0
    → lookup ans.new_context s.state.runtime.registry ≡ none
    → (no ≡ none → payload.len ≢ 0)
    → SendOutcome k ans.new_context payload.len s (send_checked k payload dest reply ans s no)
unfolding send_checked SendOutcome
send_checked-SendOutcome k payload dest reply ans s (some e) z f l = (refl, refl, refl)
send_checked-SendOutcome k payload dest reply ans s none z f l =
    send_prepared-SendOutcome k ans payload.len s
      (prepare_send k.closes k.flags k.domain s.client payload dest reply s.memory) z f (l refl)
      (λ q c e.
        let (b, x, m) =
          prepare_send_fits k.closes k.flags k.domain s.client payload dest reply s.memory q c e in
        (b, x))

-- A call that no check has refused has a payload.
refusal-len : (text : String) (len : ℕ) (s : Session) → refusal text len s ≡ none → len ≢ 0
unfolding refusal
refusal-len text len s e = ground arith

-- sendAsync whose new context gets a pointer that is not nil and not registered: where it returns an
-- error, no request has been issued to the provider, no operation made, and the statistics and handlers are
-- as before; where it returns an operation, then either Await gives a result for it at once or does after
-- the dispatcher handles a completion of that pointer, whatever the completion's source: the result has
-- the payload's length and no error, and the statistics are those before with one send more
-- posted and one more completed.
pub send_completes :
    (k : Setting) (payload : Slice) (dest : ℕ) (reply : Reply) (ans : Answers) (s : Session)
    → ans.new_context ≢ 0
    → lookup ans.new_context s.state.runtime.registry ≡ none
    → SendOutcome k ans.new_context payload.len s (send_async k payload dest reply ans s)
unfolding send_async
send_completes k payload dest reply ans s z f =
    send_checked-SendOutcome k payload dest reply ans s
      (refusal "libfabric client: empty payload" payload.len s) z f
      (refusal-len "libfabric client: empty payload" payload.len s)
