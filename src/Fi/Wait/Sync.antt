-- ===== src/Fi/Wait/Sync.antt =====
-- fi/messaging.go, fi/tagged.go, fi/rma.go: the calls that post and wait. A wrapper with a context and the one
-- without differ in what the rounds may answer. The queue is none where it is nil. What TaggedRecvSync returns
-- of the event, the tag and the data, is not modelled.
use libfabric_go.Fi.Memory.{Region}
use libfabric_go.Fi.Post.Requests.{Request, context_of, region_of, post}
use libfabric_go.Fi.Post.Fresh.{FreshOutcome, post-FreshOutcome}
use libfabric_go.Capi.Errors.{Result, ok, message, err, is_sentinel, Sentinel}
use libfabric_go.Fi.Context.Effects.{Slice}
use libfabric_go.Fi.Post.{Endpoint, Answers, Posted, Issue}
use libfabric_go.Fi.Post.Message.{post_send, post_recv}
use libfabric_go.Fi.Post.Tagged.{post_tagged_send, post_tagged_recv}
use libfabric_go.Fi.Post.Rma.{RmaRequest, post_read, post_write}
use libfabric_go.Fi.Context.{Runtime, resolve_completion, release_with}
use libfabric_go.Fi.Wait.{
  wait_for_completion, wait_loop, on_resolved, ℤ, Waited, Result, Poll, fails, found, cancels,
  reads, gives_up, nothing,
}
use libfabric_go.Base.{
  ℕ, Option, none, some, List, [], refl, ◌≡◌, ◌≢◌, lookup, ◌∷◌, ◌++◌, false, arith, true, Bool,
  ◌==◌,
}

-- The wait behind a post, or its error.
unfoldable pub wait_posted : ℕ → ℤ → List Poll → Posted → Runtime × Waited
unfolding wait_for_completion
wait_posted handle timeout polls p = elim p.result [
  | err e ↦ (p.runtime, fails e)
  | ok ctx ↦ wait_for_completion handle ctx timeout p.runtime polls
]

abbrev pub queue_required : Runtime → Runtime × Waited
queue_required r = (r, fails (message "libfabric: completion queue required"))

-- The same with the check of the queue, which comes before the post.
unfoldable pub synced : Option ℕ → ℤ → List Poll → Runtime → Posted → Runtime × Waited
unfolding wait_posted
synced none timeout polls r p = queue_required r
synced (some handle) timeout polls r p = wait_posted handle timeout polls p

unfoldable pub send_sync :
    ℕ → Endpoint → Slice → ℕ → Option ℕ → ℤ → Answers → List Poll → Runtime → Runtime × Waited
unfolding synced post_send
send_sync local e buf dest queue timeout ans polls r = synced queue timeout polls r (
    post_send local e (some (record { buffer = buf; dest = dest; context = none; region = none }))
      ans r)

unfoldable pub recv_sync :
    ℕ → Endpoint → Slice → Option ℕ → ℤ → Answers → List Poll → Runtime → Runtime × Waited
unfolding synced post_recv
recv_sync local e buf queue timeout ans polls r = synced queue timeout polls r (
    post_recv local e (some (record { buffer = buf; source = 0; context = none; region = none }))
      ans r)

unfoldable pub tagged_send_sync :
    Endpoint → Slice → ℕ → ℕ → Option ℕ → ℤ → Answers → List Poll → Runtime → Runtime × Waited
unfolding synced post_tagged_send
tagged_send_sync e buf dest tag queue timeout ans polls r = synced queue timeout polls r (
    post_tagged_send e (some (record { buffer = buf; dest = dest; tag = tag; context = none })) ans
      r)

unfoldable pub tagged_recv_sync :
    Endpoint → Slice → ℕ → ℕ → Option ℕ → ℤ → Answers → List Poll → Runtime → Runtime × Waited
unfolding synced post_tagged_recv
tagged_recv_sync e buf tag ignore queue timeout ans polls r = synced queue timeout polls r (
    post_tagged_recv e
      (some (record { buffer = buf; source = 0; tag = tag; ignore = ignore; context = none })) ans
      r)

-- A nil request is `none`.
unfoldable pub read_sync :
    ℕ
    → Endpoint
    → Option RmaRequest
    → Option ℕ
    → ℤ
    → Answers
    → List Poll
    → Runtime
    → Runtime × Waited
unfolding synced post_read
read_sync local e req queue timeout ans polls r =
    synced queue timeout polls r (post_read local e req ans r)

unfoldable pub write_sync :
    ℕ
    → Endpoint
    → Option RmaRequest
    → Option ℕ
    → ℤ
    → Answers
    → List Poll
    → Runtime
    → Runtime × Waited
unfolding synced post_write
write_sync local e req queue timeout ans polls r =
    synced queue timeout polls r (post_write local e req ans r)

-- An empty queue, read before the deadline.
abbrev pub Idles : ℤ → List Poll → Type 0
Idles timeout [] = Unit {0}
Idles timeout (cancels e ∷ polls) = ⊥
Idles timeout (reads (ok p) expired ∷ polls) = ⊥
Idles timeout (reads (err e) expired ∷ polls) =
    (is_sentinel Sentinel.no_completion e ≡ true)
    × (gives_up timeout expired ≡ false)
    × Idles timeout polls

wait_loop-Idles :
    (timeout : ℤ) (target : ℕ) (r : Runtime) (before later : List Poll)
    → Idles timeout before
    → wait_loop timeout target r (before ++ later) ≡ wait_loop timeout target r later
unfolding wait_loop
wait_loop-Idles timeout target r [] later h = refl
wait_loop-Idles timeout target r (cancels e ∷ before) later h = absurd h
wait_loop-Idles timeout target r (reads (ok p) x ∷ before) later h = absurd h
wait_loop-Idles timeout target r (reads (err e) x ∷ before) later h =
    rw (h.0, h.1) (wait_loop-Idles timeout target r before later h.2)

resolves_open :
    (ptr id : ℕ) (r : Runtime)
    → ptr ≢ 0
    → lookup ptr r.registry ≡ some id
    → (r.objects id).closed ≡ false
    → (resolve_completion ptr r).1 ≡ ok id
unfolding resolve_completion release_with
resolves_open ptr id r z l c = ground (arith, z, l, c)

on_resolved_found :
    (target ptr : ℕ) (o : Runtime × Result ℕ) (rest : Runtime × Waited)
    → o.1 ≡ ok target
    → (on_resolved target ptr o rest).1 ≡ found ptr
unfolding on_resolved
on_resolved_found target ptr (r, ok id) rest h = ground (arith, h)
on_resolved_found target ptr (r, err e) rest h = ground (arith, h)

-- What the wait behind a post on `handle` gives when the queue yields the post's completion: the error of a
-- post that issued nothing; nothing, at once, for an injected post; or the completion's pointer.
abbrev pub SyncOutcome : ℕ → Runtime × Waited → List Issue → Result (Option ℕ) → Type 0
SyncOutcome ptr w issued (err e) = (w.1 ≡ fails e) × (issued ≡ [])
SyncOutcome ptr w issued (ok none) = w.1 ≡ nothing
SyncOutcome ptr w issued (ok (some id)) = w.1 ≡ found ptr

wait_posted-SyncOutcome :
    (handle ptr : ℕ) (timeout : ℤ) (before later : List Poll) (expired : Bool)
    (region : Option Region) (r r' : Runtime) (issued : List Issue) (o : Result (Option ℕ))
    → handle ≢ 0
    → ptr ≢ 0
    → Idles timeout before
    → FreshOutcome region ptr r r' issued o
    → SyncOutcome ptr
        (wait_posted handle timeout
          (before ++ reads (ok ptr) expired ∷ later)
          (record { runtime = r'; issued = issued; result = o }))
        issued
        o
unfolding wait_posted wait_for_completion
wait_posted-SyncOutcome handle ptr timeout before later x region r r' issued (err e) h z i f =
    (refl, f.1)
wait_posted-SyncOutcome handle ptr timeout before later x region r r' issued (ok none) h z i f =
    refl
wait_posted-SyncOutcome handle ptr timeout before later x region r r' issued (ok (some id)) h z i
      f =
    let e : (handle == 0) ≡ false = ground arith in
    rw (e, wait_loop-Idles timeout id r' before (reads (ok ptr) x ∷ later) i)
      (unfold wait_loop in
        (on_resolved_found id ptr (resolve_completion ptr r')
          (wait_loop timeout id (resolve_completion ptr r').0 later)
          (resolves_open ptr id r' z f.0 f.2)))

-- A post that waits, of a request without a context, on an open queue, where the new context gets a
-- pointer that is not nil and not registered, and the queue is empty before the deadline until it yields the
-- completion of that pointer: the call gives the post's error, and then nothing was issued; or
-- nothing, at once, for a post that was injected; or the completion of that very pointer.
pub synced-SyncOutcome :
    (local : ℕ) (e : Endpoint) (q : Request) (handle : ℕ) (timeout : ℤ) (ans : Answers)
    (before later : List Poll) (expired : Bool) (r : Runtime)
    → context_of q ≡ none
    → handle ≢ 0
    → ans.new_context ≢ 0
    → lookup ans.new_context r.registry ≡ none
    → Idles timeout before
    → let p = post local e q ans r in
      SyncOutcome ans.new_context
        (synced (some handle) timeout (before ++ reads (ok ans.new_context) expired ∷ later) r p)
        p.issued
        p.result
unfolding synced
synced-SyncOutcome local e q handle timeout ans before later expired r n h z f i =
    let p = post local e q ans r in
    wait_posted-SyncOutcome handle ans.new_context timeout before later expired (region_of q) r
      p.runtime p.issued p.result h z i (post-FreshOutcome local e q ans r n f)
