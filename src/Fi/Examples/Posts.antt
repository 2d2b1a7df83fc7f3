-- ===== src/Fi/Examples/Posts.antt =====
-- fi/messaging.go, fi/tagged.go, fi/rma.go: posts on fixed inputs.
use libfabric_go.Base.Int.{pos}
use libfabric_go.Capi.Examples.{codes}
use libfabric_go.Fi.Post.Passed.{passed, call_place, post_passed, tried, AtMostInject}
use libfabric_go.Fi.Post.Staging.{Fits}
use libfabric_go.Capi.Calls.{CCall}
use libfabric_go.Fi.Wait.{Poll, gives_up, reads}
use libfabric_go.Fi.Wait.Sync.{SyncOutcome, synced, Idles, synced-SyncOutcome}
use libfabric_go.Base.{
  ◌≡◌, ◌⊎◌, refl, some, none, true, false, lookup, List, arith, ◌++◌, ◌∷◌, [], ℕ,
}
use libfabric_go.Capi.Errors.{GoError, ok, is_sentinel, err, sentinel, Sentinel, message}
use libfabric_go.Fi.Context.{Runtime, new_completion_context, ensure_buffer, set_copy_back}
use libfabric_go.Fi.Context.History.{start}
use libfabric_go.Fi.Post.{
  Endpoint, Answers, refused, ensure_context, stage_in, stage_buffer, stage_out,
}
use libfabric_go.Fi.Post.Staging.{PostOutcome}
use libfabric_go.Fi.Post.Requests.{Request, send, recv, post}
use libfabric_go.Fi.Post.Fresh.{FreshOutcome, post-FreshOutcome, post_supplied}
use libfabric_go.Fi.Post.Message.{RecvRequest, post_recv, SendRequest, post_send, may_inject}
use libfabric_go.Fi.Post.Rma.{RmaRequest, post_read}

abbrev rdm_endpoint : Endpoint
rdm_endpoint = record { handle = 5; inject_limit = 8; supports_tagged = true }

abbrev granted : Answers
granted = record { new_context = 300; new_buffer = 900; inject = none; post = none }

abbrev large_send : Request
large_send =
    send
      (record { buffer = record { base = 40; len = 16 }; dest = 2; context = none; region = none })

unregistered : lookup 300 start.registry ≡ none
unfolding lookup
unregistered = refl

post-FreshOutcome_example :
    FreshOutcome none 300 start
      (post 4 rdm_endpoint large_send granted start).runtime
      (post 4 rdm_endpoint large_send granted start).issued
      (post 4 rdm_endpoint large_send granted start).result
post-FreshOutcome_example =
    post-FreshOutcome 4 rdm_endpoint large_send granted start refl unregistered

-- A context of the caller's, and a receive with it.
abbrev one_context : Runtime
one_context = (new_completion_context 300 start).0

abbrev own_recv : Request
own_recv = recv (record {
  buffer = record { base = 40; len = 16 };
  source = 0;
  context = some 0;
  region = none;
})

still_open : (one_context.objects 0).closed ≡ false
unfolding new_completion_context
still_open = refl

post_supplied_example :
    ((x : GoError) × (post 4 rdm_endpoint own_recv granted one_context ≡ refused one_context x))
    ⊎ PostOutcome none 0 one_context
        (post 4 rdm_endpoint own_recv granted one_context).runtime
        (post 4 rdm_endpoint own_recv granted one_context).issued
        (post 4 rdm_endpoint own_recv granted one_context).result
post_supplied_example = post_supplied 4 rdm_endpoint own_recv granted one_context 0 refl still_open

abbrev plain_recv : RecvRequest
plain_recv = record {
  buffer = record { base = 40; len = 16 };
  source = 0;
  context = none;
  region = none;
}

abbrev plain_read : RmaRequest
plain_read = record {
  buffer = record { base = 40; len = 16 };
  region = none;
  key = 77;
  offset = 0;
  address = 2;
  context = none;
}

recv_posted : (post_recv 4 rdm_endpoint (some plain_recv) granted start).result ≡ ok (some 0)
unfolding post_recv ensure_context new_completion_context stage_in ensure_buffer stage_buffer
    set_copy_back
recv_posted = refl

read_posted : (post_read 4 rdm_endpoint (some plain_read) granted start).result ≡ ok (some 0)
unfolding post_read ensure_context new_completion_context stage_in ensure_buffer stage_buffer
    set_copy_back
read_posted = refl

-- The queue is empty, then yields the completion.
abbrev idle_once : List Poll
idle_once = reads (err (sentinel Sentinel.no_completion)) false ∷ []

idle_once-Idles : Idles (pos 1000) idle_once
unfolding is_sentinel gives_up
idle_once-Idles = (refl, ground arith, tt)

synced-SyncOutcome_example :
    SyncOutcome 300
      (synced
        (some 6)
        (pos 1000)
        (idle_once ++ reads (ok 300) false ∷ [])
        start
        (post 4 rdm_endpoint (recv plain_recv) granted start))
      (post 4 rdm_endpoint (recv plain_recv) granted start).issued
      (post 4 rdm_endpoint (recv plain_recv) granted start).result
unfolding lookup
synced-SyncOutcome_example =
    synced-SyncOutcome 4 rdm_endpoint (recv plain_recv) 6 (pos 1000) granted idle_once [] false
      start refl (omega arith) (omega arith) refl idle_once-Idles

posted_recv : (post 4 rdm_endpoint (recv plain_recv) granted start).result ≡ ok (some 0)
unfolding post
posted_recv = recv_posted

-- A send that is refused by fi_inject and then posted: both calls reach the C library.
abbrev plain_send : SendRequest
plain_send = record {
  buffer = record { base = 40; len = 16 };
  dest = 2;
  context = none;
  region = none;
}

abbrev no_inject : Answers
no_inject = record granted { inject = some (message "busy") }

posted_send : (post 4 rdm_endpoint (send plain_send) no_inject start).result ≡ ok (some 0)
unfolding post post_send ensure_context new_completion_context stage_out ensure_buffer stage_buffer
    may_inject
posted_send = refl

post_passed_example :
    (lookup 300 (post 4 rdm_endpoint (send plain_send) no_inject start).runtime.registry ≡ some 0)
    × ((first : List CCall) × (c : CCall) × (buf : ℕ) × (len : ℕ) × (passed codes 5 0 (pos 0) (
            tried rdm_endpoint (send plain_send) no_inject
            ++ (post 4 rdm_endpoint (send plain_send) no_inject start).issued)
          ≡ first ++ c ∷ [])
        × AtMostInject first
        × (call_place c ≡ some (buf, len, 300))
        × Fits none
            ((post 4 rdm_endpoint (send plain_send) no_inject start).runtime.objects 0)
            buf
            len)
post_passed_example =
    post_passed 4 rdm_endpoint (send plain_send) no_inject start codes 0 (pos 0) 0 refl unregistered
      (omega arith) posted_send
