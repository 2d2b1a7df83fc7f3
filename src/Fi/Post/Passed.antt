-- ===== src/Fi/Post/Passed.antt =====
-- fi/messaging.go, fi/tagged.go and fi/rma.go over internal/capi: how an operation that a post issues reaches
-- the C library. `desc` is the descriptor of the request's region, nil without one.
use mathlib.Core.List.{append_assoc}
use libfabric_go.Capi.Errors.{ok}
use libfabric_go.Fi.Post.Fresh.{FreshOutcome, post-FreshOutcome}
use libfabric_go.Fi.Post.Staging.{issue_place, Fits}
use libfabric_go.Fi.Memory.{Region}
use libfabric_go.Fi.Context.{Runtime}
use libfabric_go.Fi.Post.{
  Endpoint, Answers, Runtime, Issue, Region, injected, ok, sent, received, tagged_sent,
  tagged_received, read_from, written_to,
}
use libfabric_go.Capi.Handle.{Codes}
use libfabric_go.Fi.Post.Requests.{
  Request, context_of, post, region_of, send, recv, tagged_send, tagged_recv, read, write,
}
use libfabric_go.Capi.Calls.{
  endpoint_inject, CCall, called, endpoint_send, fi_send, fi_read, endpoint_recv, fi_recv, fi_write,
  endpoint_tsend, fi_inject, endpoint_trecv, fi_tsend, endpoint_read, fi_trecv, endpoint_write,
  fi_tinject, fi_accept, fi_connect, Called,
}
use libfabric_go.Base.Int.{ℤ}
use libfabric_go.Fi.Post.Message.{may_inject}
use libfabric_go.Base.{
  ℕ, List, [], ◌∷◌, ◌++◌, Option, none, some, ◌≡◌, ◌≢◌, refl, lookup, arith, ◌∙◌, if◌then◌else◌,
  ◌&&◌, is_some, Bool-cases, inl, inr, ◌⊎◌, ap, sym,
}

-- The calls of the `capi` endpoint in the posts.
unfoldable pub pass : Codes → ℕ → ℕ → ℤ → Issue → Called
unfolding endpoint_inject endpoint_send endpoint_recv endpoint_tsend endpoint_trecv endpoint_read
    endpoint_write
pass k handle desc status (injected s d) = endpoint_inject k handle s.base s.len d status
pass k handle desc status (sent buf len d ptr) = endpoint_send k handle buf len desc d ptr status
pass k handle desc status (received buf len s ptr) =
    endpoint_recv k handle buf len desc s ptr status
pass k handle desc status (tagged_sent buf len d tag ptr) =
    endpoint_tsend k handle buf len 0 d tag ptr status
pass k handle desc status (tagged_received buf len s tag ignore ptr) =
    endpoint_trecv k handle buf len 0 s tag ignore ptr status
pass k handle desc status (read_from buf len a key offset ptr) =
    endpoint_read k handle buf len desc a key offset ptr status
pass k handle desc status (written_to buf len a key offset ptr) =
    endpoint_write k handle buf len desc a key offset ptr status

-- The memory and the context that the C library is given.
abbrev pub call_place : CCall → Option (ℕ × ℕ × ℕ)
call_place (fi_send buf len desc d ptr) = some (buf, len, ptr)
call_place (fi_recv buf len desc s ptr) = some (buf, len, ptr)
call_place (fi_inject buf len d) = none
call_place (fi_tsend buf len desc d tag ptr) = some (buf, len, ptr)
call_place (fi_trecv buf len desc s tag ignore ptr) = some (buf, len, ptr)
call_place (fi_tinject buf len d tag) = none
call_place (fi_read buf len desc a addr key ptr) = some (buf, len, ptr)
call_place (fi_write buf len desc a addr key ptr) = some (buf, len, ptr)
call_place (fi_accept param len) = none
call_place (fi_connect param len) = none

pass-place :
    (k : Codes) (handle desc : ℕ) (status : ℤ) (i : Issue)
    → handle ≢ 0
    → (c : CCall) × ((pass k handle desc status i).0 ≡ c ∷ []) × (call_place c ≡ issue_place i)
unfolding pass called
pass-place k handle desc status (injected s d) h = (fi_inject s.base s.len d, ground arith, refl)
pass-place k handle desc status (sent buf len d ptr) h =
    (fi_send buf len desc d ptr, ground arith, refl)
pass-place k handle desc status (received buf len s ptr) h =
    (fi_recv buf len desc s ptr, ground arith, refl)
pass-place k handle desc status (tagged_sent buf len d tag ptr) h =
    (fi_tsend buf len 0 d tag ptr, ground arith, refl)
pass-place k handle desc status (tagged_received buf len s tag ignore ptr) h =
    (fi_trecv buf len 0 s tag ignore ptr, ground arith, refl)
pass-place k handle desc status (read_from buf len a key offset ptr) h =
    (fi_read buf len desc a offset key ptr, ground arith, refl)
pass-place k handle desc status (written_to buf len a key offset ptr) h =
    (fi_write buf len desc a offset key ptr, ground arith, refl)

-- The calls that reach the C library for a list of operations, whatever it answers to them.
unfoldable pub passed : Codes → ℕ → ℕ → ℤ → List Issue → List CCall
unfolding pass
passed k handle desc status [] = []
passed k handle desc status (i ∷ issues) =
    (pass k handle desc status i).0 ++ passed k handle desc status issues

-- The inject call that the C library refused before the post went on with a send.
abbrev pub tried : Endpoint → Request → Answers → List Issue
tried e (send q) ans =
    if may_inject e q && is_some ans.inject then injected q.buffer q.dest ∷ [] else []
tried e _ ans = []

-- At most a call of fi_inject, which has no context.
abbrev pub AtMostInject : List CCall → Type 0
AtMostInject calls =
    (calls ≡ []) ⊎ ((buf : ℕ) × (len : ℕ) × (dest : ℕ) × (calls ≡ fi_inject buf len dest ∷ []))

tried-AtMostInject :
    (k : Codes) (handle desc : ℕ) (status : ℤ) (e : Endpoint) (q : Request) (ans : Answers)
    → handle ≢ 0
    → AtMostInject (passed k handle desc status (tried e q ans))
unfolding passed pass called
tried-AtMostInject k handle desc status e (send q) ans h =
    elim (Bool-cases (may_inject e q && is_some ans.inject)) [
      | inl t ↦ rw t (inr (q.buffer.base, q.buffer.len, q.dest, ground (arith, h)))
      | inr t ↦ rw t (inl refl)
    ]
tried-AtMostInject k handle desc status e (recv q) ans h = inl refl
tried-AtMostInject k handle desc status e (tagged_send q) ans h = inl refl
tried-AtMostInject k handle desc status e (tagged_recv q) ans h = inl refl
tried-AtMostInject k handle desc status e (read q) ans h = inl refl
tried-AtMostInject k handle desc status e (write q) ans h = inl refl

passed-append :
    (k : Codes) (handle desc : ℕ) (status : ℤ) (a b : List Issue)
    → passed k handle desc status (a ++ b)
      ≡ passed k handle desc status a ++ passed k handle desc status b
unfolding passed
passed-append k handle desc status [] b = refl
passed-append k handle desc status (i ∷ a) b = rw (passed-append k handle desc status a b) (
    sym (
      append_assoc (pass k handle desc status i).0 (passed k handle desc status a)
        (passed k handle desc status b)))

fresh-passed :
    (k : Codes) (handle desc : ℕ) (status : ℤ) (region : Option Region) (ptr id : ℕ)
    (r r' : Runtime) (issued : List Issue)
    → handle ≢ 0
    → FreshOutcome region ptr r r' issued (ok (some id))
    → (c : CCall) × (buf : ℕ) × (len : ℕ) × (passed k handle desc status issued ≡ c ∷ [])
      × (call_place c ≡ some (buf, len, ptr))
      × Fits region (r'.objects id) buf len
unfolding passed
fresh-passed k handle desc status region ptr id r r' issued h f =
    let (i, buf, len, one, place, fits) = f.3 in
    let (c, e, same) = pass-place k handle desc status i h in
    (c, buf, len, rw (one, e) refl, same ∙ place, fits)

-- A post of any of the six operations that gives a context, of a request without a context of its own, on
-- an open endpoint, where the new context gets a pointer that is not registered. The calls of the post that
-- reach the C library, the refused ones included, are at most one fi_inject, which the C library refused, and
-- behind it exactly one call with the pointer that finds the given context, and with memory in the region
-- or in the context's own buffer, long enough for its length, unless this length is 0.
pub post_passed :
    (local : ℕ) (e : Endpoint) (q : Request) (ans : Answers) (r : Runtime) (k : Codes) (desc : ℕ)
    (status : ℤ) (id : ℕ)
    → context_of q ≡ none
    → lookup ans.new_context r.registry ≡ none
    → e.handle ≢ 0
    → (post local e q ans r).result ≡ ok (some id)
    → (lookup ans.new_context (post local e q ans r).runtime.registry ≡ some id)
      × ((first : List CCall) × (c : CCall) × (buf : ℕ) × (len : ℕ) × (passed k e.handle desc status
              (tried e q ans ++ (post local e q ans r).issued)
            ≡ first ++ c ∷ [])
          × AtMostInject first
          × (call_place c ≡ some (buf, len, ans.new_context))
          × Fits (region_of q) ((post local e q ans r).runtime.objects id) buf len)
post_passed local e q ans r k desc status id n f h w =
    let p = post local e q ans r in
    let fresh : FreshOutcome (region_of q) ans.new_context r p.runtime p.issued (ok (some id)) =
      rw w at (post-FreshOutcome local e q ans r n f) in
    let (c, buf, len, one, place, fits) =
      fresh-passed k e.handle desc status (region_of q) ans.new_context id r p.runtime p.issued h
        fresh in
    let first = passed k e.handle desc status (tried e q ans) in
    (
      fresh.0,
      (
        first,
        c,
        buf,
        len,
        passed-append k e.handle desc status (tried e q ans) p.issued
            ∙ ap (λ more. first ++ more) one,
        tried-AtMostInject k e.handle desc status e q ans h,
        place,
        fits,
      ),
    )
