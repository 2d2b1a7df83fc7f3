-- ===== src/Fi/Post/Fresh.antt =====
-- fi/messaging.go, fi/tagged.go, fi/rma.go: posts of requests that bring no context of their own.
use libfabric_go.Base.{
  ℕ, suc, ◌≡◌, ◌≢◌, refl, false, Option, none, some, List, [], ◌∷◌, ◌==◌, lookup, lookup-insert,
  lookup-delete, arith, Bool-cases, inl, inr, ◌⊎◌, insert, ==_refl, ap,
}
use libfabric_go.Capi.Errors.{message, GoError, Sentinel, sentinel, invalid_handle, Result, ok, err}
use libfabric_go.Fi.Context.{
  Context, Runtime, new_completion_context, fresh_context, update, is_released,
}
use libfabric_go.Fi.Post.{Endpoint, Answers, Issue, injected, refused, ensure_context}
use libfabric_go.Fi.Memory.{Region}
use libfabric_go.Fi.Context.Effects.{Slice}
use libfabric_go.Fi.Post.Message.{post_send, post_recv}
use libfabric_go.Fi.Post.Tagged.{post_tagged_send, post_tagged_recv}
use libfabric_go.Fi.Post.Rma.{post_read, post_write}
use libfabric_go.Fi.Post.Staging.{Fits, issue_place, Dropped, PostOutcome}
use libfabric_go.Fi.Post.Requests.{
  post_on_err, Request, send, recv, tagged_send, tagged_recv, read, write, context_of, region_of,
  post, post_on, post_on-PostSpec,
}

-- A post is refused at once, or goes on with its context.
post-cases :
    (local : ℕ) (e : Endpoint) (q : Request) (ans : Answers) (r : Runtime)
    → ((x : GoError) × (post local e q ans r ≡ refused r x))
      ⊎ (post local e q ans r
          ≡ post_on local e q ans (ensure_context (context_of q) ans.new_context r))
unfolding post post_send post_recv post_tagged_send post_tagged_recv post_read post_write
post-cases local e (send q) ans r = elim (Bool-cases (e.handle == 0)) [
  | inl h ↦ inl (invalid_handle "endpoint", rw (h, post_send))
  | inr h ↦ inr (rw (h, post_send))
]
post-cases local e (recv q) ans r = elim (Bool-cases (e.handle == 0)) [
  | inl h ↦ inl (invalid_handle "endpoint", rw (h, post_recv))
  | inr h ↦ inr (rw (h, post_recv))
]
post-cases local e (read q) ans r = elim (Bool-cases (e.handle == 0)) [
  | inl h ↦ inl (invalid_handle "endpoint", rw (h, post_read))
  | inr h ↦ inr (rw (h, post_read))
]
post-cases local e (write q) ans r = elim (Bool-cases (e.handle == 0)) [
  | inl h ↦ inl (invalid_handle "endpoint", rw (h, post_write))
  | inr h ↦ inr (rw (h, post_write))
]
post-cases local e (tagged_send q) ans r = elim (Bool-cases (e.handle == 0)) [
  | inl h ↦ inl (invalid_handle "endpoint", rw (h, post_tagged_send))
  | inr h ↦ elim (Bool-cases e.supports_tagged) [
    | inl t ↦ inr (simp (h, t, post_tagged_send))
    | inr t ↦ inl (sentinel Sentinel.capability_unsupported, simp (h, t, post_tagged_send))
  ]
]
post-cases local e (tagged_recv q) ans r = elim (Bool-cases (e.handle == 0)) [
  | inl h ↦ inl (invalid_handle "endpoint", rw (h, post_tagged_recv))
  | inr h ↦ elim (Bool-cases e.supports_tagged) [
    | inl t ↦ inr (simp (h, t, post_tagged_recv))
    | inr t ↦ inl (sentinel Sentinel.capability_unsupported, simp (h, t, post_tagged_recv))
  ]
]

-- What the pointers find is as it was.
abbrev pub SameRegistry : Runtime → Runtime → Type 0
SameRegistry r r' = (p : ℕ) → lookup p r'.registry ≡ lookup p r.registry

-- The outcome of a post without a context of its own, where `ptr` is the context pointer that the C
-- library would allocate.
abbrev pub FreshOutcome :
    Option Region → ℕ → Runtime → Runtime → List Issue → Result (Option ℕ) → Type 0
FreshOutcome region ptr r r' issued (ok (some id)) =
    (lookup ptr r'.registry ≡ some id)
    × ((j : ℕ) → j ≢ ptr → lookup j r'.registry ≡ lookup j r.registry)
    × ((r'.objects id).closed ≡ false)
    × ((i : Issue) × (buf : ℕ) × (len : ℕ) × (issued ≡ i ∷ [])
        × (issue_place i ≡ some (buf, len, ptr))
        × Fits region (r'.objects id) buf len)
FreshOutcome region ptr r r' issued (ok none) =
    SameRegistry r r' × ((s : Slice) × (d : ℕ) × (issued ≡ injected s d ∷ []))
FreshOutcome region ptr r r' issued (err e) = SameRegistry r r' × (issued ≡ [])

abbrev with_fresh : ℕ → Runtime → Runtime
with_fresh ptr r = record r {
  registry = insert ptr r.next r.registry;
  objects = update r.objects r.next (fresh_context ptr);
  next = suc r.next;
}

fresh_ptr : (ptr : ℕ) (r : Runtime) → ((with_fresh ptr r).objects r.next ≡ fresh_context ptr)
fresh_ptr ptr r = rw (==_refl r.next)

-- The context that has just been registered is gone again once it is dropped.
Dropped-SameRegistry :
    (ptr : ℕ) (r r' : Runtime)
    → lookup ptr r.registry ≡ none
    → Dropped (with_fresh ptr r) r' r.next
    → SameRegistry r r'
Dropped-SameRegistry ptr r r' f d p = ground (
  arith,
  d.0,
  fresh_ptr ptr r,
  lookup-delete ptr p (insert ptr r.next r.registry),
  lookup-insert ptr p r.next r.registry,
)

-- The general outcome, of the context that has just been registered under a pointer not in use.
Outcome-FreshOutcome :
    (region : Option Region) (ptr : ℕ) (r r' : Runtime) (issued : List Issue)
    (o : Result (Option ℕ))
    → lookup ptr r.registry ≡ none
    → PostOutcome region r.next (with_fresh ptr r) r' issued o
    → FreshOutcome region ptr r r' issued o
Outcome-FreshOutcome region ptr r r' issued (err e) f h = (Dropped-SameRegistry ptr r r' f h.0, h.1)
Outcome-FreshOutcome region ptr r r' issued (ok none) f h =
    (Dropped-SameRegistry ptr r r' f h.0, h.1)
Outcome-FreshOutcome region ptr r r' issued (ok (some id)) f h =
    let (i, buf, len, e, c, fits) = h.2 in
    (
      ground (arith, h.0, h.1.0, lookup-insert ptr ptr r.next r.registry),
      λ j n. ground (arith, h.1.0, lookup-insert ptr j r.next r.registry),
      rw (h.0) (h.1.2),
      (i, buf, len, e, rw (ap (λ (x : Context). x.ptr) (fresh_ptr ptr r)) at c, rw (h.0) fits),
    )

-- A request without a context of its own, posted where the C allocator returns no context pointer that
-- is in use; an operation is issued if the C library accepts it. On an error nothing is issued and the
-- registry finds what it found before. If the caller gets no context, exactly one operation is issued,
-- an injection, and the registry is as before. If the caller gets a context, it is open, the new
-- pointer finds it and all others find what they found before; exactly one operation is issued, with
-- that pointer, over memory in the context's buffer or in the region.
pub post-FreshOutcome :
    (local : ℕ) (e : Endpoint) (q : Request) (ans : Answers) (r : Runtime)
    → context_of q ≡ none
    → lookup ans.new_context r.registry ≡ none
    → let p = post local e q ans r in
      FreshOutcome (region_of q) ans.new_context r p.runtime p.issued p.result
unfolding ensure_context new_completion_context
post-FreshOutcome local e q ans r n f = elim (post-cases local e q ans r) [
  | inl (x, h) ↦ rw h ((λ p. refl), refl)
  | inr h ↦
      rw (h, n)
        (elim (Bool-cases (ans.new_context == 0)) [
          | inl z ↦
              rw (z, new_completion_context)
                (rw
                  (post_on_err local e q ans r
                    (message "libfabric: unable to allocate completion context"))
                  ((λ p. refl), refl))
          | inr z ↦
              rw (z, new_completion_context)
                (let p = post_on local e q ans (with_fresh ans.new_context r, ok r.next) in
                  Outcome-FreshOutcome (region_of q) ans.new_context r p.runtime p.issued p.result f
                    (post_on-PostSpec local e q ans r.next (with_fresh ans.new_context r)
                      (ap (λ (x : Context). x.closed) (fresh_ptr ans.new_context r))))
        ])
]

-- A request with an open context of the caller's is refused at once and changes nothing, or it is
-- posted: then on an error nothing is issued and that context is released, on an injected send it is
-- released, and else the caller gets it back open and one operation is issued, with its pointer, over
-- memory in the context's buffer or in the region.
pub post_supplied :
    (local : ℕ) (e : Endpoint) (q : Request) (ans : Answers) (r : Runtime) (id : ℕ)
    → context_of q ≡ some id
    → (r.objects id).closed ≡ false
    → ((x : GoError) × (post local e q ans r ≡ refused r x))
      ⊎ (let p = post local e q ans r in PostOutcome (region_of q) id r p.runtime p.issued p.result)
unfolding ensure_context is_released
post_supplied local e q ans r id n o = elim (post-cases local e q ans r) [
  | inl h ↦ inl h
  | inr h ↦ inr (rw (h, n, o) (post_on-PostSpec local e q ans id r o))
]
