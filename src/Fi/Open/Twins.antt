-- ===== src/Fi/Open/Twins.antt =====
-- fi/endpoint.go and fi/tagged.go: what an endpoint keeps of the descriptor that it was opened from.
use libfabric_go.Fi.Context.{Runtime}
use libfabric_go.Fi.Post.Tagged.{
  post_tagged_send, post_tagged_recv, TaggedSendRequest, TaggedRecvRequest,
}
use libfabric_go.Fi.Post.Message.{may_inject, SendRequest}
use libfabric_go.Capi.Info.Read.{caps_of}
use libfabric_go.Capi.Errors.{ok, Result, err, sentinel, Sentinel}
use libfabric_go.Fi.Post.{Endpoint, Answers, refused}
use libfabric_go.Capi.Info.{Libfabric, Heap}
use libfabric_go.Capi.Handle.{Codes, open_endpoint}
use libfabric_go.Fi.Open.{
  open_endpoint_with_info, open_descriptor_endpoint, Codes, descriptor_supports_tagged, Caps,
  Libfabric, ℤ, Endpoint, ok, inject_size, with_handle, has_bit, caps_of,
}
use libfabric_go.Base.{
  ◌≡◌, ◌≢◌, refl, Option, ℕ, some, none, arith, false, sym, ◌≤◌, ap, ◌∙◌, leb, ◌⊎◌, inl, inr,
  Bool-cases, true,
}

opened_twins :
    (k : Codes) (caps : Caps) (c : Libfabric) (domain : Option ℕ) (entry : ℕ) (h : Heap)
    (status : ℤ) (out : ℕ)
    → open_endpoint_with_info k caps c domain entry h status out
      ≡ open_descriptor_endpoint k caps domain entry h status out
unfolding open_endpoint_with_info open_descriptor_endpoint
opened_twins k caps c none entry h status out = refl
opened_twins k caps c (some domain) entry h status out = refl

-- A result with a handle inside has one.
with_handle-ok :
    {A : Type 0} (f : ℕ → A) (o : Result ℕ) (a : A)
    → with_handle f o ≡ ok a
    → (out : ℕ) × (f out ≡ a)
with_handle-ok f (ok out) a w = (out, ground (arith, w))
with_handle-ok f (err x) a w = absurd (ground (arith, w))

-- What an opened endpoint has of its entry.
opened_fields :
    (k : Codes) (caps : Caps) (domain : Option ℕ) (entry : ℕ) (h : Heap) (status : ℤ) (out : ℕ)
    (e : Endpoint)
    → open_descriptor_endpoint k caps domain entry h status out ≡ ok e
    → (e.inject_limit ≡ inject_size (h entry))
      × (e.supports_tagged ≡ descriptor_supports_tagged caps (h entry))
unfolding open_descriptor_endpoint descriptor_supports_tagged
opened_fields k caps none entry h status out e w = absurd (ground (arith, w))
opened_fields k caps (some domain) entry h status out e w =
    let (ep, same) =
      with_handle-ok
        (λ ep. record {
          handle = ep;
          inject_limit = inject_size (h entry);
          supports_tagged = has_bit (caps_of (h entry)) caps.tagged;
        })
        (open_endpoint k domain entry status out) e w in
    (
      sym (ap (λ (x : Endpoint). x.inject_limit) same),
      sym (ap (λ (x : Endpoint). x.supports_tagged) same),
    )

inject_cases :
    (e : Endpoint) (q : SendRequest) → (q.buffer.len ≤ e.inject_limit) ⊎ (may_inject e q ≡ false)
unfolding may_inject
inject_cases e q = elim (Bool-cases (leb q.buffer.len e.inject_limit)) [
  | inl h ↦ inl (ground (arith, h))
  | inr h ↦ inr (ground (arith, h))
]

untagged_send :
    (e : Endpoint) (q : Option TaggedSendRequest) (ans : Answers) (r : Runtime)
    → e.handle ≢ 0
    → e.supports_tagged ≡ false
    → post_tagged_send e q ans r ≡ refused r (sentinel Sentinel.capability_unsupported)
unfolding post_tagged_send
untagged_send e q ans r n h = ground (arith, n, h)

untagged_recv :
    (e : Endpoint) (q : Option TaggedRecvRequest) (ans : Answers) (r : Runtime)
    → e.handle ≢ 0
    → e.supports_tagged ≡ false
    → post_tagged_recv e q ans r ≡ refused r (sentinel Sentinel.capability_unsupported)
unfolding post_tagged_recv
untagged_recv e q ans r n h = ground (arith, n, h)

-- An endpoint with a handle that OpenEndpointWithInfo opens for an entry: OpenEndpoint gives the same endpoint
-- for the same answers. Unless the entry's capabilities have the bit for tagged messages, both tagged posts
-- on the endpoint are refused as unsupported and touch no context; and unless a send is at most as long as the
-- entry's inject size, it is not injected.
pub opened_endpoint :
    (k : Codes) (caps : Caps) (c : Libfabric) (domain : Option ℕ) (entry : ℕ) (h : Heap)
    (status : ℤ) (out : ℕ) (e : Endpoint) (q : Option TaggedSendRequest)
    (p : Option TaggedRecvRequest) (s : SendRequest) (ans : Answers) (r : Runtime)
    → open_endpoint_with_info k caps c domain entry h status out ≡ ok e
    → e.handle ≢ 0
    → (open_descriptor_endpoint k caps domain entry h status out ≡ ok e)
      × ((descriptor_supports_tagged caps (h entry) ≡ true)
          ⊎ ((post_tagged_send e q ans r ≡ refused r (sentinel Sentinel.capability_unsupported))
              × (post_tagged_recv e p ans r
                  ≡ refused r (sentinel Sentinel.capability_unsupported))))
      × ((s.buffer.len ≤ inject_size (h entry)) ⊎ (may_inject e s ≡ false))
opened_endpoint k caps c domain entry h status out e q p s ans r w n =
    let w' = sym (opened_twins k caps c domain entry h status out) ∙ w in
    let (limit, tags) = opened_fields k caps domain entry h status out e w' in
    (
      w',
      elim (Bool-cases (descriptor_supports_tagged caps (h entry))) [
        | inl has ↦ inl has
        | inr lacks ↦
            inr (untagged_send e q ans r n (tags ∙ lacks), untagged_recv e p ans r n (tags ∙ lacks))
      ],
      elim (inject_cases e s) [ inl short ↦ inl (rw limit at short) | inr refuses ↦ inr refuses ],
    )
