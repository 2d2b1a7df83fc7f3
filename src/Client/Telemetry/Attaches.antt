-- ===== src/Client/Telemetry/Attaches.antt =====
-- client/client.go: what sendAsync and ReceiveAsync keep of the operations that contexts carry.
use libfabric_go.Base.{
  ℕ, ◌<◌, ◌≡◌, ◌≢◌, false, some, List, arith, ◌==◌, Bool-cases, inl, inr, ◌⊎◌, lookup, sym, ◌∙◌,
  ==_refl,
}
use libfabric_go.Fi.Context.{Runtime, set_value}
use libfabric_go.Fi.Context.Registry.{Inv}
use libfabric_go.Fi.Post.Fresh.{SameRegistry}
use libfabric_go.Fi.Post.Values.{Keeps}
use libfabric_go.Client.Operation.{Operation, Notice}
use libfabric_go.Client.Dispatch.{update}
use libfabric_go.Client.Session.{Session}
use libfabric_go.Client.Session.Ledger.{Carried}
use libfabric_go.Client.Telemetry.Attached.{Attached}

kept_value :
    (r r' : Runtime) (id n : ℕ)
    → Keeps r r'
    → (r'.objects id).value ≡ some n
    → (r.objects id).value ≡ some n
kept_value r r' id n k v = elim (k id) [ inl e ↦ sym e ∙ v | inr e ↦ absurd (ground (arith, e, v)) ]

-- No operation has been attached.
pub kept-Attached :
    (s s' : Session)
    → Carried s.state.runtime s.made
    → Keeps s.state.runtime s'.state.runtime
    → SameRegistry s.state.runtime s'.state.runtime
    → ((n : ℕ) → n < s.made → (s'.state.operations n).0.fired ≡ (s.state.operations n).0.fired)
    → Attached s
    → Attached s'
kept-Attached s s' c k same ops v = record {
  waits = λ p id n l w.
      let w' = kept_value s.state.runtime s'.state.runtime id n k w in
      ops n (c id n w') ∙ v.waits p id n (sym (same p) ∙ l) w';
  own = λ p q i j n l lq w wq.
      v.own p q i j n (sym (same p) ∙ l) (sym (same q) ∙ lq)
        (kept_value s.state.runtime s'.state.runtime i n k w)
        (kept_value s.state.runtime s'.state.runtime j n k wq);
}

-- What a registered context carries behind a SetValue on the context of `ptr`.
carries :
    (made : ℕ) (r p : Runtime) (ptr id q j n : ℕ)
    → Carried r made
    → Keeps r p
    → Inv p
    → lookup ptr p.registry ≡ some id
    → ((i : ℕ) → i ≢ ptr → lookup i p.registry ≡ lookup i r.registry)
    → lookup q (set_value id made p).registry ≡ some j
    → ((set_value id made p).objects j).value ≡ some n
    → ((q ≡ ptr) × (n ≡ made))
      ⊎ ((lookup q r.registry ≡ some j) × ((r.objects j).value ≡ some n) × (n < made))
unfolding set_value
carries made r p ptr id q j n c k v l others lq w = elim (Bool-cases (q == ptr)) [
  | inl e ↦ inl (ground (arith, e), ground (arith, e, l, lq, w))
  | inr e ↦
      let ne : q ≢ ptr = ground (arith, e) in
      let apart : id ≢ j =
        λ same. ne (ground (arith, v.registered ptr id l, v.registered q j lq, same)) in
      let w' : (p.objects j).value ≡ some n = ground (arith, apart, w) in
      let old = kept_value r p j n k w' in inr (sym (others q ne) ∙ lq, old, c j n old)
]

pub joined-Attached :
    (s s' : Session) (p : Runtime) (ptr id : ℕ) (o : Operation × List Notice)
    → Carried s.state.runtime s.made
    → Keeps s.state.runtime p
    → Inv p
    → lookup ptr p.registry ≡ some id
    → ((i : ℕ) → i ≢ ptr → lookup i p.registry ≡ lookup i s.state.runtime.registry)
    → o.0.fired ≡ false
    → s'.state.runtime ≡ set_value id s.made p
    → s'.state.operations ≡ update s.state.operations s.made o
    → Attached s
    → Attached s'
joined-Attached s s' p ptr id o c k i l others f e g v =
    let held =
      λ (q j n : ℕ) (lq : lookup q s'.state.runtime.registry ≡ some j)
          (w : (s'.state.runtime.objects j).value ≡ some n).
        carries s.made s.state.runtime p ptr id q j n c k i l others (rw (← e) lq) (rw (← e) w) in
    record {
      waits = λ q j n lq w. elim (held q j n lq w) [
        | inl (a, b) ↦ rw (g, b, ==_refl s.made) f
        | inr (a, b, h) ↦
            let other : (s.made == n) ≡ false = ground (arith, h) in
            rw (g, other) (v.waits q j n a b)
      ];
      own = λ q q' j j' n lq lq' w w'. elim (held q j n lq w) [
        | inl (a, b) ↦ elim (held q' j' n lq' w') [
          | inl (a', b') ↦ a ∙ sym a'
          | inr (a', b', h') ↦ absurd (omega (arith, b, h'))
        ]
        | inr (a, b, h) ↦ elim (held q' j' n lq' w') [
          | inl (a', b') ↦ absurd (omega (arith, b', h))
          | inr (a', b', h') ↦ v.own q q' j j' n a a' b b'
        ]
      ];
    }
