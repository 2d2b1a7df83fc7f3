-- ===== src/Client/Setup/DialLeaks.antt =====
-- client/client.go, Dial and Close: what is open when they return.
use libfabric_go.Base.{
  ◌≡◌, refl, Bool, true, false, some, List, [], ◌∷◌, ◌++◌, map, arith, Bool-cases, ◌&&◌, not,
  str_eq, ◌||◌, inr, inl, Option-cases, if◌then◌else◌, ◌==◌, Option, ◌∙◌, ap, none,
}
use libfabric_go.Fi.Pool.{MrPool, new_mr_pool}
use libfabric_go.Fi.Memory.{requires_mr_mode}
use libfabric_go.Base.Int.{ltb_ℤ, pos}
use libfabric_go.Client.Setup.Dial.{
  dial_found, dial_defaults, select, dial, pool_size, pool_capacity, dial_selected,
}
use libfabric_go.Client.Setup.{
  remove, is_busy, deferred_close, fail, discover, Resource, fabric, domain, queue, endpoint,
  vector, discovery, Event, closed, Provider, live, open_fabric, open_domain, open_queue,
  open_endpoint, bind_queue, enable, GoError, return, Descriptor, open_vector, ℤ, bind_vector,
  Result, register_address, query_name, insert_service, wrapped, ok, Setup, err, ◌>>◌, same_type,
  rdm, live_from,
}
use libfabric_go.Client.Setup.Dial.{
  Client, close, dial_endpoint, dial_vector, dial_peer, with_pool, Config, abandon, dial_pool,
  dialed,
}
use libfabric_go.Client.Setup.Leaks.{
  Spec, Open, calls-Spec, then_opens, then_calls, live-append, >>=-Spec, Ensures,
}

-- What a dialed client owns, newest first, over the discovery that `Dial` holds.
abbrev pub owned : Bool → List Resource → List Resource
owned true rest = vector ∷ endpoint ∷ queue ∷ domain ∷ fabric ∷ rest
owned false rest = endpoint ∷ queue ∷ domain ∷ fabric ∷ rest

record IsDialed (b : Bool) (c : Client) : Type 0 where
  vector_here : c.has_vector ≡ b
  alive : c.shut ≡ false
  fabric_owner : c.own_fabric ≡ true
  domain_owner : c.own_domain ≡ true
  endpoint_owner : c.own_endpoint ≡ true
  queue_owner : c.own_completion ≡ true
  no_event_queue : c.has_event_queue ≡ false

close-events :
    (b : Bool) (c : Client) (log : List Event)
    → IsDialed b c
    → (close c log).1 ≡ log ++ map closed (owned c.has_vector [])
unfolding close
close-events b c log d = ground arith

abbrev base : List Resource
base = discovery ∷ []

-- While `Dial` still holds the discovery, and behind it.
abbrev rest_of : Bool → List Resource
rest_of held = if held then base else []

closes-owned :
    (b held : Bool)
    → live_from (not b) (some (owned b (rest_of held))) (map closed (owned b []))
      ≡ some (rest_of held)
closes-owned true true = refl
closes-owned true false = refl
closes-owned false true = refl
closes-owned false false = refl

-- Without a vector no Close comes too early; with one, its own does.
closes-strict :
    (b : Bool)
    → live_from true (some (owned b [])) (map closed (owned b [])) ≡ (if b then none else some [])
closes-strict true = refl
closes-strict false = refl

close-strict :
    (b : Bool) (c : Client)
    → IsDialed b c
    → live_from true (some (owned b [])) (close c []).1 ≡ (if b then none else some [])
close-strict b c d = rw (close-events b c [] d, d.vector_here) (closes-strict b)

live-close :
    (b held : Bool) (c : Client) (log : List Event)
    → IsDialed b c
    → live (not b) log ≡ some (owned b (rest_of held))
    → live (not b) (close c log).1 ≡ some (rest_of held)
live-close b held c log d h =
    rw (close-events b c log d, d.vector_here)
      (live-append (not b) log (map closed (owned b [])) (owned b (rest_of held)) h
        ∙ closes-owned b held)

dial_endpoint-Spec :
    (b : Bool) (p : Provider)
    → Spec (not b) (Open (not b) base) base (λ u. Open (not b) (owned false base)) (dial_endpoint p)
unfolding dial_endpoint
dial_endpoint-Spec b p = then_opens (not b) p open_fabric fabric [] _ _ _ _ _ refl (
    then_opens (not b) p open_domain domain _ _ _ _ _ _ refl (
      then_opens (not b) p open_queue queue _ _ _ _ _ _ refl (
        then_opens (not b) p open_endpoint endpoint _ _ _ _ _ _ refl (
          then_calls (not b) p bind_queue _ _ _ _ _ _ refl
            (calls-Spec (not b) p enable _ _ _ _ refl)))))

dial_vector-Spec :
    (p : Provider)
    → Spec false
        (Open false (owned false base))
        base
        (λ u. Open false (owned true base))
        (dial_vector p)
unfolding dial_vector
dial_vector-Spec p = then_opens false p open_vector vector _ _ _ _ _ _ refl (
    then_calls false p bind_vector _ _ _ _ _ _ refl (
      then_calls false p register_address _ _ _ _ _ _ refl
        (calls-Spec false p query_name _ _ _ _ refl)))

-- Behind the construction of a client: it owns what is open, over what `rest` holds.
abbrev Owns : Bool → List Resource → Client → List Event → Type 0
Owns b rest c log = IsDialed b c × (live (not b) log ≡ some (owned b rest))

abandon-Spec :
    {A : Type 0} (b : Bool) (c : Client) (e : GoError) (after : A → List Event → Type 0)
    → IsDialed b c
    → Spec (not b) (Open (not b) (owned b base)) base after (abandon c e)
abandon-Spec b c e after d = record {
  holds = unfold abandon in λ log h. live-close b true c log d h;
}

return-Spec :
    (b : Bool) (c : Client)
    → IsDialed b c
    → Spec (not b) (Open (not b) (owned b base)) base (Owns b base) (return c)
return-Spec b c d = record { holds = unfold return in λ log h. (d, h) }

dial_peer-Spec :
    (b : Bool) (p : Provider) (c : Client)
    → IsDialed b c
    → Spec (not b) (Open (not b) (owned b base)) base (Owns b base) (dial_peer p c)
unfolding dial_peer
dial_peer-Spec b p c d =
    elim (Bool-cases
      (c.has_vector && (not (str_eq c.cfg.node "") || not (str_eq c.cfg.service "")))) [
        | inr e ↦ rw (e, dial_peer) (return-Spec b c d)
        | inl e ↦ elim (Option-cases (p.refuses insert_service)) [
          | inl o ↦
              rw (e, o, dial_peer)
                (return-Spec b (record c { peer_addr = p.service_address; peer_configured = true })
                  (ground arith))
          | inr (x, o) ↦
              rw (e, o, dial_peer)
                (abandon-Spec b c (wrapped "register peer service" x) (Owns b base) d)
        ]
      ]

with_pool-Spec :
    (b : Bool) (c : Client) (size capacity : ℤ) (r : Result MrPool)
    → IsDialed b c
    → Spec (not b) (Open (not b) (owned b base)) base (Owns b base) (with_pool c size capacity r)
unfolding with_pool
with_pool-Spec b c size capacity (ok pool) d =
    return-Spec b
      (record c {
        cfg = record c.cfg { mr_pool_size = size; mr_pool_capacity = capacity };
        pool = some pool;
      })
      (ground arith)
with_pool-Spec b c size capacity (err e) d =
    abandon-Spec b c (wrapped "create MR pool" e) (Owns b base) d

-- The ownership that a step starts from, as a hypothesis of its proof.
Owns-Spec :
    {A : Type 0} (b : Bool) (c : Client) (after : A → List Event → Type 0) (m : Setup A)
    → (IsDialed b c → Spec (not b) (Open (not b) (owned b base)) base after m)
    → Spec (not b) (Owns b base c) base after m
Owns-Spec b c after m k = record { holds = λ log h. (k h.0).holds log h.1 }

dial_pool-Spec :
    (b : Bool) (p : Provider) (info : Descriptor) (c : Client)
    → Spec (not b) (Owns b base c) base (Owns b base) (dial_pool p info c)
unfolding dial_pool
dial_pool-Spec b p info c = Owns-Spec b c (Owns b base) (dial_pool p info c) λ d.
    let needs = requires_mr_mode p.opened_domain p.mr_local in
    let access = if c.cfg.mr_pool_access == 0 then p.mr_local else c.cfg.mr_pool_access in
    let size = pool_size c.cfg needs info in
    let capacity = pool_capacity c.cfg needs in
    let c' : Client = record c { requires_mr = needs; mr_access = access } in
    let d' : IsDialed b c' = ground arith in
    elim (Bool-cases (ltb_ℤ (pos 0) size)) [
      | inl e ↦
          rw (e, dial_pool)
            (with_pool-Spec b c' size capacity (new_mr_pool p.opened_domain size access capacity)
              d')
      | inr e ↦ rw (e, dial_pool) (return-Spec b c' d')
    ]

dialed-IsDialed :
    (p : Provider) (cfg : Config) → IsDialed (same_type cfg.endpoint_type rdm) (dialed p cfg)
dialed-IsDialed p cfg = ground arith

-- The address vector is opened for RDM alone, as the client then has it.
dial_rdm-Spec :
    (p : Provider) (b : Bool)
    → Spec
        (not b)
        (Open (not b) (owned false base))
        base
        (λ u. Open (not b) (owned b base))
        (if b then dial_vector p else return tt)
dial_rdm-Spec p true = dial_vector-Spec p
dial_rdm-Spec p false = record { holds = unfold return in λ log h. h }

abbrev is_rdm : Config → Bool
is_rdm cfg = same_type cfg.endpoint_type rdm

dial_selected-Spec :
    (p : Provider) (cfg : Config) (info : Descriptor)
    → let b = is_rdm cfg in
      Spec (not b) (Open (not b) base) base (Owns b base) (dial_selected p cfg info)
unfolding dial_selected ◌>>◌
dial_selected-Spec p cfg info =
    let b = is_rdm cfg in
    >>=-Spec (not b) _ _ _ base (λ u. Open (not b) (owned false base)) _ (dial_endpoint-Spec b p)
      λ u.
        >>=-Spec (not b) _ _ _ base (λ v. Open (not b) (owned b base)) _ (dial_rdm-Spec p b)
          λ v.
            >>=-Spec (not b) _ _ _ base (Owns b base) _
              (dial_peer-Spec b p (dialed p cfg) (dialed-IsDialed p cfg)) (dial_pool-Spec b p info)

selected-Spec :
    (p : Provider) (cfg : Config) (o : Option Descriptor)
    → let b = is_rdm cfg in Spec (not b) (Open (not b) base) base (Owns b base) (dial_found p cfg o)
unfolding dial_found
selected-Spec p cfg none = record { holds = unfold fail in λ log h. h }
selected-Spec p cfg (some info) = dial_selected-Spec p cfg info

-- Behind the Close of the discovery, nothing but the client's resources is left.
remove_discovery :
    (b : Bool)
    → (if is_busy discovery (owned b base) && not b then none else remove discovery (owned b base))
      ≡ some (owned b [])
remove_discovery true = refl
remove_discovery false = refl

closing_discovery :
    (b : Bool) (o : List Event × Result Client)
    → Ensures (not b) base (Owns b base) o
    → Ensures (not b) [] (Owns b []) (o.0 ++ closed discovery ∷ [], o.1)
closing_discovery b (log, ok c) (d, h) = (
  d,
  live-append (not b) log (closed discovery ∷ []) (owned b base) h
      ∙ ap (λ s. live_from (not b) s []) (remove_discovery b),
)
closing_discovery b (log, err e) h = live-append (not b) log (closed discovery ∷ []) base h

dial-Spec :
    (p : Provider) (config : Config)
    → let b = is_rdm (dial_defaults config) in
      Spec (not b) (Open (not b) []) [] (Owns b []) (dial p config)
unfolding dial
dial-Spec p config =
    let cfg = dial_defaults config in
    let b = is_rdm cfg in
    then_opens (not b) p discover discovery [] "discover descriptors" _ _ _ _ refl (record {
      holds =
          unfold deferred_close in
          λ log h.
            closing_discovery b (dial_found p cfg (select cfg.endpoint_type p.found) log)
              ((selected-Spec p cfg (select cfg.endpoint_type p.found)).holds log h);
    })

-- What `Dial` leaves, what a `Close` of its client leaves, and a second one; strict without a vector.
abbrev pub DialOutcome : Bool → List Event × Result Client → Type 0
DialOutcome b (log, err e) = live (not b) log ≡ some []
DialOutcome b (log, ok c) =
    (c.has_vector ≡ b)
    × (live (not b) log ≡ some (owned b []))
    × (live (not b) (close c log).1 ≡ some [])
    × (live_from true (some (owned b [])) (close c []).1 ≡ (if b then none else some []))
    × (close (close c log).0 (close c log).1 ≡ close c log)

close_twice : (c : Client) (log : List Event) → close (close c log).0 (close c log).1 ≡ close c log
unfolding close
close_twice c log = ground arith

-- Whatever the C library answers to the calls that open and bind, and whatever the configuration:
-- after an error of `Dial`, Close has been called once on every resource that it opened, and on
-- nothing else. After a success these are all but the client's fabric, domain, queue, endpoint and,
-- for an RDM endpoint alone, address vector; `Close` calls Close once on each of those, and a second
-- `Close` calls nothing. Unless the endpoint is RDM, each of these calls comes when no resource rests
-- on the one to close, so that none is refused as busy; if it is RDM, `Close` calls Close on a
-- resource while another still rests on it.
pub dial-DialOutcome :
    (p : Provider) (config : Config)
    → DialOutcome (same_type (dial_defaults config).endpoint_type rdm) (dial p config [])
dial-DialOutcome p config =
    go (is_rdm (dial_defaults config)) (dial p config []) ((dial-Spec p config).holds [] refl)
  where
    go :
        (b : Bool) (o : List Event × Result Client)
        → Ensures (not b) [] (Owns b []) o
        → DialOutcome b o
    go b (log, err e) h = h
    go b (log, ok c) (d, h) =
        (d.vector_here, h, live-close b false c log d h, close-strict b c d, close_twice c log)
