-- ===== src/Client/Setup/ConnectLeaks.antt =====
-- client/connect.go: what is open when Connect returns, and when the client that it gave is closed.
use libfabric_go.Base.{
  refl, List, [], ◌∷◌, Bool, true, arith, Bool-cases, ◌≡◌, str_eq, false, inl, ◌++◌, inr, map, some,
}
use libfabric_go.Client.Setup.{
  Resource, Provider, Descriptor, fail, fabric, domain, queue, event_queue, endpoint, discovery,
  discover, open_fabric, open_domain, open_queue, open_event_queue, open_endpoint, bind_queue,
  bind_event_queue, enable, connects, handshake, Event, Result, err, live, ok, closed,
}
use libfabric_go.Client.Setup.Dial.{Config, close, Client}
use libfabric_go.Client.Setup.Connect.{
  connect_resources, connect_found, connect_to, connected, connect, connect_defaults,
}
use libfabric_go.Client.Setup.Leaks.{
  Spec, Open, then_opens, then_calls, settles-Spec, then_return, deferred_close-Spec, Ensures,
  live-append,
}

abbrev pub held : List Resource
held = discovery ∷ []

abbrev pub client_resources : List Resource → List Resource
client_resources rest = endpoint ∷ event_queue ∷ queue ∷ domain ∷ fabric ∷ rest

connect_resources-Spec :
    (p : Provider)
    → Spec true (Open true held) held (λ u. Open true (client_resources held)) (connect_resources p)
unfolding connect_resources
connect_resources-Spec p = then_opens true p open_fabric fabric [] _ _ _ _ _ refl (
    then_opens true p open_domain domain _ _ _ _ _ _ refl (
      then_opens true p open_queue queue _ _ _ _ _ _ refl (
        then_opens true p open_event_queue event_queue _ _ _ _ _ _ refl (
          then_opens true p open_endpoint endpoint _ _ _ _ _ _ refl (
            then_calls true p bind_queue _ _ _ _ _ _ refl (
              then_calls true p bind_event_queue _ _ _ _ _ _ refl (
                then_calls true p enable _ _ _ _ _ _ refl (
                  then_calls true p connects _ _ _ _ _ _ refl
                    (settles-Spec true p handshake _ _ _ refl)))))))))

-- A client that owns all it uses, and one that leaves the fabric and the domain to its listener.
pub record IsConnected (owner : Bool) (c : Client) : Type 0 where
  pub alive : c.shut ≡ false
  pub no_vector : c.has_vector ≡ false
  pub event_queue_here : c.has_event_queue ≡ true
  pub event_queue_owner : c.own_event_queue ≡ true
  pub endpoint_owner : c.own_endpoint ≡ true
  pub queue_owner : c.own_completion ≡ true
  pub domain_owner : c.own_domain ≡ owner
  pub fabric_owner : c.own_fabric ≡ owner

connect_found-Spec :
    (p : Provider) (cfg : Config) (ds : List Descriptor)
    → Spec true
        (Open true held)
        held
        (λ c log. IsConnected true c × Open true (client_resources held) log)
        (connect_found p cfg ds)
unfolding connect_found
connect_found-Spec p cfg [] = record { holds = unfold fail in λ log h. h }
connect_found-Spec p cfg (d ∷ ds) =
    then_return true (connect_resources p) (connected p cfg) _ _ _ (IsConnected true) (ground arith)
      (connect_resources-Spec p)

connect_to-Spec :
    (p : Provider) (cfg : Config)
    → Spec true
        (Open true [])
        []
        (λ c log. IsConnected true c × Open true (client_resources []) log)
        (connect_to p cfg)
unfolding connect_to
connect_to-Spec p cfg =
    then_opens true p discover discovery [] "discover descriptors" _ _ _ _ refl (
      deferred_close-Spec true discovery (connect_found p cfg p.found) held (client_resources held)
        [] (client_resources []) (IsConnected true) refl (connect_found-Spec p cfg p.found) refl)

connect-Spec :
    (p : Provider) (cfg : Config)
    → Spec true
        (Open true [])
        []
        (λ c log. IsConnected true c × Open true (client_resources []) log)
        (connect p cfg)
unfolding connect
connect-Spec p cfg = elim (Bool-cases (str_eq cfg.service "")) [
  | inl e ↦ rw (e, connect) (record { holds = unfold fail in λ log h. h })
  | inr e ↦ rw (e, connect) (connect_to-Spec p (connect_defaults cfg))
]

close_connected-events :
    (c : Client) (log : List Event)
    → IsConnected true c
    → (close c log).1 ≡ log ++ map closed (endpoint ∷ queue ∷ event_queue ∷ domain ∷ fabric ∷ [])
unfolding close
close_connected-events c log d = ground arith

-- What is open behind `Connect`, and behind the `Close` of its client.
abbrev pub ConnectOutcome : List Event × Result Client → Type 0
ConnectOutcome (log, err e) = live true log ≡ some []
ConnectOutcome (log, ok c) =
    (live true log ≡ some (client_resources [])) × (live true (close c log).1 ≡ some [])

-- Whatever the C library answers and whatever the configuration: after an error of `Connect` every
-- resource that it opened has been closed, once. After a success exactly the client's endpoint, event
-- queue, completion queue, domain and fabric are open, and `Close` closes each of them once. Every close
-- comes when no open resource rests on the one to close, so that none is refused as busy.
pub connect-ConnectOutcome : (p : Provider) (cfg : Config) → ConnectOutcome (connect p cfg [])
connect-ConnectOutcome p cfg = go (connect p cfg []) ((connect-Spec p cfg).holds [] refl)
  where
    go :
        (o : List Event × Result Client)
        → Ensures true [] (λ c log. IsConnected true c × Open true (client_resources []) log) o
        → ConnectOutcome o
    go (log, err e) h = h
    go (log, ok c) (d, h) =
        (h, rw (close_connected-events c log d) (live-append true log _ (client_resources []) h))
