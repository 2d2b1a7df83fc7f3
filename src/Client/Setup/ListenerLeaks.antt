-- ===== src/Client/Setup/ListenerLeaks.antt =====
-- client/listener.go: the resources behind Listen and the handling of a connection request, and behind the
-- Close of what they gave.
use libfabric_go.Base.{
  refl, List, [], ◌∷◌, arith, Bool-cases, ◌≡◌, str_eq, false, inl, ◌++◌, inr, map, some, true,
}
use libfabric_go.Client.Setup.{
  Resource, Provider, Descriptor, fail, fabric, domain, queue, event_queue, endpoint, discovery,
  discover, open_fabric, open_domain, open_queue, open_event_queue, open_endpoint, bind_queue,
  bind_event_queue, enable, handshake, Event, passive, listen, request, Result, listen_queue, err,
  live, live_from, ok, closed,
}
use libfabric_go.Client.Setup.Dial.{close, Client}
use libfabric_go.Client.Setup.Leaks.{
  Spec, Open, then_opens, then_calls, settles-Spec, then_return, deferred_close-Spec, Ensures,
  live-append,
}
use libfabric_go.Client.Setup.{bind_passive, open_passive, accepts, return, ◌>>◌}
use libfabric_go.Client.Setup.Leaks.{calls-Spec}
use libfabric_go.Client.Setup.Listener.{
  Listener, ListenerConfig, listen_resources, listen_found, listen_on, listener, accept_resources,
  handle_conn_req, accepted, close_listener,
}
use libfabric_go.Client.Setup.ConnectLeaks.{held, IsConnected}

abbrev pub listener_resources : List Resource → List Resource
listener_resources rest = passive ∷ listen_queue ∷ domain ∷ fabric ∷ rest

listen_resources-Spec :
    (p : Provider)
    → Spec true
        (Open true held)
        held
        (λ u. Open true (listener_resources held))
        (listen_resources p)
unfolding listen_resources
listen_resources-Spec p = then_opens true p open_fabric fabric [] _ _ _ _ _ refl (
    then_opens true p open_domain domain _ _ _ _ _ _ refl (
      then_opens true p open_event_queue listen_queue _ _ _ _ _ _ refl (
        then_opens true p open_passive passive _ _ _ _ _ _ refl (
          then_calls true p bind_passive _ _ _ _ _ _ refl
            (calls-Spec true p listen _ _ _ _ refl)))))

abbrev IsListening : Listener → Type 0
IsListening l = l.shut ≡ false

listen_found-Spec :
    (p : Provider) (cfg : ListenerConfig) (ds : List Descriptor)
    → Spec true
        (Open true held)
        held
        (λ l log. IsListening l × Open true (listener_resources held) log)
        (listen_found p cfg ds)
unfolding listen_found
listen_found-Spec p cfg [] = record { holds = unfold fail in λ log h. h }
listen_found-Spec p cfg (d ∷ ds) =
    then_return true (listen_resources p) (record { cfg = cfg; shut = false }) _ _ _ IsListening
      refl (listen_resources-Spec p)

listener-Spec :
    (p : Provider) (cfg : ListenerConfig)
    → Spec true
        (Open true [])
        []
        (λ l log. IsListening l × Open true (listener_resources []) log)
        (listener p cfg)
unfolding listener listen_on
listener-Spec p cfg = elim (Bool-cases (str_eq cfg.service "")) [
  | inl e ↦ rw (e, listener) (record { holds = unfold fail in λ log h. h })
  | inr e ↦
      rw (e, listener)
        (then_opens true p discover discovery [] "discover descriptors" _ _ _ _ refl (
          deferred_close-Spec true discovery (listen_found p cfg p.found) held
            (listener_resources held) [] (listener_resources []) IsListening refl
            (listen_found-Spec p cfg p.found) refl))
]

close_listener-events :
    (l : Listener) (log : List Event)
    → IsListening l
    → (close_listener l log).1 ≡ log ++ map closed (passive ∷ listen_queue ∷ domain ∷ fabric ∷ [])
unfolding close_listener
close_listener-events l log h = ground arith

-- What is open behind `Listen`, and behind the `Close` of its listener.
abbrev pub ListenOutcome : List Event × Result Listener → Type 0
ListenOutcome (log, err e) = live true log ≡ some []
ListenOutcome (log, ok l) =
    (live true log ≡ some (listener_resources [])) × (live true (close_listener l log).1 ≡ some [])

-- Whatever the C library answers and whatever the configuration: after an error of `Listen` every
-- resource that it opened has been closed, once. After a success exactly the listener's passive
-- endpoint, event queue, domain and fabric are open, and `Close` closes each of them once. Every close
-- comes when no open resource rests on the one to close, so that none is refused as busy.
pub listener-ListenOutcome :
    (p : Provider) (cfg : ListenerConfig) → ListenOutcome (listener p cfg [])
listener-ListenOutcome p cfg = go (listener p cfg []) ((listener-Spec p cfg).holds [] refl)
  where
    go :
        (o : List Event × Result Listener)
        → Ensures true [] (λ l log. IsListening l × Open true (listener_resources []) log) o
        → ListenOutcome o
    go (log, err e) h = h
    go (log, ok l) (d, h) =
        (h, rw (close_listener-events l log d) (live-append true log _ (listener_resources []) h))

-- The event that asks for a connection is open while it is handled.
abbrev asked : List Resource
asked = request ∷ listener_resources []

accept_resources-Spec :
    (p : Provider)
    → Spec false
        (Open false asked)
        asked
        (λ u. Open false (event_queue ∷ queue ∷ endpoint ∷ asked))
        (accept_resources p)
unfolding accept_resources
accept_resources-Spec p = then_opens false p open_endpoint endpoint [] _ _ _ _ _ refl (
    then_opens false p open_queue queue _ _ _ _ _ _ refl (
      then_opens false p open_event_queue event_queue _ _ _ _ _ _ refl (
        then_calls false p bind_queue _ _ _ _ _ _ refl (
          then_calls false p bind_event_queue _ _ _ _ _ _ refl (
            then_calls false p enable _ _ _ _ _ _ refl (
              then_calls false p accepts _ _ _ _ _ _ refl
                (settles-Spec false p handshake _ _ _ refl)))))))

handle_conn_req-Spec :
    (p : Provider) (l : Listener)
    → Spec false
        (Open false asked)
        (listener_resources [])
        (λ c log.
          IsConnected false c
          × Open false (event_queue ∷ queue ∷ endpoint ∷ listener_resources []) log)
        (handle_conn_req p l)
unfolding handle_conn_req
handle_conn_req-Spec p l =
    deferred_close-Spec false request (accept_resources p >> return (accepted p l)) asked
      (event_queue ∷ queue ∷ endpoint ∷ asked) _ _ (IsConnected false) refl
      (then_return false (accept_resources p) (accepted p l) _ _ _ (IsConnected false)
        (ground arith) (accept_resources-Spec p))
      refl

close_accepted-events :
    (c : Client) (log : List Event)
    → IsConnected false c
    → (close c log).1 ≡ log ++ map closed (endpoint ∷ queue ∷ event_queue ∷ [])
unfolding close
close_accepted-events c log d = ground arith

-- What is open behind the handling of a connection request, and behind the `Close` of the client.
abbrev pub AcceptOutcome : List Event × Result Client → Type 0
AcceptOutcome (log, err e) = live false log ≡ some (listener_resources [])
AcceptOutcome (log, ok c) =
    (live false log ≡ some (event_queue ∷ queue ∷ endpoint ∷ listener_resources []))
    × (live false (close c log).1 ≡ some (listener_resources []))
    × (live_from true (some (event_queue ∷ queue ∷ endpoint ∷ listener_resources [])) (close c []).1
        ≡ some (listener_resources []))

-- A connection request that is handled where Close has been called on all resources but the listener's and the
-- request: after an error Close has been called once on everything that was opened, and the listener's resources
-- alone are left. After a success the client's endpoint, completion queue and event queue are left beside them;
-- the `Close` of the client calls Close on these three, each when nothing rests on it, so that none
-- is refused as busy, and leaves the listener's fabric and domain. The request is freed in both cases. That
-- a close on an error path takes effect is not said: there the queues' Close comes before the endpoint's.
pub handle_conn_req-AcceptOutcome :
    (p : Provider) (l : Listener) (log : List Event)
    → live false log ≡ some (request ∷ listener_resources [])
    → AcceptOutcome (handle_conn_req p l log)
handle_conn_req-AcceptOutcome p l log h =
    go (handle_conn_req p l log) ((handle_conn_req-Spec p l).holds log h)
  where
    go :
        (o : List Event × Result Client)
        → Ensures false
            (listener_resources [])
            (λ c log.
              IsConnected false c
              × Open false (event_queue ∷ queue ∷ endpoint ∷ listener_resources []) log)
            o
        → AcceptOutcome o
    go (log, err e) h = h
    go (log, ok c) (d, h) = (
      h,
      rw (close_accepted-events c log d)
          (live-append false log _ (event_queue ∷ queue ∷ endpoint ∷ listener_resources []) h),
      rw (close_accepted-events c [] d) refl,
    )
