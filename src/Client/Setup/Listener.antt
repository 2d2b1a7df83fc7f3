-- ===== src/Client/Setup/Listener.antt =====
-- client/listener.go: Listen, Close, and handleConnReq, which accepts a connection.
use libfabric_go.Base.{
  String, Bool, true, false, none, List, [], ◌∷◌, ◌++◌, str_eq, map, if◌then◌else◌,
}
use libfabric_go.Base.Int.{pos}
use libfabric_go.Capi.Errors.{message}
use libfabric_go.Fi.Memory.{requires_mr_mode}
use libfabric_go.Client.Setup.{
  Provider, Descriptor, Event, closed, Setup, ◌>>◌, return, fail, calls, opens, settles,
  deferred_close, msg, fabric, domain, queue, event_queue, listen_queue, endpoint, passive, request,
  discovery, discover, open_fabric, open_domain, open_queue, open_event_queue, open_endpoint,
  open_passive, bind_passive, bind_queue, bind_event_queue, enable, listen, accepts, handshake,
}
use libfabric_go.Client.Setup.Dial.{Client}

pub record ListenerConfig : Type 0 where
  pub provider : String
  pub node : String
  pub service : String

pub record Listener : Type 0 where
  pub cfg : ListenerConfig
  pub shut : Bool

unfoldable pub listen_resources : Provider → Setup (Unit {0})
listen_resources p = do
  opens p open_fabric fabric [] "open fabric"
  opens p open_domain domain (fabric ∷ []) "open domain"
  opens p open_event_queue listen_queue (domain ∷ fabric ∷ []) "open event queue"
  opens p open_passive passive (listen_queue ∷ domain ∷ fabric ∷ []) "open passive endpoint"
  calls p bind_passive (passive ∷ listen_queue ∷ domain ∷ fabric ∷ []) "bind event queue"
  calls p listen (passive ∷ listen_queue ∷ domain ∷ fabric ∷ []) "listen passive endpoint"

unfoldable pub listen_found : Provider → ListenerConfig → List Descriptor → Setup Listener
unfolding listen_resources
listen_found p cfg [] =
    fail (message "libfabric client listener: no descriptors found for provider")
listen_found p cfg (d ∷ ds) = do listen_resources p; return (record { cfg = cfg; shut = false })

unfoldable pub listen_on : Provider → ListenerConfig → Setup Listener
unfolding listen_found
listen_on p cfg = do
  opens p discover discovery [] "discover descriptors"
  deferred_close discovery (listen_found p cfg p.found)

unfoldable pub listener : Provider → ListenerConfig → Setup Listener
unfolding listen_on
listener p cfg =
    if str_eq cfg.service ""
    then fail (message "libfabric client listener: service required")
    else listen_on p cfg

unfoldable pub close_listener : Listener → List Event → Listener × List Event
close_listener l log = if l.shut then (l, log) else (
  record l { shut = true },
  log ++ map closed (passive ∷ listen_queue ∷ domain ∷ fabric ∷ []),
)

-- The client of an accepted connection: the fabric and the domain stay the listener's.
abbrev pub accepted : Provider → Listener → Client
accepted p l = record {
  cfg = record {
    provider = l.cfg.provider;
    endpoint_type = msg;
    timeout = pos 0;
    mr_pool_size = pos 0;
    mr_pool_capacity = pos 0;
    mr_pool_access = 0;
    node = "";
    service = "";
  };
  has_vector = false;
  has_event_queue = true;
  self_addr = 0;
  self_raw = [];
  peer_addr = 0;
  peer_configured = false;
  pool = none;
  mr_access = 0;
  requires_mr = requires_mr_mode p.opened_domain p.mr_local;
  shut = false;
  own_fabric = false;
  own_domain = false;
  own_endpoint = true;
  own_completion = true;
  own_event_queue = true;
}

unfoldable pub accept_resources : Provider → Setup (Unit {0})
accept_resources p = do
  opens p open_endpoint endpoint [] "open endpoint"
  opens p open_queue queue (endpoint ∷ []) "open completion queue"
  opens p open_event_queue event_queue (queue ∷ endpoint ∷ []) "open event queue"
  calls p bind_queue (event_queue ∷ queue ∷ endpoint ∷ []) "bind completion queue"
  calls p bind_event_queue (event_queue ∷ queue ∷ endpoint ∷ []) "bind event queue"
  calls p enable (event_queue ∷ queue ∷ endpoint ∷ []) "enable endpoint"
  calls p accepts (event_queue ∷ queue ∷ endpoint ∷ []) "accept"
  settles p handshake (event_queue ∷ queue ∷ endpoint ∷ [])

-- `handleConnReq`; the `request` is the event that was read, which it frees.
unfoldable pub handle_conn_req : Provider → Listener → Setup Client
unfolding accept_resources
handle_conn_req p l = deferred_close request (do accept_resources p; return (accepted p l))
