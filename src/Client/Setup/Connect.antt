-- ===== src/Client/Setup/Connect.antt =====
-- client/connect.go: Connect. Its wait for the connection is one call here; the loop is in Accept.
use libfabric_go.Base.{true, false, none, List, [], ◌∷◌, str_eq, if◌then◌else◌}
use libfabric_go.Base.Int.{pos, eqb_ℤ}
use libfabric_go.Capi.Errors.{message}
use libfabric_go.Fi.Memory.{requires_mr_mode}
use libfabric_go.Client.Setup.{
  Provider, Descriptor, Setup, ◌>>◌, return, fail, calls, opens, settles, deferred_close, unspec,
  msg, same_type, fabric, domain, queue, event_queue, endpoint, discovery, discover, open_fabric,
  open_domain, open_queue, open_event_queue, open_endpoint, bind_queue, bind_event_queue, enable,
  connects, handshake,
}
use libfabric_go.Client.Setup.Dial.{Client, Config, five_seconds}

unfoldable pub connect_defaults : Config → Config
connect_defaults cfg = record cfg {
  endpoint_type = if same_type cfg.endpoint_type unspec then msg else cfg.endpoint_type;
  timeout = if eqb_ℤ cfg.timeout (pos 0) then five_seconds else cfg.timeout;
}

abbrev pub connected : Provider → Config → Client
connected p cfg = record {
  cfg = cfg;
  has_vector = false;
  has_event_queue = true;
  self_addr = 0;
  self_raw = [];
  peer_addr = 0;
  peer_configured = false;
  pool = none;
  mr_access = 0;
  requires_mr = requires_mr_mode p.opened_domain p.mr_local;
  shut = false;
  own_fabric = true;
  own_domain = true;
  own_endpoint = true;
  own_completion = true;
  own_event_queue = true;
}

-- The set-up behind the choice of a descriptor.
unfoldable pub connect_resources : Provider → Setup (Unit {0})
connect_resources p = do
  opens p open_fabric fabric [] "open fabric"
  opens p open_domain domain (fabric ∷ []) "open domain"
  opens p open_queue queue (domain ∷ fabric ∷ []) "open completion queue"
  opens p open_event_queue event_queue (queue ∷ domain ∷ fabric ∷ []) "open event queue"
  opens p open_endpoint endpoint (event_queue ∷ queue ∷ domain ∷ fabric ∷ []) "open endpoint"
  calls p bind_queue (endpoint ∷ event_queue ∷ queue ∷ domain ∷ fabric ∷ []) "bind completion queue"
  calls p bind_event_queue (endpoint ∷ event_queue ∷ queue ∷ domain ∷ fabric ∷ [])
      "bind event queue"
  calls p enable (endpoint ∷ event_queue ∷ queue ∷ domain ∷ fabric ∷ []) "enable endpoint"
  calls p connects (endpoint ∷ event_queue ∷ queue ∷ domain ∷ fabric ∷ []) "connect"
  settles p handshake (endpoint ∷ event_queue ∷ queue ∷ domain ∷ fabric ∷ [])

unfoldable pub connect_found : Provider → Config → List Descriptor → Setup Client
unfolding connect_resources
connect_found p cfg [] =
    fail (message "libfabric client connect: no descriptors found for provider")
connect_found p cfg (d ∷ ds) = do connect_resources p; return (connected p cfg)

unfoldable pub connect_to : Provider → Config → Setup Client
unfolding connect_found
connect_to p cfg = do
  opens p discover discovery [] "discover descriptors"
  deferred_close discovery (connect_found p cfg p.found)

unfoldable pub connect : Provider → Config → Setup Client
unfolding connect_defaults connect_to
connect p cfg =
    if str_eq cfg.service ""
    then fail (message "libfabric client connect: service required")
    else connect_to p (connect_defaults cfg)
