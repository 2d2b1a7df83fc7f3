-- ===== src/Client/Setup/Dial.antt =====
-- client/client.go: Config, Dial and Close.
use libfabric_go.Base.{
  ℕ, ◌*◌, ◌^◌, String, Bool, true, false, not, ◌&&◌, ◌||◌, Option, none, some, List, [], ◌∷◌, ◌++◌,
  ◌==◌, ltb, if◌then◌else◌, str_eq,
}
use libfabric_go.Base.Int.{ℤ, pos, sub_ℕ, ltb_ℤ, eqb_ℤ}
use libfabric_go.Capi.Errors.{GoError, message, wrapped, Result, ok, err}
use libfabric_go.Fi.Memory.{requires_mr_mode}
use libfabric_go.Fi.Pool.{MrPool, new_mr_pool}
use libfabric_go.Client.Setup.{
  EndpointType, unspec, rdm, same_type, Resource, fabric, domain, queue, event_queue, endpoint,
  vector, discovery, Event, closed, Descriptor, Provider, Setup, ◌>>=◌, ◌>>◌, return, fail, calls,
  opens, deferred_close, discover, open_fabric, open_domain, open_queue, open_endpoint, open_vector,
  bind_queue, bind_vector, enable, register_address, query_name, insert_service,
}

-- Durations are in nanoseconds; the hooks for logs, traces and metrics are left out.
pub record Config : Type 0 where
  pub provider : String
  pub endpoint_type : EndpointType
  pub timeout : ℤ
  pub mr_pool_size : ℤ
  pub mr_pool_capacity : ℤ
  pub mr_pool_access : ℕ
  pub node : String
  pub service : String

abbrev pub five_seconds : ℤ
five_seconds = pos (5 * 10 ^ 9)

-- The part of a client that set-up decides.
pub record Client : Type 0 where
  pub cfg : Config
  pub has_vector : Bool
  pub has_event_queue : Bool
  pub self_addr : ℕ
  pub self_raw : List ℕ
  pub peer_addr : ℕ
  pub peer_configured : Bool
  pub pool : Option MrPool
  pub mr_access : ℕ
  pub requires_mr : Bool
  pub shut : Bool
  pub own_fabric : Bool
  pub own_domain : Bool
  pub own_endpoint : Bool
  pub own_completion : Bool
  pub own_event_queue : Bool

abbrev pub close_if : Bool → Resource → List Event
close_if b r = if b then closed r ∷ [] else []

-- `Close`, behind the wait for the dispatcher; the regions of the pool are in Fi.Pool. An event says that Close is
-- called on the resource; what the C library answers is dropped, as in the source.
unfoldable pub close : Client → List Event → Client × List Event
close c log = if c.shut then (c, log) else (
  record c { shut = true },
  log
      ++ (close_if c.has_vector vector
          ++ (close_if c.own_endpoint endpoint
              ++ (close_if c.own_completion queue
                  ++ (close_if (c.has_event_queue && c.own_event_queue) event_queue
                      ++ (close_if c.own_domain domain ++ close_if c.own_fabric fabric))))),
)

-- The defaults that `Dial` puts in.
unfoldable pub dial_defaults : Config → Config
dial_defaults cfg = record cfg {
  provider = if str_eq cfg.provider "" then "sockets" else cfg.provider;
  endpoint_type = if same_type cfg.endpoint_type unspec then rdm else cfg.endpoint_type;
  timeout = if eqb_ℤ cfg.timeout (pos 0) then five_seconds else cfg.timeout;
}

-- The first descriptor of the wanted type, or else the first one.
unfoldable pub find_type : EndpointType → List Descriptor → Option Descriptor
find_type t [] = none
find_type t (d ∷ ds) = if same_type d.endpoint t then some d else find_type t ds

unfoldable pub select : EndpointType → List Descriptor → Option Descriptor
unfolding find_type
select t [] = none
select t (d ∷ ds) = elim (find_type t (d ∷ ds)) [ none ↦ some d | some found ↦ some found ]

-- Go's `int(n)` of an unsigned 64-bit number.
abbrev pub to_int : ℕ → ℤ
to_int n = if ltb n (2 ^ 63) then pos n else sub_ℕ n (2 ^ 64)

abbrev pub not_positive : ℤ → Bool
not_positive n = not (ltb_ℤ (pos 0) n)

-- Size and capacity of the pool.
unfoldable pub pool_size : Config → Bool → Descriptor → ℤ
pool_size cfg requires_mr info =
    let inject = if ltb 0 info.inject_size then to_int info.inject_size else cfg.mr_pool_size in
    if requires_mr && not_positive cfg.mr_pool_size
    then if not_positive inject then pos 4096 else inject
    else cfg.mr_pool_size

unfoldable pub pool_capacity : Config → Bool → ℤ
pool_capacity cfg requires_mr =
    if requires_mr && not_positive cfg.mr_pool_capacity then pos 32 else cfg.mr_pool_capacity

-- The resources below the address vector.
unfoldable pub dial_endpoint : Provider → Setup (Unit {0})
dial_endpoint p = do
  opens p open_fabric fabric [] "open fabric"
  opens p open_domain domain (fabric ∷ []) "open domain"
  opens p open_queue queue (domain ∷ fabric ∷ []) "open completion queue"
  opens p open_endpoint endpoint (queue ∷ domain ∷ fabric ∷ []) "open endpoint"
  calls p bind_queue (endpoint ∷ queue ∷ domain ∷ fabric ∷ []) "bind completion queue"
  calls p enable (endpoint ∷ queue ∷ domain ∷ fabric ∷ []) "enable endpoint"

unfoldable pub dial_vector : Provider → Setup (Unit {0})
dial_vector p = do
  opens p open_vector vector (endpoint ∷ queue ∷ domain ∷ fabric ∷ []) "open address vector"
  calls p bind_vector (vector ∷ endpoint ∷ queue ∷ domain ∷ fabric ∷ []) "bind address vector"
  calls p register_address (vector ∷ endpoint ∷ queue ∷ domain ∷ fabric ∷ [])
      "register endpoint address"
  calls p query_name (vector ∷ endpoint ∷ queue ∷ domain ∷ fabric ∷ []) "query endpoint address"

-- The client before its peer and its pool are set up.
abbrev pub dialed : Provider → Config → Client
dialed p cfg =
    let is_rdm = same_type cfg.endpoint_type rdm in
    let self = if is_rdm then p.own_address else 0 in
    record {
      cfg = cfg;
      has_vector = is_rdm;
      has_event_queue = false;
      self_addr = self;
      self_raw = if is_rdm then p.own_name else [];
      peer_addr = self;
      peer_configured = true;
      pool = none;
      mr_access = 0;
      requires_mr = false;
      shut = false;
      own_fabric = true;
      own_domain = true;
      own_endpoint = true;
      own_completion = true;
      own_event_queue = false;
    }

-- A failure behind the construction of the client closes the client.
unfoldable pub abandon : {A : Type 0} → Client → GoError → Setup A
unfolding close
abandon c e log = ((close c log).1, err e)

unfoldable pub dial_peer : Provider → Client → Setup Client
unfolding abandon
dial_peer p c =
    if c.has_vector && (not (str_eq c.cfg.node "") || not (str_eq c.cfg.service ""))
    then elim (p.refuses insert_service) [
      | some e ↦ abandon c (wrapped "register peer service" e)
      | none ↦ return (record c { peer_addr = p.service_address; peer_configured = true })
    ]
    else return c

unfoldable pub with_pool : Client → ℤ → ℤ → Result MrPool → Setup Client
unfolding abandon
with_pool c size capacity (ok pool) =
    let cfg = record c.cfg { mr_pool_size = size; mr_pool_capacity = capacity } in
    return (record c { cfg = cfg; pool = some pool })
with_pool c size capacity (err e) = abandon c (wrapped "create MR pool" e)

unfoldable pub dial_pool : Provider → Descriptor → Client → Setup Client
unfolding with_pool pool_size pool_capacity
dial_pool p info c =
    let requires_mr = requires_mr_mode p.opened_domain p.mr_local in
    let access = if c.cfg.mr_pool_access == 0 then p.mr_local else c.cfg.mr_pool_access in
    let size = pool_size c.cfg requires_mr info in
    let capacity = pool_capacity c.cfg requires_mr in
    let c' = record c { requires_mr = requires_mr; mr_access = access } in
    if ltb_ℤ (pos 0) size
    then with_pool c' size capacity (new_mr_pool p.opened_domain size access capacity)
    else return c'

unfoldable pub dial_selected : Provider → Config → Descriptor → Setup Client
unfolding dial_endpoint dial_vector dial_peer dial_pool
dial_selected p cfg info = do
  dial_endpoint p
  if same_type cfg.endpoint_type rdm then dial_vector p else return tt
  c ← dial_peer p (dialed p cfg)
  dial_pool p info c

unfoldable pub dial_found : Provider → Config → Option Descriptor → Setup Client
unfolding dial_selected
dial_found p cfg none = fail (message "no descriptors found for provider")
dial_found p cfg (some info) = dial_selected p cfg info

unfoldable pub dial : Provider → Config → Setup Client
unfolding dial_defaults select dial_found
dial p config = do
  opens p discover discovery [] "discover descriptors"
  deferred_close discovery
      (dial_found p (dial_defaults config) (select (dial_defaults config).endpoint_type p.found))
