-- ===== src/Client/Examples/Requests.antt =====
-- client/client.go: the requests that the client prepares, on fixed inputs.
use libfabric_go.Base.{◌≡◌, ℕ, refl, some, none, [], true, false, Option, arith}
use libfabric_go.Base.Int.{pos}
use libfabric_go.Capi.Errors.{GoError, ok}
use libfabric_go.Fi.Context.{copy_effects, new_completion_context}
use libfabric_go.Fi.Context.Effects.{Slice}
use libfabric_go.Fi.Context.History.{start}
use libfabric_go.Fi.Memory.{
  ensure_region_access, Flags, Domain, Memory, Region, closed_region, register_memory,
}
use libfabric_go.Fi.Pool.{MrPool, Reply, acquire}
use libfabric_go.Fi.Post.{Endpoint, Answers, ensure_context}
use libfabric_go.Fi.Post.Message.{post_recv}
use libfabric_go.Client.Setup.{rdm}
use libfabric_go.Client.Setup.Dial.{Client}
use libfabric_go.Client.Prepare.{gives_back, prepare_send, prepare_receive, send_from, recv_into}
use libfabric_go.Client.Prepare.Regions.{pooled_receive_copies_nothing}

abbrev flags : Flags
flags = record { mr_local = 4; supported_modes = 7 }

abbrev local_domain : Domain
local_domain = record { handle = 3; mr_mode = 4; mr_key_size = 8; mr_iov_limit = 2 }

abbrev small_pool : MrPool
small_pool = record {
  domain = local_domain;
  size = 64;
  access = 4;
  queue = [];
  capacity = 1;
  closed = false;
}

abbrev pooled_client : Client
pooled_client = record {
  cfg = record {
    provider = "verbs";
    endpoint_type = rdm;
    timeout = pos 0;
    mr_pool_size = pos 64;
    mr_pool_capacity = pos 1;
    mr_pool_access = 4;
    node = "";
    service = "";
  };
  has_vector = true;
  has_event_queue = false;
  self_addr = 1;
  self_raw = [];
  peer_addr = 1;
  peer_configured = true;
  pool = some small_pool;
  mr_access = 4;
  requires_mr = true;
  shut = false;
  own_fabric = true;
  own_domain = true;
  own_endpoint = true;
  own_completion = true;
  own_event_queue = false;
}

abbrev no_regions : Memory
no_regions = record { regions = λ id. closed_region; next = 0; log = [] }

abbrev granted : ℕ → Option GoError
granted handle = none

abbrev reply : Reply
reply = record { cbuf = 500; handle = ok 9 }

abbrev pooled_region : Region
pooled_region = record {
  handle = 9;
  buffer = 500;
  len = 64;
  access = 4;
  desc_size = 8;
  owns_buf = true;
}

abbrev sixteen : Slice
sixteen = record { base = 40; len = 16 }

prepared_send :
    (prepare_send granted flags local_domain pooled_client sixteen 2 reply no_regions).2
    ≡ ok (send_from pooled_region 16 2, gives_back 0)
unfolding prepare_send acquire register_memory
prepared_send = refl

prepared_receive :
    (prepare_receive granted flags local_domain pooled_client sixteen reply no_regions).2
    ≡ ok (recv_into sixteen (some pooled_region), gives_back 0)
unfolding prepare_receive acquire register_memory
prepared_receive = refl

abbrev rdm_endpoint : Endpoint
rdm_endpoint = record { handle = 5; inject_limit = 8; supports_tagged = true }

abbrev answers : Answers
answers = record { new_context = 300; new_buffer = 900; inject = none; post = none }

receive_posted :
    (post_recv 4 rdm_endpoint (some (recv_into sixteen (some pooled_region))) answers start).result
    ≡ ok (some 0)
unfolding post_recv ensure_context new_completion_context ensure_region_access
receive_posted = refl

pooled_receive_copies_nothing_example :
    ((recv_into sixteen (some pooled_region)).buffer ≡ sixteen)
    × (copy_effects (
          (post_recv 4 rdm_endpoint
              (some (recv_into sixteen (some pooled_region)))
              answers
              start).runtime.objects
            0)
        ≡ [])
pooled_receive_copies_nothing_example =
    pooled_receive_copies_nothing granted flags local_domain pooled_client small_pool sixteen reply
      no_regions (recv_into sixteen (some pooled_region)) (gives_back 0) 4 rdm_endpoint answers
      start 0 refl (omega arith) prepared_receive receive_posted
