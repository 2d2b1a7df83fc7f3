-- ===== src/Fi/Examples/Opens.antt =====
-- fi/endpoint.go and fi/wait.go: an endpoint and a wait set on fixed inputs.
use libfabric_go.Capi.Examples.{codes}
use libfabric_go.Fi.Examples.Discoveries.{library}
use libfabric_go.Fi.Open.{
  Caps, open_endpoint_with_info, open_descriptor_endpoint, descriptor_supports_tagged,
}
use libfabric_go.Fi.Open.Twins.{opened_endpoint}
use libfabric_go.Fi.Wait.Sets.{wait_on, TimeoutOutcome, wait_on-TimeoutOutcome}
use libfabric_go.Fi.Post.{Endpoint, Answers, refused}
use libfabric_go.Fi.Post.Message.{SendRequest, may_inject}
use libfabric_go.Fi.Post.Tagged.{
  TaggedSendRequest, TaggedRecvRequest, post_tagged_send, post_tagged_recv,
}
use libfabric_go.Fi.Context.History.{start}
use libfabric_go.Capi.Info.{Heap, FiInfo}
use libfabric_go.Capi.Info.Read.{inject_size, caps_of}
use libfabric_go.Capi.Errors.{ok, sentinel, Sentinel}
use libfabric_go.Base.{◌≡◌, refl, none, some, ◌==◌, if◌then◌else◌, false, arith, true, ◌⊎◌, ◌≤◌}
use libfabric_go.Base.Int.{pos}

abbrev bits : Caps
bits = record { msg = 2; tagged = 8; rma = 4; remote_read = 4096; remote_write = 8192 }

-- An entry for messages of at most eight bytes without a post, and none for tagged ones.
abbrev msg_only : FiInfo
msg_only = record {
  caps = 2;
  mode = 0;
  fabric_attr = none;
  domain_attr = none;
  ep_attr = some 3;
  tx_attr = some 8;
  next = 0;
}

abbrev one_entry : Heap
one_entry p = if p == 10 then some msg_only else none

abbrev opened_one : Endpoint
opened_one = record { handle = 70; inject_limit = 8; supports_tagged = false }

opens_one :
    open_endpoint_with_info codes bits library (some 3) 10 one_entry (pos 0) 70 ≡ ok opened_one
unfolding open_endpoint_with_info inject_size caps_of
opens_one = refl

abbrev answers : Answers
answers = record { new_context = 300; new_buffer = 900; inject = none; post = none }

abbrev tagged_send : TaggedSendRequest
tagged_send = record { buffer = record { base = 40; len = 4 }; dest = 2; tag = 6; context = none }

abbrev tagged_recv : TaggedRecvRequest
tagged_recv = record {
  buffer = record { base = 40; len = 4 };
  source = 0;
  tag = 6;
  ignore = 0;
  context = none;
}

abbrev long_send : SendRequest
long_send = record {
  buffer = record { base = 40; len = 16 };
  dest = 2;
  context = none;
  region = none;
}

opened_endpoint_example :
    (open_descriptor_endpoint codes bits (some 3) 10 one_entry (pos 0) 70 ≡ ok opened_one)
    × ((descriptor_supports_tagged bits (one_entry 10) ≡ true)
        ⊎ ((post_tagged_send opened_one (some tagged_send) answers start
              ≡ refused start (sentinel Sentinel.capability_unsupported))
            × (post_tagged_recv opened_one (some tagged_recv) answers start
                ≡ refused start (sentinel Sentinel.capability_unsupported))))
    × ((long_send.buffer.len ≤ inject_size (one_entry 10))
        ⊎ (may_inject opened_one long_send ≡ false))
opened_endpoint_example =
    opened_endpoint codes bits library (some 3) 10 one_entry (pos 0) 70 opened_one
      (some tagged_send) (some tagged_recv) long_send answers start opens_one (omega arith)

-- Two and a half milliseconds are two.
wait_on-TimeoutOutcome_example :
    TimeoutOutcome (pos 2500000) (wait_on codes (some 7) (pos 2500000) (pos 0)).0
wait_on-TimeoutOutcome_example =
    wait_on-TimeoutOutcome codes 7 (pos 2500000) (pos 0) (omega arith) (omega arith)
