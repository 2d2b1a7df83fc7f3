-- ===== src/Capi/Calls.antt =====
-- internal/capi/endpoint.go, rma.go and tagged.go: the calls on an active endpoint. A call of the C library
-- is kept with its arguments in the order of C; its status is an argument.
use libfabric_go.Base.{ℕ, String, Option, some, List, [], ◌∷◌, ◌==◌, if◌then◌else◌}
use libfabric_go.Base.Int.{ℤ}
use libfabric_go.Capi.Errors.{GoError, error_from_status}
use libfabric_go.Capi.Handle.{Codes, unavailable}

-- Behind the endpoint; a send has a buffer, its length, a descriptor, an address and a context, and an RMA
-- operation the remote address before the key.
pub data CCall : Type 0 where
  fi_send fi_recv : ℕ → ℕ → ℕ → ℕ → ℕ → CCall
  fi_inject : ℕ → ℕ → ℕ → CCall
  fi_tsend : ℕ → ℕ → ℕ → ℕ → ℕ → ℕ → CCall
  fi_trecv : ℕ → ℕ → ℕ → ℕ → ℕ → ℕ → ℕ → CCall
  fi_tinject : ℕ → ℕ → ℕ → ℕ → CCall
  fi_read fi_write : ℕ → ℕ → ℕ → ℕ → ℕ → ℕ → ℕ → CCall
  fi_accept fi_connect : ℕ → ℕ → CCall

-- The calls that reached C, and the error.
abbrev pub Called : Type 0
Called = List CCall × Option GoError

unfoldable pub called : Codes → String → ℕ → CCall → ℤ → Called
unfolding unavailable error_from_status
called k op endpoint call status =
    if endpoint == 0
    then ([], some (unavailable k op))
    else (call ∷ [], error_from_status status op)

unfoldable pub endpoint_send : Codes → ℕ → ℕ → ℕ → ℕ → ℕ → ℕ → ℤ → Called
unfolding called
endpoint_send k endpoint buffer len desc dest context status =
    called k "fi_send" endpoint (fi_send buffer len desc dest context) status

unfoldable pub endpoint_recv : Codes → ℕ → ℕ → ℕ → ℕ → ℕ → ℕ → ℤ → Called
unfolding called
endpoint_recv k endpoint buffer len desc src context status =
    called k "fi_recv" endpoint (fi_recv buffer len desc src context) status

unfoldable pub endpoint_inject : Codes → ℕ → ℕ → ℕ → ℕ → ℤ → Called
unfolding called
endpoint_inject k endpoint buffer len dest status =
    called k "fi_inject" endpoint (fi_inject buffer len dest) status

unfoldable pub endpoint_tsend : Codes → ℕ → ℕ → ℕ → ℕ → ℕ → ℕ → ℕ → ℤ → Called
unfolding called
endpoint_tsend k endpoint buffer len desc dest tag context status =
    called k "fi_tsend" endpoint (fi_tsend buffer len desc dest tag context) status

unfoldable pub endpoint_trecv : Codes → ℕ → ℕ → ℕ → ℕ → ℕ → ℕ → ℕ → ℕ → ℤ → Called
unfolding called
endpoint_trecv k endpoint buffer len desc src tag ignore context status =
    called k "fi_trecv" endpoint (fi_trecv buffer len desc src tag ignore context) status

unfoldable pub endpoint_tinject : Codes → ℕ → ℕ → ℕ → ℕ → ℕ → ℤ → Called
unfolding called
endpoint_tinject k endpoint buffer len dest tag status =
    called k "fi_tinject" endpoint (fi_tinject buffer len dest tag) status

-- The Go methods take the key before the remote address.
unfoldable pub endpoint_read : Codes → ℕ → ℕ → ℕ → ℕ → ℕ → ℕ → ℕ → ℕ → ℤ → Called
unfolding called
endpoint_read k endpoint buffer len desc src key addr context status =
    called k "fi_read" endpoint (fi_read buffer len desc src addr key context) status

unfoldable pub endpoint_write : Codes → ℕ → ℕ → ℕ → ℕ → ℕ → ℕ → ℕ → ℕ → ℤ → Called
unfolding called
endpoint_write k endpoint buffer len desc dest key addr context status =
    called k "fi_write" endpoint (fi_write buffer len desc dest addr key context) status

unfoldable pub endpoint_accept : Codes → ℕ → ℕ → ℕ → ℤ → Called
unfolding called
endpoint_accept k endpoint param len status =
    called k "fi_accept" endpoint (fi_accept param len) status

unfoldable pub endpoint_connect : Codes → ℕ → ℕ → ℕ → ℤ → Called
unfolding called
endpoint_connect k endpoint param len status =
    called k "fi_connect" endpoint (fi_connect param len) status
