-- ===== src/Fi/Examples/Regions.antt =====
-- fi/memory.go: registrations on fixed inputs.
use libfabric_go.Base.{◌≡◌, ℕ, refl, some, none, List, [], ◌∷◌, Option}
use libfabric_go.Capi.Errors.{GoError, message, ok, err}
use libfabric_go.Fi.Memory.{
  Flags, Domain, Memory, Segment, register_memory_with_options, register_memory_segments,
  closed_region, segments_total,
}

abbrev flags : Flags
flags = record { mr_local = 4; supported_modes = 7 }

abbrev local_domain : Domain
local_domain = record { handle = 3; mr_mode = 4; mr_key_size = 8; mr_iov_limit = 2 }

abbrev empty_memory : Memory
empty_memory = record { regions = λ id. closed_region; next = 0; log = [] }

abbrev size : ℕ
size = 64

abbrev registered_one : Memory
registered_one = (register_memory_with_options flags local_domain 64 none 500 (ok 9) empty_memory).0

registers :
    (register_memory_with_options flags local_domain 64 none 500 (ok 9) empty_memory).1 ≡ ok 0
unfolding register_memory_with_options
registers = refl

abbrev out_of_keys : Memory
out_of_keys =
    (register_memory_with_options flags local_domain 64 none 500 (err (message "no keys"))
      empty_memory).0

fails :
    (register_memory_with_options flags local_domain 64 none 500
      (err (message "no keys"))
      empty_memory).1
    ≡ err (message "no keys")
unfolding register_memory_with_options
fails = refl

abbrev two_segments : List Segment
two_segments = record { pointer = 700; len = 32 } ∷ record { pointer = 800; len = 16 } ∷ []

segments_register :
    (register_memory_segments flags local_domain two_segments none (ok 11) empty_memory).1 ≡ ok 0
unfolding register_memory_segments segments_total
segments_register = refl

abbrev busy : ℕ → Option GoError
busy handle = some (message "busy")

abbrev granted : ℕ → Option GoError
granted handle = none
