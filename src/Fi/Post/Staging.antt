-- ===== src/Fi/Post/Staging.antt =====
-- fi/messaging.go, fi/tagged.go, fi/rma.go: the memory that a post hands to the provider, and the
-- context of a post that fails.
use libfabric_go.Base.{
  ℕ, ◌≤◌, ◌≡◌, ◌⊎◌, true, false, Option, some, delete, arith, String, ◌∷◌, none, [], refl,
  Bool-cases, ltb, inl, inr, List,
}
use libfabric_go.Capi.Errors.{GoError, ok, err, Result}
use libfabric_go.Fi.Context.{Context, Runtime, release, ensure_buffer, set_copy_back}
use libfabric_go.Fi.Memory.{Region}
use libfabric_go.Fi.Post.{
  Staged, fail, stage_buffer, stage_region, copying_back, Issue, Posted, submit, injected, Slice,
  sent, received, tagged_sent, tagged_received, read_from, written_to, stage_out, stage_in,
}

abbrev pub InRegion : Option Region → ℕ → ℕ → Type 0
InRegion none buf len = ⊥
InRegion (some m) buf len = (buf ≡ m.buffer) × (len ≤ m.len)

-- The memory lies in the context's buffer or in the region, or no byte of it is used.
abbrev pub Fits : Option Region → Context → ℕ → ℕ → Type 0
Fits region c buf len = (len ≡ 0) ⊎ ((buf ≡ c.buffer) × (len ≤ c.buf_cap)) ⊎ InRegion region buf len

-- A stage keeps the registry and the context, or it fails and the context is released.
abbrev pub Kept : Runtime → Runtime → ℕ → Type 0
Kept r r' id =
    (r'.registry ≡ r.registry)
    × ((r'.objects id).ptr ≡ (r.objects id).ptr)
    × ((r'.objects id).closed ≡ false)

abbrev pub Dropped : Runtime → Runtime → ℕ → Type 0
Dropped r r' id =
    (r'.registry ≡ delete (r.objects id).ptr r.registry) × ((r'.objects id).closed ≡ true)

abbrev pub StageSpec : Option Region → ℕ → Runtime → Staged → Type 0
StageSpec region id r (r', ok (buf, len)) = Kept r r' id × Fits region (r'.objects id) buf len
StageSpec region id r (r', err e) = Dropped r r' id

abbrev pub Open : Runtime → ℕ → Type 0
Open r id = (r.objects id).closed ≡ false

pub fail-StageSpec :
    (region : Option Region) (id : ℕ) (e : GoError) (r : Runtime)
    → Open r id
    → StageSpec region id r (fail id e r)
unfolding release
fail-StageSpec region id e r o = ground arith

pub stage_buffer-StageSpec :
    (region : Option Region) (id size alloc : ℕ) (r : Runtime)
    → Open r id
    → StageSpec region id r (stage_buffer id size alloc r)
unfolding stage_buffer ensure_buffer release
stage_buffer-StageSpec region id size alloc r o = ground arith

pub stage_region-StageSpec :
    (local : ℕ) (m : Region) (size id : ℕ) (text : String) (r : Runtime)
    → Open r id
    → StageSpec (some m) id r (stage_region local m size id text r)
unfolding stage_region release
stage_region-StageSpec local m size id text r o = ground arith

pub copying_back-StageSpec :
    (region : Option Region) (id : ℕ) (s : Slice) (r : Runtime) (t : Staged)
    → StageSpec region id r t
    → StageSpec region id r (copying_back id s t)
unfolding copying_back set_copy_back
copying_back-StageSpec region id s r (r', ok (buf, len)) h = ground arith
copying_back-StageSpec region id s r (r', err e) h = h

pub stage_out-StageSpec :
    (text : String) (local : ℕ) (region : Option Region) (size id alloc : ℕ) (missing : Staged)
    (r : Runtime)
    → Open r id
    → (region ≡ none → StageSpec region id r missing)
    → StageSpec region id r (stage_out text local region size id alloc missing r)
unfolding stage_out
stage_out-StageSpec text local (some m) size id alloc missing r o h =
    stage_region-StageSpec local m size id text r o
stage_out-StageSpec text local none size id alloc missing r o h = elim (Bool-cases (ltb 0 size)) [
  | inl e ↦ rw (e, stage_out) (stage_buffer-StageSpec none id size alloc r o)
  | inr e ↦ rw (e, stage_out) (h refl)
]

pub stage_in-StageSpec :
    (text : String) (local : ℕ) (region : Option Region) (s : Slice) (id alloc : ℕ)
    (missing : Staged) (r : Runtime)
    → Open r id
    → (region ≡ none → StageSpec region id r missing)
    → StageSpec region id r (stage_in text local region s id alloc missing r)
unfolding stage_in
stage_in-StageSpec text local (some m) s id alloc missing r o h =
    let spec = stage_region-StageSpec local m s.len id text r o in
    elim (Bool-cases (ltb 0 s.len)) [
      | inl e ↦ rw (e, stage_in) (copying_back-StageSpec (some m) id s r _ spec)
      | inr e ↦ rw (e, stage_in) spec
    ]
stage_in-StageSpec text local none s id alloc missing r o h = elim (Bool-cases (ltb 0 s.len)) [
  | inl e ↦
      rw (e, stage_in)
        (copying_back-StageSpec none id s r _ (stage_buffer-StageSpec none id s.len alloc r o))
  | inr e ↦ rw (e, stage_in) (h refl)
]

-- What the provider was given, for an issue that waits for a completion.
abbrev pub issue_place : Issue → Option (ℕ × ℕ × ℕ)
issue_place (injected s d) = none
issue_place (sent buf len d ptr) = some (buf, len, ptr)
issue_place (received buf len s ptr) = some (buf, len, ptr)
issue_place (tagged_sent buf len d t ptr) = some (buf, len, ptr)
issue_place (tagged_received buf len s t i ptr) = some (buf, len, ptr)
issue_place (read_from buf len a k o ptr) = some (buf, len, ptr)
issue_place (written_to buf len a k o ptr) = some (buf, len, ptr)

-- A post of the context `id`. If the caller is given a context, it is this one, still open and found as
-- before, and one operation is issued, over memory that it fits and with the context's own pointer. If
-- the caller is given none, the post was injected and the context is released. If the post fails,
-- nothing is issued and the context is released.
abbrev pub PostOutcome :
    Option Region → ℕ → Runtime → Runtime → List Issue → Result (Option ℕ) → Type 0
PostOutcome region id r r' issued (ok (some j)) =
    (j ≡ id)
    × Kept r r' id
    × ((i : Issue) × (buf : ℕ) × (len : ℕ) × (issued ≡ i ∷ [])
        × (issue_place i ≡ some (buf, len, (r.objects id).ptr))
        × Fits region (r'.objects id) buf len)
PostOutcome region id r r' issued (ok none) =
    Dropped r r' id × ((s : Slice) × (d : ℕ) × (issued ≡ injected s d ∷ []))
PostOutcome region id r r' issued (err e) = Dropped r r' id × (issued ≡ [])

abbrev pub PostSpec : Option Region → ℕ → Runtime → Posted → Type 0
PostSpec region id r p = PostOutcome region id r p.runtime p.issued p.result

-- The issue that a post makes carries the memory and the pointer that it is given.
abbrev pub Carries : (ℕ → ℕ → ℕ → Issue) → Type 0
Carries issue = (buf len ptr : ℕ) → issue_place (issue buf len ptr) ≡ some (buf, len, ptr)

pub submit-PostSpec :
    (region : Option Region) (id : ℕ) (issue : ℕ → ℕ → ℕ → Issue) (answer : Option GoError)
    (r : Runtime) (t : Staged)
    → Carries issue
    → StageSpec region id r t
    → PostSpec region id r (submit id issue answer t)
unfolding submit release
submit-PostSpec region id issue answer r (r', err e) c h = (h, refl)
submit-PostSpec region id issue none r (r', ok (buf, len)) c h = (
  refl,
  h.0,
  (
    issue buf len (r'.objects id).ptr,
    buf,
    len,
    refl,
    rw (h.0.1) (c buf len (r.objects id).ptr),
    h.1,
  ),
)
submit-PostSpec region id issue (some e) r (r', ok (buf, len)) c h = ground arith
