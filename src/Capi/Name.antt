-- ===== src/Capi/Name.antt =====
-- internal/capi/endpoint.go: the name of an endpoint, read into C buffers of growing size. The method of
-- the passive endpoint is the same but for its last message.
pub mod Bounds
use libfabric_go.Base.{
  ℕ, zero, suc, ◌*◌, Option, none, some, List, [], ◌∷◌, ◌==◌, if◌then◌else◌, ◌++◌, Bool, false,
}
use libfabric_go.Base.Int.{ℤ, pos, neg, eqb_ℤ}
use libfabric_go.Capi.Errors.{GoError, message, error_from_status, Result, ok, err}
use libfabric_go.Capi.Handle.{Codes, unavailable}

-- What a round meets: no buffer, or the status of fi_getname and the bytes that it leaves.
pub data Reply : Type 0 where
  no_buffer : Reply
  answers : ℤ → List ℕ → Reply

-- A buffer of a size.
pub data NameEffect : Type 0 where
  allocated freed : ℕ → NameEffect

abbrev pub logged :
    List NameEffect → Result (List ℕ) × List NameEffect → Result (List ℕ) × List NameEffect
logged effects (r, log) = (r, effects ++ log)

abbrev pub failed : Option GoError → Result (List ℕ)
failed none = ok []
failed (some e) = err e

-- What a round makes of the reply for a buffer of the size; `rest` is what the later rounds give.
unfoldable pub on_reply :
    Codes → ℕ → Reply → Result (List ℕ) × List NameEffect → Result (List ℕ) × List NameEffect
unfolding error_from_status
on_reply k size no_buffer rest = (err (message "libfabric: unable to allocate name buffer"), [])
on_reply k size (answers status bytes) rest =
    let tried : List NameEffect = allocated size ∷ freed size ∷ [] in
    if eqb_ℤ status (pos 0)
    then (ok bytes, tried)
    else if eqb_ℤ status (neg (pos k.no_space))
    then logged tried rest
    else (failed (error_from_status status "fi_getname"), tried)

-- `attempts` rounds are left; `provider` replies for a size.
unfoldable pub name_loop : Codes → (ℕ → Reply) → ℕ → ℕ → Result (List ℕ) × List NameEffect
unfolding on_reply
name_loop k provider zero size = (err (message "libfabric: unable to retrieve endpoint name"), [])
name_loop k provider (suc attempts) size =
    on_reply k size (provider size) (name_loop k provider attempts (size * 2))

unfoldable pub name : Codes → ℕ → (ℕ → Reply) → Result (List ℕ) × List NameEffect
unfolding unavailable name_loop
name k h provider =
    if h == 0 then (err (unavailable k "fi_getname"), []) else name_loop k provider 6 128
