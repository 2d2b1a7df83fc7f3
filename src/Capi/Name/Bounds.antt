-- ===== src/Capi/Name/Bounds.antt =====
-- internal/capi/endpoint.go: how far the search for a name goes.
use libfabric_go.Base.{
  ℕ, zero, suc, ◌*◌, ◌≡◌, ◌≢◌, ◌≤◌, Bool, false, List, [], ◌==◌, if◌then◌else◌, arith, length,
  count_if, leb, refl, ◌<◌, ◌⊎◌, ◌^◌,
}
use libfabric_go.Base.Int.{pos, neg}
use libfabric_go.Capi.Errors.{message, Result, ok, err, with_op}
use libfabric_go.Capi.Errors.Laws.{error_of_code}
use libfabric_go.Capi.Handle.{Codes}
use libfabric_go.Capi.Name.{Reply, answers, NameEffect, allocated, freed, name_loop, on_reply, name}

abbrev pub is_allocated : ℕ → NameEffect → Bool
is_allocated n (allocated m) = m == n
is_allocated n _ = false

abbrev pub is_freed : ℕ → NameEffect → Bool
is_freed n (freed m) = m == n
is_freed n _ = false

-- A provider with a name, which answers a buffer that is too small with the code.
abbrev pub provider_of : ℕ → List ℕ → ℕ → Reply
provider_of short bytes size =
    if leb (length bytes) size then answers (pos 0) bytes else answers (neg (pos short)) []

-- The size after a number of doublings.
abbrev pub doubled : ℕ → ℕ → ℕ
doubled zero size = size
doubled (suc n) size = doubled n (size * 2)

doubled-≤ : (n size : ℕ) → size ≤ doubled n size
doubled-≤ zero size = omega arith
doubled-≤ (suc n) size = omega (arith, doubled-≤ n (size * 2))

-- The name, if it fits the last size.
abbrev pub named : List ℕ → ℕ → Result (List ℕ)
named bytes last =
    if leb (length bytes) last
    then ok bytes
    else err (message "libfabric: unable to retrieve endpoint name")

name_loop-named :
    (k : Codes) (bytes : List ℕ) (attempts size : ℕ)
    → k.no_space ≢ 0
    → (name_loop k (provider_of k.no_space bytes) (suc attempts) size).0
      ≡ named bytes (doubled attempts size)
unfolding name_loop
name_loop-named k bytes zero size ne = ground (arith, ne)
name_loop-named k bytes (suc attempts) size ne =
    let rest = name_loop-named k bytes attempts (size * 2) ne in
    ground (arith, ne, rest, doubled-≤ (suc attempts) size)

pub name-named :
    (k : Codes) (h : ℕ) (bytes : List ℕ)
    → h ≢ 0
    → k.no_space ≢ 0
    → (name k h (provider_of k.no_space bytes)).0 ≡ named bytes 4096
unfolding name
name-named k h bytes live ne = ground (arith, live, name_loop-named k bytes 5 128 ne)

-- In how many rounds a buffer of the size is allocated.
allocated_rounds :
    (k : Codes) (size n : ℕ) (r : Reply) (rest : Result (List ℕ) × List NameEffect)
    → count_if (is_allocated n) rest.1 ≡ count_if (is_freed n) rest.1
    → count_if (is_allocated n) (on_reply k size r rest).1
      ≡ count_if (is_freed n) (on_reply k size r rest).1
unfolding on_reply
allocated_rounds k size n r rest e = ground (arith, e)

name_loop-frees :
    (k : Codes) (provider : ℕ → Reply) (attempts size n : ℕ)
    → count_if (is_allocated n) (name_loop k provider attempts size).1
      ≡ count_if (is_freed n) (name_loop k provider attempts size).1
unfolding name_loop
name_loop-frees k provider zero size n = refl
name_loop-frees k provider (suc attempts) size n =
    allocated_rounds k size n (provider size) _ (name_loop-frees k provider attempts (size * 2) n)

-- Sizes above the last one are not allocated, and each round leaves at most two effects.
on_reply_small :
    (k : Codes) (size n last : ℕ) (r : Reply) (rest : Result (List ℕ) × List NameEffect)
    → size ≤ last
    → last < n
    → count_if (is_allocated n) rest.1 ≡ 0
    → count_if (is_allocated n) (on_reply k size r rest).1 ≡ 0
unfolding on_reply
on_reply_small k size n last r rest s l e = ground (arith, e)

name_loop_small :
    (k : Codes) (provider : ℕ → Reply) (attempts size n : ℕ)
    → doubled attempts size < n
    → count_if (is_allocated n) (name_loop k provider (suc attempts) size).1 ≡ 0
unfolding name_loop
name_loop_small k provider zero size n l =
    on_reply_small k size n size (provider size) _ (omega arith) l refl
name_loop_small k provider (suc attempts) size n l =
    on_reply_small k size n (doubled (suc attempts) size) (provider size) _
      (doubled-≤ (suc attempts) size) l (name_loop_small k provider attempts (size * 2) n l)

on_reply_length :
    (k : Codes) (size : ℕ) (r : Reply) (rest : Result (List ℕ) × List NameEffect)
    → length (on_reply k size r rest).1 ≤ suc (suc (length rest.1))
unfolding on_reply
on_reply_length k size r rest = ground arith

name_loop_length :
    (k : Codes) (provider : ℕ → Reply) (attempts size : ℕ)
    → length (name_loop k provider attempts size).1 ≤ attempts * 2
unfolding name_loop
name_loop_length k provider zero size = omega arith
name_loop_length k provider (suc attempts) size =
    let rest = name_loop k provider attempts (size * 2) in
    omega (
      arith,
      on_reply_length k size (provider size) rest,
      name_loop_length k provider attempts (size * 2),
    )

-- The first round ends the search, for a code other than that for no space.
name_loop_short :
    (k : Codes) (short : ℕ) (bytes : List ℕ) (attempts size : ℕ)
    → short ≢ 0
    → short ≢ k.no_space
    → short < 2 ^ 31
    → (name_loop k (provider_of short bytes) (suc attempts) size).0
      ≡ (if leb (length bytes) size then ok bytes else err (with_op (pos short) "fi_getname"))
unfolding name_loop on_reply
name_loop_short k zero bytes attempts size z d b = absurd (z refl)
name_loop_short k (suc c) bytes attempts size z d b =
    ground (arith, d, error_of_code c "fi_getname" b)

-- Name, on an open endpoint. With a provider that answers a buffer that is too small with a code
-- other than FI_ENOSPC, such as FI_ETOOSMALL, it finds every name of at most 128 bytes and fails with this code
-- on every longer one; with a provider that answers FI_ENOSPC, it finds every name of at most 4096 bytes
-- and fails on every longer one. With any provider it makes at most six rounds, frees every buffer as
-- often as it allocates one of this size, and allocates none of more than 4096 bytes.
pub name_total :
    (k : Codes) (h short : ℕ)
    → h ≢ 0
    → k.no_space ≢ 0
    → short ≢ 0
    → short ≢ k.no_space
    → short < 2 ^ 31
    → ((bytes : List ℕ)
        → (name k h (provider_of short bytes)).0
          ≡ (if leb (length bytes) 128 then ok bytes else err (with_op (pos short) "fi_getname")))
      × ((bytes : List ℕ) → (name k h (provider_of k.no_space bytes)).0 ≡ named bytes 4096)
      × ((provider : ℕ → Reply) (n : ℕ)
          → let log = (name k h provider).1 in
            (length log ≤ 6 * 2)
            × (count_if (is_allocated n) log ≡ count_if (is_freed n) log)
            × ((n ≤ 4096) ⊎ (count_if (is_allocated n) log ≡ 0)))
unfolding name
name_total k h short live ne z d b = (
  λ bytes. ground (arith, live, name_loop_short k short bytes 5 128 z d b),
  λ bytes. name-named k h bytes live ne,
  λ provider n. (
    ground (arith, live, name_loop_length k provider 6 128),
    ground (arith, live, name_loop-frees k provider 6 128 n),
    ground (arith, live, name_loop_small k provider 5 128 n),
  ),
)
