-- ===== src/Capi/Region/Vectors.antt =====
-- internal/capi/mr.go: the registration of segments.
use libfabric_go.Capi.Handle.{Codes, unavailable, opened}
use libfabric_go.Capi.Errors.{Result, GoError, err, message, with_op, error_from_status}
use libfabric_go.Capi.Region.{
  IoVec, CArray, put, fill, read_array, mr_register_iov, RegionEffect, registered_iov, array_taken,
  registered, array_freed,
}
use libfabric_go.Base.{
  ℕ, zero, suc, ◌<◌, ◌≡◌, ◌≢◌, refl, ◌∙◌, List, [], ◌∷◌, ◌==◌, ◌||◌, true, false, arith, Bool-cases,
  inl, inr, ◌⊎◌, length, ◌*◌, some, none, Bool, if◌then◌else◌, ==_refl, ap,
}
use libfabric_go.Base.Int.{ℤ, pos}

-- Every segment has a base and a length, as a test of its own.
abbrev pub each_filled : List IoVec → Bool
each_filled [] = true
each_filled (seg ∷ iov) = if seg.base == 0 || seg.len == 0 then false else each_filled iov

read_array-put :
    (count idx i : ℕ) (seg : IoVec) (a : CArray)
    → i < idx
    → read_array idx count (put i seg a) ≡ read_array idx count a
read_array-put zero idx i seg a h = refl
read_array-put (suc count) idx i seg a h =
    let other : (i == idx) ≡ false = ground (arith, h) in
    rw (other, read_array-put count (suc idx) i seg a (omega (arith, h))) refl

-- What the loop leaves below its index, and what it writes.
fill_below :
    (iov : List IoVec) (idx i : ℕ) (a filled : CArray)
    → i < idx
    → fill idx iov a ≡ some filled
    → filled i ≡ a i
unfolding fill
fill_below [] idx i a filled h e = ground (arith, e)
fill_below (seg ∷ iov) idx i a filled h e =
    let other : (idx == i) ≡ false = ground (arith, h) in
    let tail : fill (suc idx) iov (put idx seg a) ≡ some filled = ground (arith, e) in
    fill_below iov (suc idx) i (put idx seg a) filled (omega (arith, h)) tail ∙ rw other refl

fill_reads :
    (iov : List IoVec) (idx : ℕ) (a filled : CArray)
    → fill idx iov a ≡ some filled
    → read_array idx (length iov) filled ≡ iov
unfolding fill
fill_reads [] idx a filled e = refl
fill_reads (seg ∷ iov) idx a filled e =
    let tail : fill (suc idx) iov (put idx seg a) ≡ some filled = ground (arith, e) in
    let head = fill_below iov (suc idx) idx (put idx seg a) filled (omega arith) tail in
    let first : filled idx ≡ seg = head ∙ rw (==_refl idx) refl in
    rw (first, fill_reads iov (suc idx) (put idx seg a) filled tail) refl

fill_ends :
    (iov : List IoVec) (idx : ℕ) (a : CArray)
    → (each_filled iov ≡ true → (filled : CArray) × (fill idx iov a ≡ some filled))
      × (each_filled iov ≡ false → fill idx iov a ≡ none)
unfolding fill
fill_ends [] idx a = (λ e. (a, refl), λ e. ground (arith, e))
fill_ends (seg ∷ iov) idx a =
    let (f, g) = fill_ends iov (suc idx) (put idx seg a) in
    elim (Bool-cases (seg.base == 0 || seg.len == 0)) [
      | inl x ↦ (λ e. absurd (ground (arith, x, e)), λ e. rw x refl)
      | inr x ↦ (
        λ e. let (filled, t) = f (ground (arith, x, e)) in (filled, rw x t),
        λ e. rw x (g (ground (arith, x, e))),
      )
    ]

-- Behind the allocation, with all segments filled and with one that is not.
registered_iov-filled :
    (iov : List IoVec) (a : CArray) (alloc : ℕ) (status : ℤ) (out : ℕ)
    → each_filled iov ≡ true
    → registered_iov iov a alloc status out ≡ (
      registered iov ∷ array_freed alloc ∷ [],
      opened (error_from_status status "fi_mr_regv") out,
    )
unfolding registered_iov
registered_iov-filled iov a alloc status out f =
    let (filled, e) = (fill_ends iov 0 a).0 f in
    rw (registered_iov, e)
      (ap
        (λ (read : List IoVec). (
          registered read ∷ array_freed alloc ∷ [],
          opened (error_from_status status "fi_mr_regv") out,
        ))
        (fill_reads iov 0 a filled e))

registered_iov-unfilled :
    (iov : List IoVec) (a : CArray) (alloc : ℕ) (status : ℤ) (out : ℕ)
    → each_filled iov ≡ false
    → registered_iov iov a alloc status out ≡ (
      array_freed alloc ∷ [],
      err (message "fi_mr_regv: segment requires base pointer and length"),
    )
unfolding registered_iov
registered_iov-unfilled iov a alloc status out f = rw (registered_iov, (fill_ends iov 0 a).1 f) refl

-- What RegisterMemoryIOV leaves, by what it is given: a refusal that touches nothing without a domain, a
-- segment or an array; else the array for all segments is taken, and freed last, once. In between, if every
-- segment has a base and a length, the C library gets all segments in their order and its answer is
-- the result; and if one has not, the C library gets nothing and the result is an error.
unfoldable pub IovOutcome : ℕ → ℕ → List IoVec → ℕ → ℤ → ℕ → List RegionEffect × Result ℕ → Type 0
IovOutcome size domain iov alloc status out (effects, r) =
    (((domain ≡ 0) ⊎ (length iov ≡ 0) ⊎ (alloc ≡ 0))
      × (effects ≡ [])
      × ((e : GoError) × (r ≡ err e)))
    ⊎ ((domain ≢ 0)
        × (length iov ≢ 0)
        × (alloc ≢ 0)
        × (each_filled iov ≡ true)
        × (effects
            ≡ array_taken alloc (length iov * size) ∷ registered iov ∷ array_freed alloc ∷ [])
        × (r ≡ opened (error_from_status status "fi_mr_regv") out))
    ⊎ ((domain ≢ 0)
        × (length iov ≢ 0)
        × (alloc ≢ 0)
        × (each_filled iov ≡ false)
        × (effects ≡ array_taken alloc (length iov * size) ∷ array_freed alloc ∷ [])
        × ((e : GoError) × (r ≡ err e)))

-- RegisterMemoryIOV, whatever malloc, the array at first and the C library answer: without a domain, a segment
-- or an array it fails and touches nothing. Else the array for all the segments is freed once and last: if
-- every segment has a base and a length, the C library reads from it, in between, exactly the
-- segments in their order, and its answer is the result; if one has not, the C library gets nothing and the
-- result is an error.
pub mr_register_iov-IovOutcome :
    (k : Codes) (no_memory size domain : ℕ) (iov : List IoVec) (a : CArray) (alloc : ℕ) (status : ℤ)
    (out : ℕ)
    → IovOutcome size domain iov alloc status out
        (mr_register_iov k no_memory size domain iov a alloc status out)
unfolding mr_register_iov IovOutcome
mr_register_iov-IovOutcome k no_memory size domain iov a alloc status out =
    elim (Bool-cases (domain == 0)) [
      | inl d ↦ rw d (inl (inl (ground (arith, d)), refl, (unavailable k "fi_mr_regv", refl)))
      | inr d ↦ elim (Bool-cases (length iov == 0)) [
        | inl z ↦
            rw (d, z)
              (inl (inr (inl (ground (arith, z))), refl, (message "fi_mr_regv: empty iov", refl)))
        | inr z ↦ elim (Bool-cases (alloc == 0)) [
          | inl n ↦
              rw (d, z, n)
                (inl (
                  inr (inr (ground (arith, n))),
                  refl,
                  (with_op (pos no_memory) "fi_mr_regv", refl),
                ))
          | inr n ↦ elim (Bool-cases (each_filled iov)) [
            | inl f ↦
                rw (d, z, n, registered_iov-filled iov a alloc status out f)
                  (inr
                    (inl (ground (arith, d), ground (arith, z), ground (arith, n), f, refl, refl)))
            | inr f ↦
                rw (d, z, n, registered_iov-unfilled iov a alloc status out f)
                  (inr (
                    inr (
                      ground (arith, d),
                      ground (arith, z),
                      ground (arith, n),
                      f,
                      refl,
                      (message "fi_mr_regv: segment requires base pointer and length", refl),
                    )))
          ]
        ]
      ]
    ]
