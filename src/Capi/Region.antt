-- ===== src/Capi/Region.antt =====
-- internal/capi/mr.go: memory regions of the C library. A pointer is a number, 0 for nil; the answers of malloc
-- and of the C library are arguments.
pub mod Vectors
use libfabric_go.Base.{
  ℕ, zero, suc, Bool, true, false, Option, none, some, List, [], ◌∷◌, ◌==◌, ◌||◌, if◌then◌else◌,
  length, ◌*◌,
}
use libfabric_go.Base.Int.{ℤ, pos}
use libfabric_go.Capi.Errors.{GoError, message, with_op, error_from_status, Result, ok, err}
use libfabric_go.Capi.Handle.{Codes, unavailable, opened}

-- `MRIOVec`
pub record IoVec : Type 0 where
  pub base : ℕ
  pub len : ℕ

-- What the vector registration does: a C array of so many bytes, the call over the array's entries.
pub data RegionEffect : Type 0 where
  array_taken : ℕ → ℕ → RegionEffect
  registered : List IoVec → RegionEffect
  array_freed : ℕ → RegionEffect

unfoldable pub mr_register : Codes → ℕ → ℕ → ℤ → ℕ → Result ℕ
unfolding unavailable error_from_status
mr_register k domain len status out =
    if domain == 0 || len == 0
    then err (unavailable k "fi_mr_reg")
    else opened (error_from_status status "fi_mr_reg") out

-- An array of C segments, by index.
abbrev pub CArray : Type 0
CArray = ℕ → IoVec

abbrev pub put : ℕ → IoVec → CArray → CArray
put i seg a j = if i == j then seg else a j

-- The loop over the segments, from the index: the filled array, none if it returns early.
unfoldable pub fill : ℕ → List IoVec → CArray → Option CArray
fill idx [] a = some a
fill idx (seg ∷ iov) a =
    let rest = fill (suc idx) iov (put idx seg a) in
    if seg.base == 0 || seg.len == 0 then none else rest

-- `count` segments from the index, as the C library reads them.
abbrev pub read_array : ℕ → ℕ → CArray → List IoVec
read_array idx zero a = []
read_array idx (suc count) a = a idx ∷ read_array (suc idx) count a

-- Behind the allocation of the array at `alloc`, which is freed on return; `a` is what it holds at first.
unfoldable pub registered_iov : List IoVec → CArray → ℕ → ℤ → ℕ → List RegionEffect × Result ℕ
unfolding fill error_from_status
registered_iov iov a alloc status out = elim (fill 0 iov a) [
  | some filled ↦ (
    registered (read_array 0 (length iov) filled) ∷ array_freed alloc ∷ [],
    opened (error_from_status status "fi_mr_regv") out,
  )
  | none ↦
      (array_freed alloc ∷ [], err (message "fi_mr_regv: segment requires base pointer and length"))
]

-- `no_memory` is FI_ENOMEM, `entry_size` the size of a C iovec.
unfoldable pub mr_register_iov :
    Codes → ℕ → ℕ → ℕ → List IoVec → CArray → ℕ → ℤ → ℕ → List RegionEffect × Result ℕ
unfolding unavailable with_op registered_iov
mr_register_iov k no_memory entry_size domain iov a alloc status out =
    if domain == 0
    then ([], err (unavailable k "fi_mr_regv"))
    else if length iov == 0
    then ([], err (message "fi_mr_regv: empty iov"))
    else if alloc == 0
    then ([], err (with_op (pos no_memory) "fi_mr_regv"))
    else let rest = registered_iov iov a alloc status out in
      (array_taken alloc (length iov * entry_size) ∷ rest.0, rest.1)

-- The getters: what the C library answers, unless the region is nil or closed.
unfoldable pub mr_key : ℕ → ℕ → ℕ
mr_key region key = if region == 0 then 0 else key

unfoldable pub mr_descriptor : ℕ → ℕ → ℕ
mr_descriptor region desc = if region == 0 then 0 else desc

unfoldable pub mr_descriptor_size : ℕ → ℕ
mr_descriptor_size region = if region == 0 then 0 else 0
