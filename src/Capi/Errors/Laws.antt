-- ===== src/Capi/Errors/Laws.antt =====
-- internal/capi/errors.go: which statuses become errors, and which error they become.
use libfabric_go.Base.{none, ℕ, suc, ◌^◌, ◌<◌, ◌≡◌, String, some, arith, ◌↔◌}
use libfabric_go.Base.Int.{ℤ, pos, negsuc, neg, int32, eqb_ℤ, sub_ℕ, int32-pos, neg_part}
use libfabric_go.Capi.Errors.{GoError, is_errno, with_op, error_from_status, must_succeed, returns}

is_errno-with_op : (n : ℤ) (op : String) → is_errno n (with_op n op) ≡ eqb_ℤ n n
unfolding is_errno with_op
is_errno-with_op n op = ground arith

sub_ℕ-zero : (n : ℕ) → sub_ℕ n 0 ≡ pos n
sub_ℕ-zero n = ground arith

-- The code that a negative status carries.
pub code_of_negative : (n : ℕ) → suc n < 2 ^ 31 → int32 (neg (negsuc n)) ≡ pos (suc n)
code_of_negative n h = rw (sub_ℕ-zero (suc n)) (int32-pos (suc n) h)

-- The error of a negative status above -2^31, and none for the others.
pub error_of_code :
    (n : ℕ) (op : String)
    → suc n < 2 ^ 31
    → error_from_status (negsuc n) op ≡ some (with_op (pos (suc n)) op)
unfolding error_from_status
error_of_code n op h = rw (code_of_negative n h) (ground arith)

pub no_error : (n : ℕ) (op : String) → error_from_status (pos n) op ≡ none
unfolding error_from_status
no_error n op = ground arith

-- A status -(n + 1) with n + 1 below 2^31 becomes an error, which `errors.Is` finds to be the code
-- n + 1 and no other code, whatever the operation's name.
pub error_from_status-is_errno :
    (n : ℕ) (op : String)
    → suc n < 2 ^ 31
    → (e : GoError) × (error_from_status (negsuc n) op ≡ some e)
      × ((m : ℤ) → is_errno m e ≡ eqb_ℤ (pos (suc n)) m)
unfolding error_from_status is_errno
error_from_status-is_errno n op h =
    (with_op (pos (suc n)) op, rw (code_of_negative n h) (ground arith), λ m. ground arith)

-- A status that is not negative is success: no error, and `MustSucceed` returns. A negative one above
-- -2^31 makes `MustSucceed` panic.
pub must_succeed_iff :
    (status : ℤ) (op : String)
    → neg_part status < 2 ^ 31
    → (must_succeed status op ≡ returns) ↔ (neg_part status ≡ 0)
unfolding must_succeed
must_succeed_iff (pos n) op h = ground arith
must_succeed_iff (negsuc n) op h = rw (code_of_negative n h, must_succeed) (ground arith)
