-- ===== src/Sock/Kernel.antt =====
-- Results of the system calls, and what C makes of them.
use iojxd.Prelude.{ℕ, ◌-◌, ◌%◌, ◌^◌, List, [], ltb, ◌==◌, if◌then◌else◌, length, take}

-- `write`: a count, or -1.
pub data Written : Type 0 where
  taken : ℕ → Written
  failed : Written

-- `size_t n = write(...)`: -1 becomes the largest 64-bit number.
unfoldable pub to_size : Written → ℕ
to_size (taken n) = n
to_size failed = 2 ^ 64 - 1

-- The bytes that left the process.
unfoldable pub sent : Written → List ℕ → List ℕ
sent (taken n) bytes = take n bytes
sent failed bytes = []

-- `read`: the bytes, none of them at the end of the stream, or -1.
pub data Received : Type 0 where
  bytes : List ℕ → Received
  failed : Received

-- The tests `n > 0`, `n < 0` and neither, of `int n = read(...)`.
pub data Sign : Type 0 where
  positive : ℕ → Sign
  negative zero : Sign

-- A 32-bit `int` out of the count.
unfoldable pub sign_of_count : ℕ → Sign
sign_of_count n =
    let m = n % 2 ^ 32 in if m == 0 then zero else if ltb m (2 ^ 31) then positive m else negative

unfoldable pub sign_of : Received → Sign
unfolding sign_of_count
sign_of (bytes bs) = sign_of_count (length bs)
sign_of failed = negative
