-- ===== src/Receiver/Errno.antt =====
-- The numbers of the C library's errno.h that the firmware returns, negated, and tests on results.
use smol_wi_fi_receiver.Base.{Bool, true, false, ◌==◌}
use smol_wi_fi_receiver.Base.Int.{ℤ, pos, negsuc}

abbrev pub eperm : ℤ
eperm = negsuc 0

abbrev pub enoent : ℤ
enoent = negsuc 1

abbrev pub ebusy : ℤ
ebusy = negsuc 15

abbrev pub enodev : ℤ
enodev = negsuc 18

abbrev pub einval : ℤ
einval = negsuc 21

abbrev pub eaddrinuse : ℤ
eaddrinuse = negsuc 111

abbrev pub same : ℤ → ℤ → Bool
same (pos m) (pos n) = m == n
same (pos m) (negsuc n) = false
same (negsuc m) (pos n) = false
same (negsuc m) (negsuc n) = m == n

-- `result == 0`
abbrev pub succeeded : ℤ → Bool
succeeded result = same result (pos 0)

-- `result < 0 ? result : 0`
abbrev pub settle : ℤ → ℤ
settle (pos n) = pos 0
settle (negsuc n) = negsuc n

-- `if (first == 0) first = second;`
abbrev pub first_error : ℤ → ℤ → ℤ
first_error first second = elim (succeeded first) [ true ↦ second | false ↦ first ]
