-- ===== src/Base/Int.antt =====
-- Signed times. `negsuc n` is -(n + 1).
use Prim.Native.Nat.{ℕ, ◌+◌}
use mathlib.Core.Bool.{Bool}
use smol_wi_fi_receiver.Base.Tests.{leb}

pub data ℤ : Type 0 where
  pos : ℕ → ℤ
  negsuc : ℕ → ℤ

-- `now - then >= period`, for an uptime `now`.
abbrev pub elapsed : ℕ → ℤ → ℕ → Bool
elapsed now (pos n) period = leb (n + period) now
elapsed now (negsuc n) period = leb period (now + n + 1)
