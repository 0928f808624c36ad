-- ===== src/Timeouts.antt =====
-- The time budgets of a request: TimeoutSeconds and `bounded_timeout` of main.cpp, Seconds and
-- Remaining of socket/Dial.cpp. Times are whole milliseconds, and clocks are read by the caller.
pub mod Laws
use lua_xenetwork.Prelude.{ℕ, ◌+◌, ◌-◌, ◌/◌, min, max, leb, ◌==◌, if◌then◌else◌, Result, ok, err}

-- `std::max(1, (milliseconds + 999) / 1000)`, for arguments at which the sum is an int.
unfoldable pub seconds : ℕ → ℕ
seconds milliseconds = max 1 ((milliseconds + 999) / 1000)

pub data TimeoutError : Type 0 where
  total_expired : ℕ → TimeoutError

-- `Remaining`: the connect timeout, or what is left of the total when that is less. A total of 0
-- is no total.
unfoldable pub remaining : ℕ → ℕ → ℕ → Result TimeoutError ℕ
remaining configured total elapsed =
    if leb total 0
    then ok configured
    else if leb total elapsed
    then err (total_expired total)
    else ok (min configured (total - elapsed))
