-- ===== src/Timeouts/Laws.antt =====
-- What a time budget promises (main.cpp and socket/Dial.cpp).
use lua_xenetwork.Prelude.{ℕ, ◌+◌, ◌*◌, ◌≤◌, ◌<◌, ◌≡◌, ok, arith}
use lua_xenetwork.Timeouts.{seconds, remaining}

-- A socket timer armed with `Seconds` of a budget lasts at least the budget, and less than a
-- second longer, unless the budget was under a second: it then lasts one second.
pub seconds_bounds :
    (ms : ℕ)
    → (1 ≤ seconds ms) × (ms ≤ 1000 * seconds ms) × (1 ≤ ms → 1000 * seconds ms < ms + 1000)
unfolding seconds
seconds_bounds ms = (omega arith, omega arith, λ h. omega arith)

-- Later readings of the clock never leave more.
pub remaining_mono :
    (configured total earlier later : ℕ) {a b : ℕ}
    → earlier ≤ later
    → remaining configured total earlier ≡ ok a
    → remaining configured total later ≡ ok b
    → b ≤ a
unfolding remaining
remaining_mono configured total earlier later h p q = ground arith
