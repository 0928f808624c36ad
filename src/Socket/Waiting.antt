-- ===== src/Socket/Waiting.antt =====
-- When the waits of a socket end (socket/Socket.cpp, WaitReadable and ReceiveBytes).
use lua_xenetwork.Prelude.{
  ℕ, zero, suc, ◌≤◌, ◌<◌, Bool, true, false, ◌&&◌, List, [], ◌∷◌, Option, none, some, if◌then◌else◌,
  ◌≡◌, refl, arith, inl, inr, ◌⊎◌,
}
use lua_xenetwork.Socket.{
  Polled, ready, timed_out, interrupted, poll_failed, Attempt, used_up, after_poll, wait_readable,
  Peek, peeked, peer_closed, would_block, peek_failed, Found, Wait, at_hand, gives_up, marks_closed,
  pending, satisfied, wait_more, probe, wait_round, wait_bytes,
}

-- The bytes at hand are some, and as many as were asked for.
abbrev pub Enough : ℕ → Wait → Type 0
Enough max_recv (at_hand n) = (0 < n) × (max_recv ≤ n)
Enough max_recv gives_up = Unit
Enough max_recv marks_closed = Unit
Enough max_recv pending = Unit

satisfied_facts : (max_recv n : ℕ) → satisfied max_recv n ≡ true → (0 < n) × (max_recv ≤ n)
unfolding satisfied
satisfied_facts max_recv n e = (ground arith, ground arith)

if-Enough :
    (max_recv : ℕ) (b : Bool) (x y : Wait)
    → (b ≡ true → Enough max_recv x)
    → Enough max_recv y
    → Enough max_recv (if b then x else y)
if-Enough max_recv true x y p q = p refl
if-Enough max_recv false x y p q = q

wait_more-Enough :
    (max_recv : ℕ) (timed : Bool) (n : ℕ) (late : Bool) (again : Wait)
    → Enough max_recv again
    → Enough max_recv (wait_more max_recv timed n late again)
unfolding wait_more
wait_more-Enough max_recv timed n late again h =
    if-Enough max_recv (satisfied max_recv n) _ _ (satisfied_facts max_recv n)
      (if-Enough max_recv (timed && late) _ _ (λ _. tt) h)

probe-Enough :
    (max_recv : ℕ) (p : Peek) (more : Wait) → Enough max_recv more → Enough max_recv (probe p more)
unfolding probe
probe-Enough max_recv peer_closed more h = tt
probe-Enough max_recv peek_failed more h = tt
probe-Enough max_recv peeked more h = h
probe-Enough max_recv would_block more h = h

wait_round-Enough :
    (max_recv : ℕ) (timed : Bool) (n : Option ℕ) (r : Found) (again : Wait)
    → Enough max_recv again
    → Enough max_recv (wait_round max_recv timed n r again)
unfolding wait_round
wait_round-Enough max_recv timed none r again h = tt
wait_round-Enough max_recv timed (some zero) r again h =
    probe-Enough max_recv r.peek _ (wait_more-Enough max_recv timed 0 r.late again h)
wait_round-Enough max_recv timed (some (suc n)) r again h =
    wait_more-Enough max_recv timed (suc n) r.late again h

-- Nothing is read before the socket holds a byte, and as many bytes as the caller asked for.
pub wait_bytes-Enough :
    (max_recv : ℕ) (timed : Bool) (rounds : List Found)
    → Enough max_recv (wait_bytes max_recv timed rounds)
unfolding wait_bytes
wait_bytes-Enough max_recv timed [] = tt
wait_bytes-Enough max_recv timed (r ∷ rest) =
    wait_round-Enough max_recv timed r.can_recv r (wait_bytes max_recv timed rest)
      (wait_bytes-Enough max_recv timed rest)

-- `WSAPoll` said that the socket is readable before the budget was used up.
abbrev pub Readable : Option ℕ → List Attempt → Type 0
Readable timeout [] = ⊥
Readable timeout (a ∷ rest) =
    ((a.polled ≡ ready) × (used_up timeout a.spent ≡ false)) ⊎ Readable timeout rest

-- A wait that answers true was told so by `WSAPoll`, in an attempt that still had time left,
-- however often it was interrupted before.
pub wait_readable-Readable :
    (timeout : Option ℕ) (attempts : List Attempt)
    → wait_readable timeout attempts ≡ some true
    → Readable timeout attempts
unfolding wait_readable after_poll
wait_readable-Readable timeout [] e = absurd (cc)
wait_readable-Readable timeout (a ∷ rest) e =
    go (used_up timeout a.spent) refl a.polled refl e (wait_readable-Readable timeout rest)
  where
    go :
        (late : Bool)
        → used_up timeout a.spent ≡ late
        → (p : Polled) → a.polled ≡ p
        → (if late then some false else after_poll p (wait_readable timeout rest)) ≡ some true
        → (wait_readable timeout rest ≡ some true → Readable timeout rest)
        → Readable timeout (a ∷ rest)
    go true u p q e ih = absurd (cc)
    go false u ready q e ih = inl (q, u)
    go false u timed_out q e ih = absurd (cc)
    go false u interrupted q e ih = inr (ih e)
    go false u poll_failed q e ih = absurd (cc)
