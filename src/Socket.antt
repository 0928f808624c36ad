-- ===== src/Socket.antt =====
-- The blocking reads of an accepted socket (socket/Socket.cpp, WaitReadable, ReceiveBytes and
-- ReceiveLine). What Winsock and the clock answer is an argument.
pub mod Waiting
pub mod Reading
use lua_xenetwork.Prelude.{
  ℕ, zero, suc, ◌+◌, ◌-◌, Bool, true, false, not, ◌&&◌, List, [], ◌∷◌, ◌++◌, Option, none, some,
  Bytes, length, ltb, leb, ◌==◌, if◌then◌else◌,
}

-- One attempt of `WSAPoll`: the milliseconds spent before it, and its answer.
pub data Polled : Type 0 where
  ready timed_out interrupted poll_failed : Polled

pub record Attempt : Type 0 where
  pub spent : ℕ
  pub polled : Polled

-- A budget that is used up; there is none when the wait is indefinite.
unfoldable pub used_up : Option ℕ → ℕ → Bool
used_up none spent = false
used_up (some timeout) spent = leb timeout spent

-- How a wait goes on after `WSAPoll`, given what it does when it is interrupted.
unfoldable pub after_poll : Polled → Option Bool → Option Bool
after_poll ready again = some true
after_poll timed_out again = some false
after_poll interrupted again = again
after_poll poll_failed again = some false

-- `WaitReadable` on an open socket; `none` while it waits behind the attempts given.
unfoldable pub wait_readable : Option ℕ → List Attempt → Option Bool
wait_readable timeout [] = none
wait_readable timeout (a ∷ rest) =
    let again = wait_readable timeout rest in
    if used_up timeout a.spent then some false else after_poll a.polled again

-- What a round of `ReceiveBytes` finds: FIONREAD, the peek of one byte, and whether the deadline
-- has passed.
pub data Peek : Type 0 where
  peeked peer_closed would_block peek_failed : Peek

pub record Found : Type 0 where
  pub can_recv : Option ℕ
  pub peek : Peek
  pub late : Bool

-- The first loop's end: it has this many bytes at hand, or returns an empty text (also marking the
-- socket as closed), or is still in the loop behind the rounds given.
pub data Wait : Type 0 where
  at_hand : ℕ → Wait
  gives_up marks_closed pending : Wait

unfoldable pub satisfied : ℕ → ℕ → Bool
satisfied max_recv can_recv = if max_recv == 0 then ltb 0 can_recv else leb max_recv can_recv

unfoldable pub wait_more : ℕ → Bool → ℕ → Bool → Wait → Wait
wait_more max_recv timed n late again =
    if satisfied max_recv n then at_hand n else if timed && late then gives_up else again

-- An empty socket is probed for its end or an error.
unfoldable pub probe : Peek → Wait → Wait
probe peer_closed more = marks_closed
probe peek_failed more = gives_up
probe peeked more = more
probe would_block more = more

unfoldable pub wait_round : ℕ → Bool → Option ℕ → Found → Wait → Wait
wait_round max_recv timed none r again = gives_up
wait_round max_recv timed (some zero) r again =
    probe r.peek (wait_more max_recv timed 0 r.late again)
wait_round max_recv timed (some (suc n)) r again = wait_more max_recv timed (suc n) r.late again

unfoldable pub wait_bytes : ℕ → Bool → List Found → Wait
wait_bytes max_recv timed [] = pending
wait_bytes max_recv timed (r ∷ rest) =
    wait_round max_recv timed r.can_recv r (wait_bytes max_recv timed rest)

-- What one `recv` of the second loop returns.
pub data Got : Type 0 where
  got : Bytes → Got
  shut broken : Got

abbrev pub zeros : ℕ → Bytes
zeros zero = []
zeros (suc n) = 0 ∷ zeros n

-- The second loop: the text is made longer by `max_recv` in every round, and `recv` writes from the
-- start of what was added.
unfoldable pub read_rest : List Got → Bytes → ℕ → Option Bytes
read_rest reads ret zero = some ret
read_rest [] ret (suc n) = none
read_rest (shut ∷ reads) ret (suc n) = some (ret ++ zeros (suc n))
read_rest (broken ∷ reads) ret (suc n) = some []
read_rest (got bytes ∷ reads) ret (suc n) =
    read_rest reads (ret ++ (bytes ++ zeros (suc n - length bytes))) (suc n - length bytes)

unfoldable pub read_all : ℕ → List Got → Wait → Option Bytes
read_all max_recv reads (at_hand n) = read_rest reads [] (if max_recv == 0 then n else max_recv)
read_all max_recv reads gives_up = some []
read_all max_recv reads marks_closed = some []
read_all max_recv reads pending = none

-- `ReceiveBytes`; `none` while it waits.
unfoldable pub receive_bytes : ℕ → Bool → List Found → List Got → Option Bytes
receive_bytes max_recv timed rounds reads =
    read_all max_recv reads (wait_bytes max_recv timed rounds)

-- `ReceiveLine`, on the bytes to come before the connection ends: whether its end is an error, and
-- the text with the bytes that are left.
unfoldable pub receive_line : Bool → Bytes → Bytes → Bytes × Bytes
receive_line fails ret [] = (if fails then [] else ret, [])
receive_line fails ret (c ∷ s) =
    let rest = receive_line fails (ret ++ c ∷ []) s in
    if c == b'\n' then (ret ++ c ∷ [], s) else rest
