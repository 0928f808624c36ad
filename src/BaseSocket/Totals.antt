-- ===== src/BaseSocket/Totals.antt =====
-- What the loops of reads and writes return (socket/BaseSock.cpp, CBaseSock::Recv and Send).
use lua_xenetwork.Prelude.{
  ℕ, zero, suc, ◌+◌, ◌-◌, ◌%◌, ◌≤◌, ◌<◌, All, Option, none, some, Bool, true, false, ◌&&◌, List, [],
  ◌∷◌, ltb, leb, ◌==◌, if◌then◌else◌, ◌≡◌, refl, sym, subst, arith,
}
use lua_xenetwork.BaseSocket.{
  Io, Base, Count, socket_error, count, Overlapped, wait_for, complete, bad_end, end_recv,
  begin_recv, recv_partial, Total, total, failed_total, waiting, next_round, recv_loop, recv,
  after_reset, end_send, send_partial, stopped_at, send_loop, send,
}

-- A count is within what was asked for, and leaves a state that satisfies `P`.
abbrev Counts : (Base → Type 0) → ℕ → Count × Base → Type 0
Counts P len (socket_error, s) = Unit
Counts P len (count n, s) = (n ≤ len) × P s

abbrev Idle : Base → Type 0
Idle s = s.recv_initiated ≡ none

abbrev Whatever : Base → Type 0
Whatever s = Unit

if-Counts :
    (P : Base → Type 0) (len : ℕ) (b : Bool) (x y : Count × Base)
    → Counts P len x
    → Counts P len y
    → Counts P len (if b then x else y)
if-Counts P len true x y p q = p
if-Counts P len false x y p q = q

bad_end-Counts : (P : Base → Type 0) (len : ℕ) (s : Base) (e : ℕ) → P s → Counts P len (bad_end s e)
unfolding bad_end
bad_end-Counts P len s e h = if-Counts P len (e == 0) _ _ (omega arith, h) tt

-- Winsock: an operation moves no more bytes than it was begun with.
abbrev pub Moves : Io → Type 0
Moves io = (begun : ℕ) → (io.overlapped begun).bytes ≤ begun

-- A read that was begun with a length that fits.
abbrev pub Fits : ℕ → Option ℕ → Type 0
Fits len none = Unit
Fits len (some begun) = begun ≤ len

end_recv-Counts :
    (len : ℕ) (o : Overlapped) (w : Bool × ℕ) (s : Base)
    → o.bytes ≤ len
    → Counts Idle len (end_recv o w s)
unfolding end_recv
end_recv-Counts len o (false, e) s h = tt
end_recv-Counts len o (true, e) s h =
    if-Counts Idle len (o.succeeded && ltb 0 o.bytes) _ _ (h, refl)
      (bad_end-Counts Idle len _ o.error refl)

begin_recv-Counts :
    (len : ℕ) (io : Io) (b : Option ℕ) (s : Base)
    → Moves io
    → Fits len b
    → Counts Idle len (begin_recv len io b s)
unfolding begin_recv
begin_recv-Counts len io (some begun) s m h =
    let moved = m begun in
    end_recv-Counts len (io.overlapped begun) (wait_for io.event) s (omega arith)
begin_recv-Counts len io none s m h =
    if-Counts Idle len io.reset.failed _ _ tt
      (end_recv-Counts len (io.overlapped len) (complete io.call io.event) _ (m len))

recv_partial-Counts :
    (len : ℕ) (io : Io) (s : Base)
    → Moves io
    → Fits len s.recv_initiated
    → Counts Idle len (recv_partial len io s)
unfolding recv_partial
recv_partial-Counts len io s m h =
    if-Counts Idle len (leb s.recv_end_time io.now) _ _ tt
      (begin_recv-Counts len io s.recv_initiated s m h)

end_send-Counts :
    (len : ℕ) (o : Overlapped) (w : Bool × ℕ) (s : Base)
    → o.bytes ≤ len
    → Counts Whatever len (end_send o w s)
unfolding end_send
end_send-Counts len o (false, e) s h = tt
end_send-Counts len o (true, e) s h =
    if-Counts Whatever len o.succeeded _ _ (h, tt) (bad_end-Counts Whatever len _ o.error tt)

after_reset-Counts :
    (len : ℕ) (r : Count × Base) → Counts Whatever len r → Counts Whatever len (after_reset r)
unfolding after_reset
after_reset-Counts len (count n, s) h = h
after_reset-Counts len (socket_error, s) h = tt

send_partial-Counts :
    (len : ℕ) (io : Io) (s : Base) → Moves io → Counts Whatever len (send_partial len io s)
unfolding send_partial
send_partial-Counts len io s m = if-Counts Whatever len io.reset.failed _ _ tt (
    if-Counts Whatever len (leb s.send_end_time io.now) _ _ tt (
      after_reset-Counts len _
        (end_send-Counts len (io.overlapped len) (complete io.call io.event) s (m len))))

-- A total that is returned is no more than was asked for.
abbrev pub Within : ℕ → Total × Base → Type 0
Within len (total n, s) = n ≤ len
Within len (failed_total, s) = Unit
Within len (waiting, s) = Unit

if-Within :
    (len : ℕ) (b : Bool) (x y : Total × Base)
    → Within len x
    → Within len y
    → Within len (if b then x else y)
if-Within len true x y p q = p
if-Within len false x y p q = q

next_round-Within :
    (P : Base → Type 0) (len sum : ℕ) (at_end : Total) (r : Count × Base)
    (again : ℕ → Base → Total × Base)
    → sum ≤ len
    → ((s : Base) → Within len (at_end, s))
    → Counts P (len - sum) r
    → ((n : ℕ) (s : Base) → sum + n ≤ len → P s → Within len (again n s))
    → Within len (next_round at_end r again)
unfolding next_round
next_round-Within P len sum at_end (socket_error, s) again h e c k = tt
next_round-Within P len sum at_end (count zero, s) again h e c k = e s
next_round-Within P len sum at_end (count (suc n), s) again h e c k = k (suc n) s (omega arith) c.1

idle-Fits : (len : ℕ) (b : Option ℕ) → b ≡ none → Fits len b
idle-Fits len b e = subst (Fits len) (sym e) tt

recv_loop-Within :
    (len min_len sum : ℕ) (ios : List Io) (s : Base)
    → All Moves ios
    → sum ≤ len
    → Fits (len - sum) s.recv_initiated
    → Within len (recv_loop len min_len sum ios s)
unfolding recv_loop
recv_loop-Within len min_len sum [] s m h f = if-Within len (leb min_len sum) _ _ h tt
recv_loop-Within len min_len sum (io ∷ rest) s m h f = if-Within len (leb min_len sum) _ _ h (
    next_round-Within Idle len sum (total sum) (recv_partial (len - sum) io s) _ h (λ t. h)
      (recv_partial-Counts (len - sum) io s m.0 f)
      (λ n t k idle.
        recv_loop-Within len min_len (sum + n) rest t m.1 k (idle-Fits _ t.recv_initiated idle)))

less_nothing : (len : ℕ) → len - 0 ≡ len
less_nothing len = omega arith

-- `Recv` never reports more bytes than the buffer holds, however its reads are cut, time out or
-- fail, if a read that an earlier call left active was begun with a buffer that is no longer and
-- Winsock moves no more bytes than an operation was begun with.
pub recv-Within :
    (len min_len : ℕ) (ios : List Io) (s : Base)
    → All Moves ios
    → Fits len s.recv_initiated
    → Within len (recv len min_len ios s)
unfolding recv
recv-Within len min_len ios s m f =
    recv_loop-Within len min_len 0 ios s m (omega arith)
      (subst (λ n. Fits n s.recv_initiated) (sym (less_nothing len)) f)

stopped_at-Within : (len sum : ℕ) (s : Base) → sum ≤ len → Within len (stopped_at sum, s)
stopped_at-Within len zero s h = tt
stopped_at-Within len (suc n) s h = h

send_loop-Within :
    (len sum : ℕ) (ios : List Io) (s : Base)
    → len < 4294967296
    → All Moves ios
    → sum ≤ len
    → Within len (send_loop len sum ios s)
unfolding send_loop
send_loop-Within len sum [] s b m h = if-Within len (leb len sum) _ _ h tt
send_loop-Within len sum (io ∷ rest) s b m h = if-Within len (leb len sum) _ _ h (
    next_round-Within Whatever len sum (stopped_at sum) (send_partial (len - sum) io s) _ h
      (λ t. stopped_at-Within len sum t h) (send_partial-Counts (len - sum) io s m.0)
      (λ n t k any. send_loop-Within len ((sum + n) % 4294967296) rest t b m.1 (omega arith)))

-- `Send` of a length that is an int never reports more bytes than it was given, however its writes
-- are cut, time out or fail, if Winsock moves no more bytes than an operation was begun with.
pub send-Within :
    (len : ℕ) (ios : List Io) (s : Base)
    → len < 2147483648
    → All Moves ios
    → Within len (send len ios s)
unfolding send
send-Within len ios s b m = send_loop-Within len 0 ios s (omega arith) m (omega arith)
