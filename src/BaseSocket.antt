-- ===== src/BaseSocket.antt =====
-- The overlapped reads and writes of a socket (socket/BaseSock.cpp, CBaseSock::RecvPartial, Recv,
-- SendPartial and Send). What the clock, Winsock and the wait answer in one of these is an `Io`.
pub mod Totals
use lua_xenetwork.Prelude.{
  ℕ, zero, suc, ◌+◌, ◌-◌, ◌%◌, Option, none, some, Bool, true, false, not, ◌&&◌, List, [], ◌∷◌, ltb,
  leb, ◌==◌, if◌then◌else◌,
}

-- `WSARecv` or `WSASend`: whether it is SOCKET_ERROR, and `WSAGetLastError`.
pub record Call : Type 0 where
  pub failed : Bool
  pub error : ℕ

-- `WaitForMultipleObjects` on the stop event and the event of the operation.
pub data Event : Type 0 where
  signalled stopped abandoned wait_timed_out : Event
  wait_failed : ℕ → Event

-- `WSAGetOverlappedResult`: whether it succeeds, the bytes at hand, and `WSAGetLastError`.
pub record Overlapped : Type 0 where
  pub succeeded : Bool
  pub bytes : ℕ
  pub error : ℕ

-- The overlapped result depends on the length that the operation was begun with.
pub record Io : Type 0 where
  pub now : ℕ
  pub reset : Call
  pub call : Call
  pub event : Event
  pub overlapped : ℕ → Overlapped

-- `RecvInitiated` comes with the length that the active read was begun with.
pub record Base : Type 0 where
  pub recv_initiated : Option ℕ
  pub last_error : ℕ
  pub recv_end_time : ℕ
  pub send_end_time : ℕ
  pub disconnected : Bool

-- SOCKET_ERROR, or a count of bytes, which is 0 when the connection was closed.
pub data Count : Type 0 where
  socket_error : Count
  count : ℕ → Count

-- ERROR_TIMEOUT, WSA_IO_PENDING and WSAECONNRESET.
abbrev pub error_timeout : ℕ
error_timeout = 1460

abbrev pub io_pending : ℕ
io_pending = 997

abbrev pub connection_reset : ℕ
connection_reset = 10054

-- Whether the operation has completed, and `LastError`.
unfoldable pub wait_for : Event → Bool × ℕ
wait_for signalled = (true, 0)
wait_for stopped = (false, io_pending)
wait_for abandoned = (false, io_pending)
wait_for wait_timed_out = (false, error_timeout)
wait_for (wait_failed e) = (false, e)

unfoldable pub complete : Call → Event → Bool × ℕ
complete call event =
    if not call.failed
    then (true, call.error)
    else if call.error == io_pending
    then wait_for event
    else (false, call.error)

abbrev pub with_error : Base → ℕ → Base
with_error s e = record s { last_error = e }

-- A bad end of a completed operation: an error code of 0 means that the connection was closed, and
-- an error that is there already is kept.
unfoldable pub bad_end : Base → ℕ → Count × Base
bad_end s e =
    if e == 0 then (count 0, s) else (socket_error, if s.last_error == 0 then with_error s e else s)

unfoldable pub end_recv : Overlapped → Bool × ℕ → Base → Count × Base
end_recv o (false, e) s = (socket_error, with_error s e)
end_recv o (true, e) s =
    let t = record s { last_error = e; recv_initiated = none } in
    if o.succeeded && ltb 0 o.bytes then (count o.bytes, t) else bad_end t o.error

-- A read that was left active, of its own length, is waited for; otherwise one is begun.
unfoldable pub begin_recv : ℕ → Io → Option ℕ → Base → Count × Base
begin_recv len io (some begun) s = end_recv (io.overlapped begun) (wait_for io.event) s
begin_recv len io none s =
    if io.reset.failed
    then (socket_error, with_error s io.reset.error)
    else end_recv (io.overlapped len) (complete io.call io.event)
        (record s { recv_initiated = some len })

-- `RecvPartial`.
unfoldable pub recv_partial : ℕ → Io → Base → Count × Base
recv_partial len io s =
    if leb s.recv_end_time io.now
    then (socket_error, with_error s error_timeout)
    else begin_recv len io s.recv_initiated s

-- What `Recv` and `Send` return, or that they are still waiting behind the operations given.
pub data Total : Type 0 where
  total : ℕ → Total
  failed_total waiting : Total

-- How a loop goes on after one operation: it stops at an error, and at 0 bytes with `at_end`.
unfoldable pub next_round : Total → Count × Base → (ℕ → Base → Total × Base) → Total × Base
next_round at_end (socket_error, s) again = (failed_total, s)
next_round at_end (count zero, s) again = (at_end, s)
next_round at_end (count (suc n), s) again = again (suc n) s

-- The loop of `Recv` with `sum` bytes received.
unfoldable pub recv_loop : ℕ → ℕ → ℕ → List Io → Base → Total × Base
recv_loop len min_len sum [] s = if leb min_len sum then (total sum, s) else (waiting, s)
recv_loop len min_len sum (io ∷ rest) s =
    let again : ℕ → Base → Total × Base = (λ n t. recv_loop len min_len (sum + n) rest t) in
    if leb min_len sum
    then (total sum, s)
    else next_round (total sum) (recv_partial (len - sum) io s) again

-- `Recv`, after its timer was started.
unfoldable pub recv : ℕ → ℕ → List Io → Base → Total × Base
recv len min_len ios s = recv_loop len min_len 0 ios s

unfoldable pub after_reset : Count × Base → Count × Base
after_reset (count n, s) = (count n, s)
after_reset (socket_error, s) =
    (socket_error, if s.last_error == connection_reset then record s { disconnected = true } else s)

unfoldable pub end_send : Overlapped → Bool × ℕ → Base → Count × Base
end_send o (false, e) s = (socket_error, with_error s e)
end_send o (true, e) s =
    if o.succeeded then (count o.bytes, with_error s e) else bad_end (with_error s e) o.error

-- `SendPartial`: the time is looked at after the operation has begun.
unfoldable pub send_partial : ℕ → Io → Base → Count × Base
send_partial len io s =
    if io.reset.failed
    then (socket_error, with_error s io.reset.error)
    else if leb s.send_end_time io.now
    then (socket_error, with_error s error_timeout)
    else after_reset (end_send (io.overlapped len) (complete io.call io.event) s)

-- What `Send` returns when no byte can be sent any more.
abbrev pub stopped_at : ℕ → Total
stopped_at zero = failed_total
stopped_at (suc sum) = total (suc sum)

-- The loop of `Send`; the sum is a ULONG, and what is returned are the 32 bits of an int.
unfoldable pub send_loop : ℕ → ℕ → List Io → Base → Total × Base
send_loop len sum [] s = if leb len sum then (total sum, s) else (waiting, s)
send_loop len sum (io ∷ rest) s =
    let again : ℕ → Base → Total × Base = (λ n t. send_loop len ((sum + n) % 4294967296) rest t) in
    if leb len sum
    then (total sum, s)
    else next_round (stopped_at sum) (send_partial (len - sum) io s) again

-- `Send`, after its timer was started.
unfoldable pub send : ℕ → List Io → Base → Total × Base
send len ios s = send_loop len 0 ios s
