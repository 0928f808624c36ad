-- ===== src/Proxy/Wire.antt =====
-- The socket under the SOCKS5 handshake: CBaseSock::Recv (socket/BaseSock.cpp) over what the network
-- delivers, and StepBudget, SendAll and RecvExact (socket/Dial.cpp).
pub mod Exact
pub mod Enough
use lua_xenetwork.Prelude.{
  ℕ, zero, suc, ◌+◌, ◌-◌, Bool, true, false, not, List, [], ◌∷◌, ◌++◌, Option, none, some, Bytes,
  length, take, drop, is_empty, leb, ◌==◌, if◌then◌else◌, Result, ok, err, throw_if, ◌>>=◌, ◌>>◌,
}
use lua_xenetwork.Proxy.Target.{
  DialCode, timeout, proxy_protocol_error, proxy_timeout, proxy_closed,
}
use lua_xenetwork.Timeouts.{remaining, TimeoutError}

-- What the reads of a socket find: bytes in the portions in which they arrive, then the end of the
-- connection or an error, which is a timeout or not. A read that completes without a byte is an end.
pub data Incoming : Type 0 where
  closed : Incoming
  failed : Bool → Incoming
  arrives : Bytes → Incoming → Incoming

-- What a read returns: SOCKET_ERROR, or bytes (none of them at the end of the connection).
pub data Read : Type 0 where
  socket_error : Bool → Read
  received : Bytes → Read

-- One read of at most `len` bytes. What does not fit stays for the next.
unfoldable pub recv_partial : ℕ → Incoming → Read × Incoming
recv_partial len closed = (received [], closed)
recv_partial len (failed timed_out) = (socket_error timed_out, failed timed_out)
recv_partial len (arrives bytes rest) = (
  received (take len bytes),
  if is_empty (drop len bytes) then rest else arrives (drop len bytes) rest,
)

-- The bytes of one read in front of what the loop reads after it.
unfoldable pub joined : Bytes → Read × Incoming → Read × Incoming
joined bytes (received more, rest) = (received (bytes ++ more), rest)
joined bytes (socket_error timed_out, rest) = (socket_error timed_out, rest)

-- How the loop goes on after one read, given what it does after that one.
unfoldable pub recv_next : Read × Incoming → (ℕ → Incoming → Read × Incoming) → Read × Incoming
recv_next (socket_error timed_out, rest) again = (socket_error timed_out, rest)
recv_next (received [], rest) again = (received [], rest)
recv_next (received (c ∷ bytes), rest) again = joined (c ∷ bytes) (again (length (c ∷ bytes)) rest)

-- The loop of CBaseSock::Recv with MinLen = Len, which is how RecvExact calls it: `len` bytes are
-- missing. Every round but the last gets a byte, so that `len` rounds are enough.
unfoldable pub recv : ℕ → ℕ → Incoming → Read × Incoming
recv zero len incoming = (received [], incoming)
recv (suc fuel) len incoming =
    if leb len 0
    then (received [], incoming)
    else recv_next (recv_partial len incoming) (λ n rest. recv fuel (len - n) rest)

-- What the handshake's steps depend on besides the socket: `connect_timeout_ms`,
-- `total_timeout_ms`, the milliseconds since `started` when the n-th step is armed, and what the
-- n-th step's CBaseSock::Send reports (nothing when it fails).
pub record Link : Type 0 where
  pub connect_timeout_ms : ℕ
  pub total_timeout_ms : ℕ
  pub elapsed : ℕ → ℕ
  pub send : ℕ → Bytes → Option ℕ

pub record Socket : Type 0 where
  pub armed : ℕ
  pub sent : Bytes
  pub incoming : Incoming

unfoldable pub timed : {A : Type 0} → Result TimeoutError ℕ → Result DialCode A → Result DialCode A
timed (ok milliseconds) next = next
timed (err e) next = err timeout

-- `StepBudget::Arm`: no step begins after the deadline.
unfoldable pub arm : Link → Socket → Result DialCode Socket
unfolding remaining
arm link s =
    timed (remaining link.connect_timeout_ms link.total_timeout_ms (link.elapsed s.armed))
      (ok (record { armed = suc s.armed; sent = s.sent; incoming = s.incoming }))

unfoldable pub all_sent : Bytes → Option ℕ → Bool
all_sent bytes none = false
all_sent bytes (some n) = n == length bytes

unfoldable pub send_all : Link → Bytes → Socket → Result DialCode Socket
send_all link bytes s = do
  t ← arm link s
  throw_if (not (all_sent bytes (link.send s.armed bytes))) proxy_protocol_error
  ok (record { armed = t.armed; sent = t.sent ++ bytes; incoming = t.incoming })

unfoldable pub judge : ℕ → Socket → Read × Incoming → Result DialCode (Bytes × Socket)
judge count t (socket_error timed_out, rest) =
    err (if timed_out then proxy_timeout else proxy_closed)
judge count t (received bytes, rest) = do
  throw_if (not (length bytes == count)) proxy_closed
  ok (bytes, record { armed = t.armed; sent = t.sent; incoming = rest })

unfoldable pub recv_exact : Link → ℕ → Socket → Result DialCode (Bytes × Socket)
recv_exact link zero s = ok ([], s)
recv_exact link (suc n) s = do t ← arm link s; judge (suc n) t (recv (suc n) (suc n) t.incoming)
