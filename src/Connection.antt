-- ===== src/Connection.antt =====
-- The polled connection (connection.cpp, AsyncConnection). What Winsock answers to a call of `Poll`
-- is an argument; buffers and overlapped structures are left out.
pub mod Deadline
pub mod Progress
use lua_xenetwork.Prelude.{
  ℕ, ◌+◌, Bool, true, false, not, ◌&&◌, List, [], ◌∷◌, ◌++◌, Option, none, some, Bytes, is_empty,
  ltb, ◌==◌, if◌then◌else◌,
}

-- `connection_state`, 0 to 3.
pub data State : Type 0 where
  connecting sending receiving finished : State

pub record Connection : Type 0 where
  pub valid : Bool
  pub request : Bytes
  pub response : Bytes
  pub connection_state : State
  pub start_time : ℕ

-- The constructor, at a tick count, on whether the socket was made and the host was found.
unfoldable pub create : ℕ → Bool → Bool → Connection
create ticks socket_made host_found = record {
  valid = socket_made && host_found;
  request = [];
  response = [];
  connection_state = connecting;
  start_time = ticks;
}

-- What `connect` answers: done, an error that says it is connected already, or another error.
pub data Connect : Type 0 where
  done is_connected other_error : Connect

-- What `Send` meets: whether `WSASend` finished or is pending, and the bytes written (0 while it is
-- incomplete, nothing on any other error).
pub record Sending : Type 0 where
  pub started : Bool
  pub written : Option ℕ

-- `WSAGetOverlappedResult` of a read: another error, WSA_IO_INCOMPLETE, or the bytes that were read,
-- which are none at the end of the stream.
pub data Overlapped : Type 0 where
  broken incomplete : Overlapped
  got : Bytes → Overlapped

-- What `Recv` meets: `select` did not fail, the socket is in its set, `WSARecv` finished or is
-- pending, and its result.
pub record Receiving : Type 0 where
  pub selected : Bool
  pub readable : Bool
  pub started : Bool
  pub read : Overlapped

pub record Answers : Type 0 where
  pub ticks : ℕ
  pub connect : Connect
  pub sending : Sending
  pub receiving : Receiving

unfoldable pub reconnect : Connection → Connection
reconnect c = record c { connection_state = connecting }

unfoldable pub connected : Connect → State → State
connected is_connected s = sending
connected done s = s
connected other_error s = s

unfoldable pub start : Connect → Bytes → Connection → Connection
start answer request c =
    if not c.valid
    then c
    else record c { request = request; connection_state = connected answer c.connection_state }

unfoldable pub wrote : Option ℕ → Bool
wrote none = false
wrote (some n) = not (n == 0)

unfoldable pub send : Sending → Connection → Bool
send s c = not (is_empty c.request) && s.started && wrote s.written

-- `bytes_read` stays 0 while the read is incomplete.
unfoldable pub take_read : Overlapped → Connection → Bool × Connection
take_read broken c = (false, c)
take_read incomplete c = (true, c)
take_read (got []) c = (true, c)
take_read (got (b ∷ bytes)) c = (false, record c { response = c.response ++ b ∷ bytes })

unfoldable pub recv : Receiving → Connection → Bool × Connection
recv r c = if r.selected && r.readable && r.started then take_read r.read c else (false, c)

unfoldable pub finish : Bool × Connection → Bool × Connection
finish (true, c) = (true, record c { connection_state = finished })
finish (false, c) = (false, c)

unfoldable pub poll_receiving : Answers → Connection → Bool × Connection
poll_receiving a c =
    if ltb (c.start_time + 30000) a.ticks then (false, reconnect c) else finish (recv a.receiving c)

unfoldable pub poll_state : State → Answers → Connection → Bool × Connection
poll_state connecting a c = (false, start a.connect c.request c)
poll_state sending a c =
    if send a.sending c
    then poll_receiving a (record c { connection_state = receiving })
    else (false, c)
poll_state receiving a c = poll_receiving a c
poll_state finished a c = (true, c)

unfoldable pub poll : Answers → Connection → Bool × Connection
poll a c = if c.valid then poll_state c.connection_state a c else (false, c)

-- The caller's loop: it polls until the answer is true.
unfoldable pub go_on : Bool × Connection → (Connection → Bool × Connection) → Bool × Connection
go_on (true, c) next = (true, c)
go_on (false, c) next = next c

unfoldable pub poll_all : List Answers → Connection → Bool × Connection
poll_all [] c = (false, c)
poll_all (a ∷ rest) c = go_on (poll a c) (poll_all rest)
