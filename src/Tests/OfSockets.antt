-- ===== src/Tests/OfSockets.antt =====
-- Concrete runs of the polled connection and of the blocking reads.
use lua_xenetwork.Prelude.{
  ℕ, ◌+◌, min, true, false, List, [], ◌∷◌, ◌++◌, none, some, codes, length, contains, ◌≡◌, refl,
  arith,
}
use lua_xenetwork.Connection
use lua_xenetwork.Connection.{
  Connection, Overlapped, broken, incomplete, connecting, finished, is_connected, Answers,
  reconnect, connected, start, wrote, send, take_read, recv, finish, poll_receiving, poll_state,
  poll, go_on, poll_all,
}
use lua_xenetwork.Connection.Deadline.{Waits, poll_all-Waits}
use lua_xenetwork.Connection.Progress.{Ended, poll_all-Ended}
use lua_xenetwork.BaseSocket
use lua_xenetwork.BaseSocket.{Io, Base, io_pending, signalled}
use lua_xenetwork.BaseSocket.Totals.{Moves, Within, recv-Within, send-Within}
use lua_xenetwork.Socket.{
  got, zeros, read_rest, receive_line, Attempt, interrupted, ready, used_up, after_poll,
  wait_readable, Found, would_block, wait_bytes,
}
use lua_xenetwork.Socket.Waiting.{Enough, wait_bytes-Enough, Readable, wait_readable-Readable}
use lua_xenetwork.Socket.Reading.{receive_line-append, read_rest-got}

abbrev asked : Connection
asked = record {
  valid = true;
  request = codes "GET";
  response = [];
  connection_state = connecting;
  start_time = 100;
}

-- Everything that is asked of the socket works, and one byte is read.
abbrev at_tick : ℕ → Overlapped → Answers
at_tick ticks read = record {
  ticks = ticks;
  connect = is_connected;
  sending = record { started = true; written = some 3 };
  receiving = record { selected = true; readable = true; started = true; read = read };
}

abbrev late_polls : List Answers
late_polls =
    at_tick 40000 (Connection.got [])
    ∷ at_tick 40001 (Connection.got [])
    ∷ at_tick 40002 (Connection.got [])
    ∷ []

poll_all-Waits_example : Waits asked (poll_all late_polls asked)
poll_all-Waits_example =
    poll_all-Waits late_polls asked refl (omega arith, (omega arith, (omega arith, tt)))

abbrev polls : List Answers
polls =
    at_tick 100 broken
    ∷ at_tick 120 (Connection.got (codes "a"))
    ∷ at_tick 140 (Connection.got (codes "b"))
    ∷ at_tick 160 incomplete
    ∷ []

abbrev answered : Connection
answered = record {
  valid = true;
  request = codes "GET";
  response = codes "ab";
  connection_state = finished;
  start_time = 100;
}

polls_run : poll_all polls asked ≡ (true, answered)
unfolding poll_all go_on poll poll_state poll_receiving finish recv take_read send wrote start
    connected reconnect
polls_run = refl

poll_all-Ended_example : Ended asked polls answered
poll_all-Ended_example = poll_all-Ended polls asked refl polls_run

abbrev attempts : List Attempt
attempts = record { spent = 0; polled = interrupted } ∷ record { spent = 7; polled = ready } ∷ []

attempts_run : wait_readable (some 10) attempts ≡ some true
unfolding wait_readable after_poll used_up
attempts_run = refl

wait_readable-Readable_example : Readable (some 10) attempts
wait_readable-Readable_example = wait_readable-Readable (some 10) attempts attempts_run

abbrev rounds : List Found
rounds =
    record { can_recv = some 0; peek = would_block; late = false }
    ∷ record { can_recv = some 2; peek = would_block; late = false }
    ∷ record { can_recv = some 5; peek = would_block; late = false }
    ∷ []

wait_bytes-Enough_example : Enough 4 (wait_bytes 4 true rounds)
wait_bytes-Enough_example = wait_bytes-Enough 4 true rounds

no_break : contains b'\n' (codes "ab") ≡ false
unfolding contains
no_break = refl

receive_line-append_example :
    receive_line false [] (codes "ab" ++ (b'\n' ∷ codes "c"))
    ≡ ([] ++ (codes "ab" ++ b'\n' ∷ []), codes "c")
receive_line-append_example = receive_line-append false [] (codes "ab") (codes "c") no_break

read_rest-got_example :
    (read_rest (got (codes "abc") ∷ []) [] (length (codes "abc")) ≡ some (codes "abc"))
    × (read_rest
          (got (codes "abc") ∷ got (codes "de") ∷ [])
          []
          (length (codes "abc") + length (codes "de"))
        ≡ some (codes "abc" ++ (zeros (length (codes "de")) ++ codes "de")))
read_rest-got_example = read_rest-got (codes "abc") (codes "de") [] (omega arith) (omega arith)

abbrev works : ℕ → Io
works bytes = record {
  now = 5;
  reset = record { failed = false; error = 0 };
  call = record { failed = true; error = io_pending };
  event = signalled;
  overlapped = λ begun. record { succeeded = true; bytes = min begun bytes; error = 0 };
}

abbrev idle : Base
idle = record {
  recv_initiated = none;
  last_error = 0;
  recv_end_time = 60;
  send_end_time = 60;
  disconnected = false;
}

works-Moves : (bytes : ℕ) → Moves (works bytes)
works-Moves bytes begun = omega arith

recv-Within_example : Within 5 (BaseSocket.recv 5 4 (works 3 ∷ works 9 ∷ []) idle)
recv-Within_example =
    recv-Within 5 4 (works 3 ∷ works 9 ∷ []) idle (works-Moves 3, (works-Moves 9, tt)) tt

send-Within_example : Within 5 (BaseSocket.send 5 (works 3 ∷ works 9 ∷ []) idle)
send-Within_example =
    send-Within 5 (works 3 ∷ works 9 ∷ []) idle (omega arith) (works-Moves 3, (works-Moves 9, tt))
