-- ===== src/Connection/Deadline.antt =====
-- Polling after the deadline of 30 seconds (connection.cpp, AsyncConnection::Poll and Reconnect).
use lua_xenetwork.Prelude.{
  ◌+◌, ◌<◌, Bool, true, false, List, [], ◌∷◌, lt→ltb, if◌then◌else◌, All, ◌≡◌, refl, sym, ap, ◌∙◌,
  subst, arith, Bool-cases, inl, inr,
}
use lua_xenetwork.Connection.{
  State, connecting, sending, receiving, finished, Connection, Connect, done, is_connected,
  other_error, Answers, reconnect, connected, start, send, poll_receiving, poll_state, poll, go_on,
  poll_all,
}

abbrev pub is_finished : State → Bool
is_finished finished = true
is_finished _ = false

-- The poll answers false, and the connection is as far from its end as it was.
pub record Waits (c : Connection) (r : Bool × Connection) : Type 0 where
  pub answer : r.0 ≡ false
  pub same_start : r.1.start_time ≡ c.start_time
  pub same_response : r.1.response ≡ c.response
  pub unfinished : is_finished r.1.connection_state ≡ false

abbrev pub IsLate : Connection → Answers → Type 0
IsLate c a = c.start_time + 30000 < a.ticks

if-Waits :
    (c : Connection) (b : Bool) {x y : Bool × Connection}
    → Waits c x
    → Waits c y
    → Waits c (if b then x else y)
if-Waits c true p q = p
if-Waits c false p q = q

stays : (c : Connection) → is_finished c.connection_state ≡ false → Waits c (false, c)
stays c e = record { answer = refl; same_start = refl; same_response = refl; unfinished = e }

pub connected-unfinished :
    (a : Connect) (s : State) → is_finished s ≡ false → is_finished (connected a s) ≡ false
unfolding connected
connected-unfinished is_connected s e = refl
connected-unfinished done s e = e
connected-unfinished other_error s e = e

start-Waits :
    (a : Connect) (c : Connection)
    → is_finished c.connection_state ≡ false
    → Waits c (false, start a c.request c)
unfolding start
start-Waits a c e = elim (Bool-cases c.valid) [
  | inl q ↦
      let same : start a c.request c
          ≡ record c { connection_state = connected a c.connection_state } =
        ground arith in
      rw same (record {
        answer = refl;
        same_start = refl;
        same_response = refl;
        unfinished = connected-unfinished a c.connection_state e;
      })
  | inr q ↦ let same : start a c.request c ≡ c = ground arith in rw same (stays c e)
]

poll_receiving-Waits :
    (a : Answers) (c : Connection) (state : State)
    → IsLate c a
    → Waits c (poll_receiving a (record c { connection_state = state }))
unfolding poll_receiving reconnect
poll_receiving-Waits a c state late =
    rw (lt→ltb (c.start_time + 30000) a.ticks late)
      (record { answer = refl; same_start = refl; same_response = refl; unfinished = refl })

poll_state-Waits :
    (s : State) (a : Answers) (c : Connection)
    → c.connection_state ≡ s
    → is_finished s ≡ false
    → IsLate c a
    → Waits c (poll_state s a c)
unfolding poll_state
poll_state-Waits connecting a c q e late = start-Waits a.connect c (ap is_finished q)
poll_state-Waits sending a c q e late =
    if-Waits c (send a.sending c) (poll_receiving-Waits a c receiving late)
      (stays c (ap is_finished q))
poll_state-Waits receiving a c q e late = poll_receiving-Waits a c c.connection_state late
poll_state-Waits finished a c q e late = absurd (cc)

poll-Waits :
    (a : Answers) (c : Connection)
    → is_finished c.connection_state ≡ false
    → IsLate c a
    → Waits c (poll a c)
unfolding poll
poll-Waits a c e late =
    if-Waits c c.valid (poll_state-Waits c.connection_state a c refl e late) (stays c e)

-- A connection that is not finished 30 seconds after it was created never finishes: however often
-- it is polled from then on, and whatever is sent and received, the answer is false, the start time
-- and the response stay as they are, and the connection is still not finished.
pub poll_all-Waits :
    (answers : List Answers) (c : Connection)
    → is_finished c.connection_state ≡ false
    → All (IsLate c) answers
    → Waits c (poll_all answers c)
unfolding poll_all go_on
poll_all-Waits [] c e late = stays c e
poll_all-Waits (a ∷ rest) c e late = go (poll a c) (poll-Waits a c e late.0) (poll_all-Waits rest)
  where
    go :
        (r : Bool × Connection)
        → Waits c r
        → ((d : Connection)
            → is_finished d.connection_state ≡ false
            → All (IsLate d) rest
            → Waits d (poll_all rest d))
        → Waits c (go_on r (poll_all rest))
    go (true, d) w ih = absurd (cc)
    go (false, d) w ih =
        let still : All (IsLate d) rest =
          subst (λ n. All (λ x. n + 30000 < x.ticks) rest) (sym w.same_start) late.1 in
        let later = ih d w.unfinished still in
        record {
          answer = later.answer;
          same_start = later.same_start ∙ w.same_start;
          same_response = later.same_response ∙ w.same_response;
          unfinished = later.unfinished;
        }
