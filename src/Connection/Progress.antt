-- ===== src/Connection/Progress.antt =====
-- What a poll that answers true has done (connection.cpp, AsyncConnection::Poll).
use lua_xenetwork.Prelude.{
  ℕ, ◌+◌, ◌≤◌, Bool, true, false, not, ◌&&◌, List, [], ◌∷◌, ◌++◌, append-nil, append_assoc, Bytes,
  ltb, ltb→le, if◌then◌else◌, ◌≡◌, refl, sym, ap, ◌∙◌, ◌⊎◌, subst, arith, inl, inr,
}
use lua_xenetwork.Connection.{
  State, connecting, sending, receiving, finished, Connection, Overlapped, broken, incomplete, got,
  Answers, reconnect, connected, start, send, take_read, recv, finish, poll_receiving, poll_state,
  poll, go_on, poll_all,
}
use lua_xenetwork.Connection.Deadline.{is_finished, connected-unfinished}

-- A poll in time whose read got no byte: it is at the end of the response, or not complete.
pub record Ends (start_time : ℕ) (a : Answers) : Type 0 where
  pub in_time : a.ticks ≤ start_time + 30000
  pub readable : a.receiving.readable ≡ true
  pub no_byte : (a.receiving.read ≡ got []) ⊎ (a.receiving.read ≡ incomplete)

abbrev pub Somewhere : (Answers → Type 0) → List Answers → Type 0
Somewhere P [] = ⊥
Somewhere P (a ∷ rest) = P a ⊎ Somewhere P rest

abbrev Extends : Connection → Connection → Type 0
Extends c d = (more : Bytes) × (d.response ≡ c.response ++ more)

-- What a poll does to a connection that is not finished.
record Polled (c : Connection) (a : Answers) (r : Bool × Connection) : Type 0 where
  same_start : r.1.start_time ≡ c.start_time
  extends : Extends c r.1
  if_true : r.0 ≡ true → (is_finished r.1.connection_state ≡ true) × Ends c.start_time a
  if_false : r.0 ≡ false → is_finished r.1.connection_state ≡ false

if-Polled :
    (c : Connection) (a : Answers) (b : Bool) {x y : Bool × Connection}
    → (b ≡ true → Polled c a x)
    → (b ≡ false → Polled c a y)
    → Polled c a (if b then x else y)
if-Polled c a true p q = p refl
if-Polled c a false p q = q refl

waiting :
    (c : Connection) (a : Answers) (d : Connection)
    → d.start_time ≡ c.start_time
    → d.response ≡ c.response
    → is_finished d.connection_state ≡ false
    → Polled c a (false, d)
waiting c a d s r e = record {
  same_start = s;
  extends = ([], r ∙ sym (append-nil c.response));
  if_true = λ x. absurd (cc);
  if_false = λ x. e;
}

ending :
    (c : Connection) (a : Answers) (e : Connection)
    → e.start_time ≡ c.start_time
    → e.response ≡ c.response
    → Ends c.start_time a
    → Polled c a (finish (true, e))
unfolding finish
ending c a e s r ends = record {
  same_start = s;
  extends = ([], r ∙ sym (append-nil c.response));
  if_true = λ x. (refl, ends);
  if_false = λ x. absurd (cc);
}

take_read-Polled :
    (c : Connection) (a : Answers) (e : Connection) (read : Overlapped)
    → e.start_time ≡ c.start_time
    → e.response ≡ c.response
    → is_finished e.connection_state ≡ false
    → a.ticks ≤ c.start_time + 30000
    → a.receiving.readable ≡ true
    → a.receiving.read ≡ read
    → Polled c a (finish (take_read read e))
unfolding finish take_read
take_read-Polled c a e broken s r u t b q = waiting c a e s r u
take_read-Polled c a e incomplete s r u t b q =
    ending c a e s r (record { in_time = t; readable = b; no_byte = inr q })
take_read-Polled c a e (got []) s r u t b q =
    ending c a e s r (record { in_time = t; readable = b; no_byte = inl q })
take_read-Polled c a e (got (x ∷ bytes)) s r u t b q = record {
  same_start = s;
  extends = (x ∷ bytes, ap (λ y. y ++ x ∷ bytes) r);
  if_true = λ x. absurd (cc);
  if_false = λ x. u;
}

recv-Polled :
    (c : Connection) (a : Answers) (e : Connection)
    → e.start_time ≡ c.start_time
    → e.response ≡ c.response
    → is_finished e.connection_state ≡ false
    → a.ticks ≤ c.start_time + 30000
    → Polled c a (finish (recv a.receiving e))
unfolding recv finish
recv-Polled c a e s r u t =
    go (a.receiving.selected && a.receiving.readable && a.receiving.started) refl
  where
    go :
        (b : Bool)
        → (a.receiving.selected && a.receiving.readable && a.receiving.started) ≡ b
        → Polled c a (finish (if b then take_read a.receiving.read e else (false, e)))
    go true q = take_read-Polled c a e a.receiving.read s r u t (ground arith) refl
    go false q = waiting c a e s r u

poll_receiving-Polled :
    (c : Connection) (a : Answers) (e : Connection)
    → e.start_time ≡ c.start_time
    → e.response ≡ c.response
    → is_finished e.connection_state ≡ false
    → Polled c a (poll_receiving a e)
unfolding poll_receiving reconnect
poll_receiving-Polled c a e s r u =
    if-Polled c a (ltb (e.start_time + 30000) a.ticks)
      (λ late. waiting c a (record e { connection_state = connecting }) s r refl)
      (λ early.
        recv-Polled c a e s r u
          (subst (λ n. a.ticks ≤ n + 30000) s (ltb→le (e.start_time + 30000) a.ticks early)))

start-Polled :
    (c : Connection) (a : Answers)
    → is_finished c.connection_state ≡ false
    → Polled c a (false, start a.connect c.request c)
unfolding start
start-Polled c a e =
    waiting c a (start a.connect c.request c) (ground arith) (ground arith) (go c.valid)
  where
    go :
        (b : Bool)
        → is_finished
            (if not b then c else record c {
              connection_state = connected a.connect c.connection_state;
            }).connection_state
          ≡ false
    go true = connected-unfinished a.connect c.connection_state e
    go false = e

poll_state-Polled :
    (s : State) (c : Connection) (a : Answers)
    → c.connection_state ≡ s
    → is_finished s ≡ false
    → Polled c a (poll_state s a c)
unfolding poll_state
poll_state-Polled connecting c a q e = start-Polled c a (ap is_finished q)
poll_state-Polled sending c a q e =
    if-Polled c a (send a.sending c)
      (λ sent. poll_receiving-Polled c a (record c { connection_state = receiving }) refl refl refl)
      (λ unsent. waiting c a c refl refl (ap is_finished q))
poll_state-Polled receiving c a q e = poll_receiving-Polled c a c refl refl (ap is_finished q)
poll_state-Polled finished c a q e = absurd (cc)

poll-Polled :
    (c : Connection) (a : Answers) → is_finished c.connection_state ≡ false → Polled c a (poll a c)
unfolding poll
poll-Polled c a e =
    if-Polled c a c.valid (λ valid. poll_state-Polled c.connection_state c a refl e)
      (λ invalid. waiting c a c refl refl e)

-- What polls that end with true have done.
pub record Ended (c : Connection) (answers : List Answers) (d : Connection) : Type 0 where
  pub is_done : is_finished d.connection_state ≡ true
  pub ended : Somewhere (Ends c.start_time) answers
  pub extends : (more : Bytes) × (d.response ≡ c.response ++ more)

-- When the polls of a connection that is not finished end with true, the connection is finished, the
-- response has only been appended to, and one of the polls, at most 30 seconds after the connection
-- was created, got no byte from a readable socket: its read was at the end of the stream, or was
-- still incomplete, which the code does not tell apart.
pub poll_all-Ended :
    (answers : List Answers) (c : Connection) {d : Connection}
    → is_finished c.connection_state ≡ false
    → poll_all answers c ≡ (true, d)
    → Ended c answers d
unfolding poll_all go_on
poll_all-Ended [] c e q = absurd (cc)
poll_all-Ended (a ∷ rest) c {d} e q =
    go (poll a c) (poll-Polled c a e) q (λ x u p. poll_all-Ended rest x {d = d} u p)
  where
    go :
        (r : Bool × Connection)
        → Polled c a r
        → go_on r (poll_all rest) ≡ (true, d)
        → ((x : Connection)
            → is_finished x.connection_state ≡ false
            → poll_all rest x ≡ (true, d)
            → Ended x rest d)
        → Ended c (a ∷ rest) d
    go (true, x) w q ih =
        let same : x ≡ d = ap (λ y. y.1) q in
        record {
          is_done = subst (λ y. is_finished y.connection_state ≡ true) same (w.if_true refl).0;
          ended = inl (w.if_true refl).1;
          extends = subst (Extends c) same w.extends;
        }
    go (false, x) w q ih =
        let later = ih x (w.if_false refl) q in
        record {
          is_done = later.is_done;
          ended = inr (subst (λ n. Somewhere (Ends n) rest) w.same_start later.ended);
          extends = (
            w.extends.0 ++ later.extends.0,
            later.extends.1
                ∙ ap (λ y. y ++ later.extends.0) w.extends.1
                ∙ append_assoc c.response w.extends.0 later.extends.0,
          );
        }
