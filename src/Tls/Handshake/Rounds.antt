-- ===== src/Tls/Handshake/Rounds.antt =====
-- The rounds of the negotiation's loop (socket/SSLClient.cpp, SSPINegotiateLoop).
use lua_xenetwork.Prelude.{
  ℕ, zero, suc, ◌+◌, ◌-◌, ◌*◌, ◌≤◌, ◌<◌, Bool, true, false, ◌||◌, [], ◌∷◌, ◌++◌, Option, Bytes,
  is_empty, length, if◌then◌else◌, inl, inr, ◌≡◌, ◌≢◌, refl, sym, ap, subst, length-append,
  Bool-cases, Option-cases, arith,
}
use lua_xenetwork.Proxy.Wire.{Incoming, Read, socket_error, received, recv_partial}
use lua_xenetwork.Proxy.Wire.Exact.{pending, Keeps, recv_partial-Keeps}
use lua_xenetwork.Tls.Client.{read_size}
use lua_xenetwork.Tls.Handshake.{
  Status, sec_e_ok, sec_i_continue_needed, sec_e_incomplete_message, sec_i_incomplete_credentials,
  sec_e_internal_error, sec_e_unknown_credentials, crypt_e_file_error, other_failure, other_success,
  Step, Round, Security, Negotiation, Negotiated, left_over, waits, take_read, read_more, judges,
  judge_certificate, reported, send_token, take_status, after_token, after_judgement, take_step,
  negotiate_loop, first_sent, send_first, fresh, begin, sspi_negotiate_loop,
}

-- What the rounds rely on: a step that goes on takes a byte of what it is given, and the server asks
-- for no client certificate.
pub record Progresses {S : Type 0} (security : Security S) : Type 0 where
  pub takes :
      (s : S) (buffer : Bytes)
      → (security.step s buffer).status ≡ sec_i_continue_needed
      → length (left_over (security.step s buffer).extra buffer) < length buffer
  pub anonymous :
      (s : S) (buffer : Bytes) → (security.step s buffer).status ≢ sec_i_incomplete_credentials

if-eq :
    {A : Type 0} (b : Bool) (x y z w : A)
    → (b ≡ true → x ≡ z)
    → (b ≡ false → y ≡ w)
    → (if b then x else y) ≡ (if b then z else w)
if-eq true x y z w h k = h refl
if-eq false x y z w h k = k refl

||-false : (a b : Bool) → (a || b) ≡ false → b ≡ false
||-false true b e = absurd (cc)
||-false false b e = e

abbrev flag : Status → ℕ
flag status = if waits status then 0 else 1

module _ {S : Type 0} (security : Security S) where
  abbrev measure : Negotiation S → Incoming → ℕ
  measure n i = 2 * length (pending i) + length n.buffer + flag n.status

  -- Two continuations that agree on what a round may leave of a buffer of that length.
  abbrev Agree : ℕ → Incoming → (again also : Negotiation S → Incoming → Negotiated S) → Type 0
  Agree size i again also =
      (m : Negotiation S)
      → m.do_read ≡ true
      → length m.buffer + flag m.status ≤ size
      → again m i ≡ also m i

  take_status-Agree :
      (status : Status) (extra : Option ℕ) (n : Negotiation S) (i : Incoming)
      (again also : Negotiation S → Incoming → Negotiated S)
      → (status ≡ sec_i_continue_needed → length (left_over extra n.buffer) < length n.buffer)
      → status ≢ sec_i_incomplete_credentials
      → n.status ≡ status
      → n.do_read ≡ true
      → Agree (length n.buffer) i again also
      → take_status security status extra n i again ≡ take_status security status extra n i also
  unfolding take_status
  take_status-Agree sec_e_ok extra n i again also h1 h2 e d k = refl
  take_status-Agree sec_i_continue_needed extra n i again also h1 h2 e d k =
      k (record n { buffer = left_over extra n.buffer }) d
        (omega (arith, h1 refl, ap {B = ℕ} flag e))
  take_status-Agree sec_e_incomplete_message extra n i again also h1 h2 e d k =
      k n d (omega (arith, ap {B = ℕ} flag e))
  take_status-Agree sec_i_incomplete_credentials extra n i again also h1 h2 e d k = absurd (h2 refl)
  take_status-Agree sec_e_internal_error extra n i again also h1 h2 e d k = refl
  take_status-Agree sec_e_unknown_credentials extra n i again also h1 h2 e d k = refl
  take_status-Agree crypt_e_file_error extra n i again also h1 h2 e d k = refl
  take_status-Agree (other_failure c) extra n i again also h1 h2 e d k = refl
  take_status-Agree (other_success c) extra n i again also h1 h2 e d k = refl

  -- A step that may be gone on from, and the negotiation that it was taken to.
  record Taken (step : Step S) (n : Negotiation S) : Type 0 where
    takes :
        step.status ≡ sec_i_continue_needed
        → length (left_over step.extra n.buffer) < length n.buffer
    anonymous : step.status ≢ sec_i_incomplete_credentials
    status_eq : n.status ≡ step.status
    reads : n.do_read ≡ true

  send_token-Agree :
      (token : Bytes) (step : Step S) (n : Negotiation S) (i : Incoming)
      (again also : Negotiation S → Incoming → Negotiated S)
      → Taken step n
      → Agree (length n.buffer) i again also
      → after_token security (send_token security token n) step n i again
        ≡ after_token security (send_token security token n) step n i also
  unfolding after_token send_token
  send_token-Agree [] step n i again also t k =
      take_status-Agree step.status step.extra n i again also t.takes t.anonymous t.status_eq
        t.reads k
  send_token-Agree (b ∷ token) step n i again also t k =
      elim (Bool-cases (reported security (security.socket_send n.written (b ∷ token)))) [
        | inl q ↦ rw q (
            take_status-Agree step.status step.extra
              (record n { written = n.written ++ ((b ∷ token) ∷ []) }) i again also t.takes
              t.anonymous t.status_eq t.reads k)
        | inr q ↦ rw q refl
      ]

  after_judgement-Agree :
      (accepted : Bool) (step : Step S) (n : Negotiation S) (i : Incoming)
      (again also : Negotiation S → Incoming → Negotiated S)
      → Taken step n
      → Agree (length n.buffer) i again also
      → after_judgement security accepted step n i again
        ≡ after_judgement security accepted step n i also
  unfolding after_judgement
  after_judgement-Agree true step n i again also t k =
      send_token-Agree step.token step n i again also t k
  after_judgement-Agree false step n i again also t k = refl

  take_step-Agree :
      (step : Step S) (n : Negotiation S) (i : Incoming)
      (again also : Negotiation S → Incoming → Negotiated S)
      → (step.status ≡ sec_i_continue_needed
          → length (left_over step.extra n.buffer) < length n.buffer)
      → step.status ≢ sec_i_incomplete_credentials
      → n.do_read ≡ true
      → Agree (length n.buffer) i again also
      → take_step security step n i again ≡ take_step security step n i also
  unfolding take_step
  take_step-Agree step n i again also h1 h2 d k =
      let round : Round S = record { context = n.context; buffer = n.buffer; step = step } in
      let stepped = record n {
        status = step.status;
        context = step.context;
        rounds = n.rounds ++ (round ∷ []);
      } in
      elim (Bool-cases (judges security step)) [
        | inl q ↦ rw q (
            after_judgement-Agree (judge_certificate security step.certificate) step stepped i again
              also record { takes = h1; anonymous = h2; status_eq = refl; reads = d } k)
        | inr q ↦
            rw q (take_status-Agree step.status step.extra stepped i again also h1 h2 refl d k)
      ]

  -- Two ways to go on that agree on what a read may leave.
  abbrev AgreeRead :
      Negotiation S → Incoming → (next also : Negotiation S → Incoming → Negotiated S) → Type 0
  AgreeRead n i next also =
      (m : Negotiation S) (j : Incoming)
      → m.do_read ≡ true
      → 2 * length (pending j) + length m.buffer < measure n i
      → next m j ≡ also m j

  take_read-Agree :
      (r : Read × Incoming) (n : Negotiation S) (i : Incoming)
      (next also : Negotiation S → Incoming → Negotiated S)
      → Keeps (pending i) r
      → AgreeRead n i next also
      → take_read r n next ≡ take_read r n also
  unfolding take_read
  take_read-Agree (socket_error timed_out, j) n i next also h k = refl
  take_read-Agree (received [], j) n i next also h k = refl
  take_read-Agree (received (b ∷ bytes), j) n i next also h k =
      k (record n { buffer = n.buffer ++ (b ∷ bytes); do_read = true }) j refl
        (omega (
          arith,
          ap {B = ℕ} length h,
          length-append (b ∷ bytes) (pending j),
          length-append n.buffer (b ∷ bytes),
        ))

  read_more-Agree :
      (n : Negotiation S) (i : Incoming) (next also : Negotiation S → Incoming → Negotiated S)
      → n.do_read ≡ true
      → AgreeRead n i next also
      → read_more n i next ≡ read_more n i also
  unfolding read_more
  read_more-Agree n i next also d k =
      if-eq (is_empty n.buffer || waits n.status) _ (next n i) _ (also n i)
        (λ q.
          if-eq n.do_read (take_read (recv_partial (read_size - length n.buffer) i) n next)
            (next (record n { do_read = true }) i)
            (take_read (recv_partial (read_size - length n.buffer) i) n also)
            (also (record n { do_read = true }) i)
            (λ e.
              take_read-Agree (recv_partial (read_size - length n.buffer) i) n i next also
                (recv_partial-Keeps (read_size - length n.buffer) i) k)
            (λ e. absurd (cc)))
        (λ q. k n i d (
          omega (
            arith,
            ap {B = ℕ} (λ w. if w then 0 else 1) (||-false (is_empty n.buffer) (waits n.status) q),
          )))

  negotiate_loop-enough :
      Progresses security
      → (fuel more : ℕ) (n : Negotiation S) (i : Incoming) → n.do_read ≡ true
      → measure n i < fuel
      → negotiate_loop security fuel n i ≡ negotiate_loop security (fuel + more) n i
  unfolding negotiate_loop
  negotiate_loop-enough p zero more n i d h = absurd (omega arith)
  negotiate_loop-enough p (suc fuel) more n i d h =
      let same : suc fuel + more ≡ suc (fuel + more) = omega arith in
      subst (λ f. negotiate_loop security (suc fuel) n i ≡ negotiate_loop security f n i) (sym same)
        (read_more-Agree n i
          (λ m j.
            take_step security (security.step m.context m.buffer) m j
              (negotiate_loop security fuel))
          (λ m j.
            take_step security (security.step m.context m.buffer) m j
              (negotiate_loop security (fuel + more)))
          d
          (λ m j reads less.
            take_step-Agree (security.step m.context m.buffer) m j (negotiate_loop security fuel)
              (negotiate_loop security (fuel + more)) (p.takes m.context m.buffer)
              (p.anonymous m.context m.buffer) reads
              (λ m2 reads2 small. negotiate_loop-enough p fuel more m2 j reads2 (omega arith))))

  send_first-enough :
      Progresses security
      → (fuel more : ℕ) (step : Step S) (n : Negotiation S) (i : Incoming) → n.do_read ≡ true
      → measure n i < fuel
      → send_first security fuel step n i ≡ send_first security (fuel + more) step n i
  unfolding send_first
  send_first-enough p fuel more step n i d h = elim (Bool-cases (is_empty step.token)) [
    | inl q ↦ rw q (negotiate_loop-enough p fuel more n i d h)
    | inr q ↦
        elim (Option-cases (first_sent security step.token (security.socket_send [] step.token))) [
          | inl e ↦ rw q (
              rw e
                (negotiate_loop-enough p fuel more (record n { written = step.token ∷ [] }) i d h))
          | inr (status, e) ↦ rw q (rw e refl)
        ]
  ]

  begin-enough :
      Progresses security
      → (status : Status) (fuel more : ℕ) (i : Incoming) → 2 * length (pending i) + 1 < fuel
      → begin security status fuel i ≡ begin security status (fuel + more) i
  unfolding begin
  begin-enough p sec_i_continue_needed fuel more i h =
      send_first-enough p fuel more security.first (fresh security security.first) i refl
        (omega arith)
  begin-enough p sec_e_ok fuel more i h = refl
  begin-enough p sec_e_incomplete_message fuel more i h = refl
  begin-enough p sec_i_incomplete_credentials fuel more i h = refl
  begin-enough p sec_e_internal_error fuel more i h = refl
  begin-enough p sec_e_unknown_credentials fuel more i h = refl
  begin-enough p crypt_e_file_error fuel more i h = refl
  begin-enough p (other_failure c) fuel more i h = refl
  begin-enough p (other_success c) fuel more i h = refl

  -- Where a step that goes on takes a byte of what it is given, and no client certificate is asked for,
  -- the loop of SSPINegotiateLoop needs no more rounds than twice the bytes that arrive, and two: with
  -- more rounds the result is the same.
  pub sspi_negotiate_loop-enough :
      Progresses security
      → (more : ℕ) (i : Incoming)
      → sspi_negotiate_loop security (2 * length (pending i) + 2) i
        ≡ sspi_negotiate_loop security (2 * length (pending i) + 2 + more) i
  unfolding sspi_negotiate_loop
  sspi_negotiate_loop-enough p more i =
      begin-enough p security.first.status (2 * length (pending i) + 2) more i (omega arith)
