-- ===== src/Tls/Handshake/Induction.antt =====
-- Induction over the negotiation (socket/SSLClient.cpp, SSPINegotiateLoop): what every part of a round
-- keeps is kept by the whole.
use lua_xenetwork.Prelude.{
  ℕ, zero, suc, ◌-◌, Bool, true, false, ◌||◌, List, [], ◌∷◌, ◌++◌, Option, none, some, Bytes,
  is_empty, length, if◌then◌else◌, inl, inr, ◌≡◌, refl, subst, Bool-cases, Option-cases,
}
use lua_xenetwork.Proxy.Wire.{Incoming, Read, socket_error, received, recv_partial}
use lua_xenetwork.Proxy.Wire.Exact.{pending, Keeps, recv_partial-Keeps}
use lua_xenetwork.Tls.Client.{read_size}
use lua_xenetwork.Tls.Handshake.{
  Status, sec_e_ok, sec_i_continue_needed, sec_e_incomplete_message, sec_i_incomplete_credentials,
  sec_e_internal_error, sec_e_unknown_credentials, crypt_e_file_error, other_failure, other_success,
  Step, Security, Negotiation, Negotiated, conclude_loop, leave, left_over, waits, take_read,
  read_more, accepts, judges, judge_certificate, reported, send_token, new_credentials, go_on_with,
  take_status, after_token, after_judgement, take_step, negotiate_loop, first_sent, send_first,
  fresh, begin, sspi_negotiate_loop,
}

abbrev pub is_ok : Status → Bool
is_ok sec_e_ok = true
is_ok _ = false

-- The locals behind a step of the loop.
abbrev pub after_step : {S : Type 0} → Step S → Negotiation S → Negotiation S
after_step step n = record n {
  status = step.status;
  context = step.context;
  rounds = n.rounds ++ (record { context = n.context; buffer = n.buffer; step = step } ∷ []);
}

-- A round that is gone on with behind its step: no certificate was asked for, there was none, or it
-- was accepted.
pub data Passes {S : Type 0} (security : Security S) (step : Step S) : Type 0 where
  not_asked : judges security step ≡ false → Passes security step
  without : step.certificate ≡ none → Passes security step
  accepted :
      (certificate : Bytes)
      → step.certificate ≡ some certificate
      → accepts security certificate ≡ true
      → Passes security step

-- A property of the locals and of what is still to arrive, one of them behind a step, and one of the
-- result, with what each way through a round has to give: a return, an end of the loop without and
-- with success, a read that fails or that gets bytes, locals that are set, a step, and the three ways
-- to go on behind it.
pub record Rules {S : Type 0} (security : Security S) (I : Negotiation S → Incoming → Type 0)
    (J : Step S → Negotiation S → Incoming → Type 0) (R : Negotiated S → Type 0) : Type 0 where
  pub left :
      (status : Status) (closed : Bool) (n : Negotiation S) (i : Incoming)
      → R (leave status closed n i)
  pub broken_off :
      (status : Status) (context : S) (step : Step S) (n : Negotiation S) (i : Incoming)
      → is_ok status ≡ false
      → J step n i
      → R (conclude_loop status [] (record n { context = context }) i)
  pub cut_short :
      (n : Negotiation S) (i j : Incoming) → I n i → R (conclude_loop sec_e_internal_error [] n j)
  pub completed :
      (step : Step S) (n : Negotiation S) (i : Incoming)
      → step.status ≡ sec_e_ok
      → J step n i
      → R (conclude_loop sec_e_ok (left_over step.extra n.buffer) n i)
  pub arrived :
      (n : Negotiation S) (i j : Incoming) (b : ℕ) (bytes : Bytes)
      → I n i
      → pending i ≡ (b ∷ bytes) ++ pending j
      → I (record n { buffer = n.buffer ++ (b ∷ bytes); do_read = true }) j
  pub moved :
      (n : Negotiation S) (i : Incoming) (do_read : Bool) (written : List Bytes)
      → I n i
      → I (record n { do_read = do_read; written = written }) i
  pub stepped :
      (n : Negotiation S) (i : Incoming)
      → I n i
      → Passes security (security.step n.context n.buffer)
      → J (security.step n.context n.buffer) (after_step (security.step n.context n.buffer) n) i
  pub sent :
      (step : Step S) (n : Negotiation S) (i : Incoming) (written : List Bytes)
      → J step n i
      → J step (record n { written = written }) i
  pub continued :
      (step : Step S) (n : Negotiation S) (i : Incoming)
      → step.status ≡ sec_i_continue_needed
      → J step n i
      → I (record n { buffer = left_over step.extra n.buffer }) i
  pub waited :
      (step : Step S) (n : Negotiation S) (i : Incoming)
      → step.status ≡ sec_e_incomplete_message
      → J step n i
      → I n i
  pub renewed :
      (step : Step S) (n : Negotiation S) (i : Incoming) (context : S)
      → step.status ≡ sec_i_incomplete_credentials
      → J step n i
      → I (record n { do_read = false; status = sec_i_continue_needed; context = context }) i

module _ {S : Type 0} (security : Security S) (I : Negotiation S → Incoming → Type 0)
    (J : Step S → Negotiation S → Incoming → Type 0) (R : Negotiated S → Type 0)
    (rules : Rules security I J R) where
  abbrev After : (Negotiation S → Incoming → Negotiated S) → Type 0
  After again = (n : Negotiation S) (i : Incoming) → I n i → R (again n i)

  if-keeps : (b : Bool) (x y : Negotiated S) → R x → R y → R (if b then x else y)
  if-keeps true x y hx hy = hx
  if-keeps false x y hx hy = hy

  take_read-keeps :
      (r : Read × Incoming) (n : Negotiation S) (i : Incoming)
      (next : Negotiation S → Incoming → Negotiated S)
      → Keeps (pending i) r
      → I n i
      → After next
      → R (take_read r n next)
  unfolding take_read
  take_read-keeps (socket_error timed_out, j) n i next g h k = rules.cut_short n i j h
  take_read-keeps (received [], j) n i next g h k = rules.cut_short n i j h
  take_read-keeps (received (b ∷ bytes), j) n i next g h k =
      k (record n { buffer = n.buffer ++ (b ∷ bytes); do_read = true }) j
        (rules.arrived n i j b bytes h g)

  read_more-keeps :
      (n : Negotiation S) (i : Incoming) (next : Negotiation S → Incoming → Negotiated S)
      → I n i
      → After next
      → R (read_more n i next)
  unfolding read_more
  read_more-keeps n i next h k =
      let r = recv_partial (read_size - length n.buffer) i in
      if-keeps (is_empty n.buffer || waits n.status)
        (if n.do_read then take_read r n next else next (record n { do_read = true }) i) (next n i)
        (if-keeps n.do_read (take_read r n next) (next (record n { do_read = true }) i)
          (take_read-keeps r n i next (recv_partial-Keeps (read_size - length n.buffer) i) h k)
          (k (record n { do_read = true }) i (rules.moved n i true n.written h)))
        (k n i h)

  go_on_with-keeps :
      (answer : Status × S) (step : Step S) (n : Negotiation S) (i : Incoming)
      (again : Negotiation S → Incoming → Negotiated S)
      → step.status ≡ sec_i_incomplete_credentials
      → J step n i
      → After again
      → R (go_on_with security answer n i again)
  unfolding go_on_with
  go_on_with-keeps (sec_e_ok, context) step n i again q h k =
      k (record n { do_read = false; status = sec_i_continue_needed; context = context }) i
        (rules.renewed step n i context q h)
  go_on_with-keeps (sec_i_continue_needed, context) step n i again q h k =
      rules.broken_off sec_i_continue_needed context step n i refl h
  go_on_with-keeps (sec_e_incomplete_message, context) step n i again q h k =
      rules.broken_off sec_e_incomplete_message context step n i refl h
  go_on_with-keeps (sec_i_incomplete_credentials, context) step n i again q h k =
      rules.broken_off sec_i_incomplete_credentials context step n i refl h
  go_on_with-keeps (sec_e_internal_error, context) step n i again q h k =
      rules.broken_off sec_e_internal_error context step n i refl h
  go_on_with-keeps (sec_e_unknown_credentials, context) step n i again q h k =
      rules.broken_off sec_e_unknown_credentials context step n i refl h
  go_on_with-keeps (crypt_e_file_error, context) step n i again q h k =
      rules.broken_off crypt_e_file_error context step n i refl h
  go_on_with-keeps (other_failure c, context) step n i again q h k =
      rules.broken_off (other_failure c) context step n i refl h
  go_on_with-keeps (other_success c, context) step n i again q h k =
      rules.broken_off (other_success c) context step n i refl h

  take_status-keeps :
      (status : Status) (step : Step S) (n : Negotiation S) (i : Incoming)
      (again : Negotiation S → Incoming → Negotiated S)
      → step.status ≡ status
      → J step n i
      → After again
      → R (take_status security status step.extra n i again)
  unfolding take_status
  take_status-keeps sec_e_ok step n i again q h k = rules.completed step n i q h
  take_status-keeps sec_i_continue_needed step n i again q h k =
      k (record n { buffer = left_over step.extra n.buffer }) i (rules.continued step n i q h)
  take_status-keeps sec_e_incomplete_message step n i again q h k =
      k n i (rules.waited step n i q h)
  take_status-keeps sec_i_incomplete_credentials step n i again q h k =
      go_on_with-keeps (new_credentials security n.context) step n i again q h k
  take_status-keeps sec_e_internal_error step n i again q h k =
      rules.broken_off sec_e_internal_error n.context step n i refl h
  take_status-keeps sec_e_unknown_credentials step n i again q h k =
      rules.broken_off sec_e_unknown_credentials n.context step n i refl h
  take_status-keeps crypt_e_file_error step n i again q h k =
      rules.broken_off crypt_e_file_error n.context step n i refl h
  take_status-keeps (other_failure c) step n i again q h k =
      rules.broken_off (other_failure c) n.context step n i refl h
  take_status-keeps (other_success c) step n i again q h k =
      rules.broken_off (other_success c) n.context step n i refl h

  send_token-keeps :
      (token : Bytes) (step : Step S) (n : Negotiation S) (i : Incoming)
      (again : Negotiation S → Incoming → Negotiated S)
      → J step n i
      → After again
      → R (after_token security (send_token security token n) step n i again)
  unfolding after_token send_token
  send_token-keeps [] step n i again h k = take_status-keeps step.status step n i again refl h k
  send_token-keeps (b ∷ token) step n i again h k =
      elim (Bool-cases (reported security (security.socket_send n.written (b ∷ token)))) [
        | inl q ↦ rw q (
            take_status-keeps step.status step
              (record n { written = n.written ++ ((b ∷ token) ∷ []) }) i again refl
              (rules.sent step n i (n.written ++ ((b ∷ token) ∷ [])) h) k)
        | inr q ↦ rw q (rules.left sec_e_internal_error true n i)
      ]

  after_judgement-keeps :
      (accepted : Bool) (step : Step S) (n : Negotiation S) (i : Incoming)
      (again : Negotiation S → Incoming → Negotiated S)
      → (accepted ≡ true → J step n i)
      → After again
      → R (after_judgement security accepted step n i again)
  unfolding after_judgement
  after_judgement-keeps true step n i again h k =
      send_token-keeps step.token step n i again (h refl) k
  after_judgement-keeps false step n i again h k = rules.left sec_e_unknown_credentials false n i

  judge_certificate-Passes :
      (step : Step S) → judge_certificate security step.certificate ≡ true → Passes security step
  unfolding judge_certificate
  judge_certificate-Passes step e = elim (Option-cases step.certificate) [
    | inl q ↦ without q
    | inr (certificate, q) ↦
        accepted certificate q (subst (λ c. judge_certificate security c ≡ true) q e)
  ]

  take_step-keeps :
      (n : Negotiation S) (i : Incoming) (again : Negotiation S → Incoming → Negotiated S)
      → I n i
      → After again
      → R (take_step security (security.step n.context n.buffer) n i again)
  unfolding take_step
  take_step-keeps n i again h k =
      let step = security.step n.context n.buffer in
      elim (Bool-cases (judges security step)) [
        | inl q ↦ rw q (
            after_judgement-keeps (judge_certificate security step.certificate) step
              (after_step step n) i again
              (λ e. rules.stepped n i h (judge_certificate-Passes step e)) k)
        | inr q ↦ rw q (
            take_status-keeps step.status step (after_step step n) i again refl
              (rules.stepped n i h (not_asked q)) k)
      ]

  negotiate_loop-keeps : (fuel : ℕ) → After (negotiate_loop security fuel)
  unfolding negotiate_loop
  negotiate_loop-keeps zero n i h = rules.left sec_e_internal_error true n i
  negotiate_loop-keeps (suc fuel) n i h =
      read_more-keeps n i
        (λ m j.
          take_step security (security.step m.context m.buffer) m j (negotiate_loop security fuel))
        h
        (λ m j g. take_step-keeps m j (negotiate_loop security fuel) g (negotiate_loop-keeps fuel))

  send_first-keeps :
      (fuel : ℕ) (step : Step S) (n : Negotiation S) (i : Incoming)
      → I n i
      → R (send_first security fuel step n i)
  unfolding send_first
  send_first-keeps fuel step n i h = elim (Bool-cases (is_empty step.token)) [
    | inl q ↦ rw q (negotiate_loop-keeps fuel n i h)
    | inr q ↦
        elim (Option-cases (first_sent security step.token (security.socket_send [] step.token))) [
          | inl e ↦ rw q (
              rw e (
                negotiate_loop-keeps fuel (record n { written = step.token ∷ [] }) i
                  (rules.moved n i n.do_read (step.token ∷ []) h)))
          | inr (status, e) ↦ rw q (rw e (rules.left status true n i))
        ]
  ]

  begin-keeps :
      (status : Status) (fuel : ℕ) (i : Incoming)
      → I (fresh security security.first) i
      → ((n : Negotiation S)
          → (last : Option Status) → R (record (leave status false n i) { last_status = last }))
      → R (begin security status fuel i)
  unfolding begin
  begin-keeps sec_i_continue_needed fuel i h k =
      send_first-keeps fuel security.first (fresh security security.first) i h
  begin-keeps sec_e_ok fuel i h k = k (fresh security security.first) (some sec_e_ok)
  begin-keeps sec_e_incomplete_message fuel i h k =
      k (fresh security security.first) (some sec_e_incomplete_message)
  begin-keeps sec_i_incomplete_credentials fuel i h k =
      k (fresh security security.first) (some sec_i_incomplete_credentials)
  begin-keeps sec_e_internal_error fuel i h k =
      k (fresh security security.first) (some sec_e_internal_error)
  begin-keeps sec_e_unknown_credentials fuel i h k =
      k (fresh security security.first) (some sec_e_unknown_credentials)
  begin-keeps crypt_e_file_error fuel i h k =
      k (fresh security security.first) (some crypt_e_file_error)
  begin-keeps (other_failure c) fuel i h k =
      k (fresh security security.first) (some (other_failure c))
  begin-keeps (other_success c) fuel i h k =
      k (fresh security security.first) (some (other_success c))

  pub sspi_negotiate_loop-keeps :
      (fuel : ℕ) (i : Incoming)
      → I (fresh security security.first) i
      → ((status : Status) (n : Negotiation S) (last : Option Status)
          → R (record (leave status false n i) { last_status = last }))
      → R (sspi_negotiate_loop security fuel i)
  unfolding sspi_negotiate_loop
  sspi_negotiate_loop-keeps fuel i h k =
      begin-keeps security.first.status fuel i h (k security.first.status)
