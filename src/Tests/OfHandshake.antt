-- ===== src/Tests/OfHandshake.antt =====
-- Runs of the TLS handshake (socket/SSLClient.cpp) on a security package that takes one byte a step.
use lua_xenetwork.Prelude.{
  ℕ, zero, suc, ◌<◌, true, false, [], ◌∷◌, none, some, Bytes, codes, length, length-drop, ◌-◌, ◌≡◌,
  ◌≢◌, refl, arith,
}
use lua_xenetwork.Proxy.Wire.{Incoming, closed, arrives, recv_partial}
use lua_xenetwork.Tls.Handshake.{
  sec_e_ok, sec_i_continue_needed, sec_e_incomplete_message, sec_i_incomplete_credentials,
  is_failure, Step, Security, conclude_loop, leave, left_over, take_read, read_more, judges,
  judge_certificate, reported, send_token, take_status, after_token, after_judgement, take_step,
  negotiate_loop, first_sent, send_first, begin, sspi_negotiate_loop,
}
use lua_xenetwork.Tls.Handshake.Judged.{Sound, sspi_negotiate_loop-Sound}
use lua_xenetwork.Tls.Handshake.Conserved.{LeavesWithin, Completed, sspi_negotiate_loop-Completed}
use lua_xenetwork.Tls.Handshake.Rounds.{Progresses, sspi_negotiate_loop-enough}

-- The second byte ends the handshake and presents a certificate; what follows is left.
abbrev step : ℕ → Bytes → Step ℕ
step s [] = record {
  status = sec_e_incomplete_message;
  extended_error = false;
  token = [];
  extra = none;
  context = s;
  certificate = none;
}
step zero (b ∷ rest) = record {
  status = sec_i_continue_needed;
  extended_error = false;
  token = codes "key";
  extra = some (length rest);
  context = 1;
  certificate = none;
}
step (suc s) (b ∷ rest) = record {
  status = sec_e_ok;
  extended_error = false;
  token = [];
  extra = some (length rest);
  context = 2;
  certificate = some (codes "server");
}

abbrev security : Security ℕ
security = record {
  first = record {
    status = sec_i_continue_needed;
    extended_error = false;
    token = codes "hello";
    extra = none;
    context = 0;
    certificate = none;
  };
  step = step;
  issuers = λ s. sec_e_ok;
  select_certificate = none;
  acquire = λ s. (sec_e_ok, s);
  sizes = λ s. sec_e_ok;
  name_matches = λ certificate. true;
  trusted = λ certificate. true;
  acceptable = some (λ certificate trusted matches. trusted);
  socket_send = λ before token. some (length token);
}

abbrev in_portions : Incoming
in_portions = arrives (codes "ab") (arrives (codes "c") closed)

sspi_negotiate_loop_run :
    (sspi_negotiate_loop security 8 (arrives (codes "abc") closed)).encrypting ≡ true
unfolding sspi_negotiate_loop begin send_first first_sent negotiate_loop read_more take_read
    recv_partial take_step judges is_failure judge_certificate after_judgement send_token reported
    after_token take_status left_over conclude_loop leave
sspi_negotiate_loop_run = refl

sspi_negotiate_loop-Sound_example :
    Sound security (sspi_negotiate_loop security 8 (arrives (codes "abc") closed))
sspi_negotiate_loop-Sound_example =
    sspi_negotiate_loop-Sound security 8 (arrives (codes "abc") closed) sspi_negotiate_loop_run

one_taken :
    (b : ℕ) (rest : Bytes) → length (left_over (some (length rest)) (b ∷ rest)) < suc (length rest)
unfolding left_over
one_taken b rest = omega (arith, length-drop (suc (length rest) - length rest) (b ∷ rest))

progresses : Progresses security
progresses = record { takes = takes; anonymous = anonymous }
  where
    takes :
        (s : ℕ) (buffer : Bytes)
        → (step s buffer).status ≡ sec_i_continue_needed
        → length (left_over (step s buffer).extra buffer) < length buffer
    takes s [] e = absurd (cc)
    takes zero (b ∷ rest) e = one_taken b rest
    takes (suc s) (b ∷ rest) e = absurd (cc)

    anonymous : (s : ℕ) (buffer : Bytes) → (step s buffer).status ≢ sec_i_incomplete_credentials
    anonymous s [] e = absurd (cc)
    anonymous zero (b ∷ rest) e = absurd (cc)
    anonymous (suc s) (b ∷ rest) e = absurd (cc)

sspi_negotiate_loop-enough_example :
    sspi_negotiate_loop security 8 in_portions ≡ sspi_negotiate_loop security 108 in_portions
sspi_negotiate_loop-enough_example = sspi_negotiate_loop-enough security progresses 100 in_portions

sspi_negotiate_loop_ok_run :
    (sspi_negotiate_loop security 8 (arrives (codes "abc") closed)).status ≡ sec_e_ok
unfolding sspi_negotiate_loop begin send_first first_sent negotiate_loop read_more take_read
    recv_partial take_step judges is_failure judge_certificate after_judgement send_token reported
    after_token take_status left_over conclude_loop leave
sspi_negotiate_loop_ok_run = refl

leaves_within : LeavesWithin security
leaves_within s [] n e = absurd (cc)
leaves_within zero (b ∷ rest) n e = ground arith
leaves_within (suc s) (b ∷ rest) n e = ground arith

sspi_negotiate_loop-Completed_example :
    Completed security (codes "abc") (sspi_negotiate_loop security 8 (arrives (codes "abc") closed))
sspi_negotiate_loop-Completed_example =
    sspi_negotiate_loop-Completed security 8 (arrives (codes "abc") closed) leaves_within
      sspi_negotiate_loop_ok_run sspi_negotiate_loop_run
