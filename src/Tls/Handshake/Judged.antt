-- ===== src/Tls/Handshake/Judged.antt =====
-- What a negotiation that ends with encryption has looked at (socket/SSLClient.cpp, SSPINegotiateLoop).
use lua_xenetwork.Prelude.{
  ℕ, Bool, true, false, not, ◌&&◌, [], ◌∷◌, Option, none, some, Bytes, All, All-append, ◌≡◌, refl,
  sym, ◌∙◌,
}
use lua_xenetwork.Proxy.Wire.{Incoming}
use lua_xenetwork.Tls.Handshake.{
  left_over, Status, sec_e_ok, sec_i_continue_needed, sec_e_incomplete_message,
  sec_i_incomplete_credentials, sec_e_internal_error, sec_e_unknown_credentials, crypt_e_file_error,
  other_failure, other_success, is_failure, Step, Round, Security, Negotiation, Negotiated,
  conclude_loop, leave, judges, accepts, sspi_negotiate_loop,
}
use lua_xenetwork.Tls.Handshake.Induction.{
  Rules, Passes, not_asked, without, accepted, sspi_negotiate_loop-keeps,
}

-- The steps behind which the server's certificate has to be looked at: the handshake is complete or
-- goes on, or it failed with an extended error.
pub data Asks {S : Type 0} (step : Step S) : Type 0 where
  completes : step.status ≡ sec_e_ok → Asks step
  goes_on : step.status ≡ sec_i_continue_needed → Asks step
  extended : is_failure step.status ≡ true → step.extended_error ≡ true → Asks step

module _ {S : Type 0} (security : Security S) where
  -- A round that asked the security package and lets the handshake go on: if its certificate has to
  -- be looked at, there is none, or the hook accepts it, or there is no hook.
  pub data Settled (round : Round S) : Type 0 where
    unasked :
        round.step ≡ security.step round.context round.buffer → ¬ Asks round.step → Settled round
    absent :
        round.step ≡ security.step round.context round.buffer
        → round.step.certificate ≡ none
        → Settled round
    approved :
        (certificate : Bytes)
        → round.step ≡ security.step round.context round.buffer
        → round.step.certificate ≡ some certificate
        → accepts security certificate ≡ true
        → Settled round

  -- A negotiation that may be gone on from: the context is open, its status is no failure, the last
  -- status is kept, and every round is settled.
  pub record Sound (r : Negotiated S) : Type 0 where
    pub no_failure : is_failure r.status ≡ false
    pub open_context : r.closed ≡ false
    pub kept : r.last_status ≡ some r.status
    pub settled : All Settled r.rounds

  judges_complete : (step : Step S) → Asks step → judges security step ≡ true
  unfolding judges is_failure
  judges_complete step (completes q) = rw q refl
  judges_complete step (goes_on q) = rw q refl
  judges_complete step (extended f q) = go step.status step.extended_error f q
    where
      go :
          (status : Status) (b : Bool)
          → is_failure status ≡ true
          → b ≡ true
          → (elim status [ sec_e_ok ↦ true | sec_i_continue_needed ↦ true | s ↦ is_failure s && b ])
            ≡ true
      go sec_e_ok b f q = refl
      go sec_i_continue_needed b f q = refl
      go sec_e_incomplete_message b f q = q
      go sec_i_incomplete_credentials b f q = absurd (cc)
      go sec_e_internal_error b f q = q
      go sec_e_unknown_credentials b f q = q
      go crypt_e_file_error b f q = q
      go (other_failure c) b f q = q
      go (other_success c) b f q = absurd (cc)

  Passes-Settled :
      (round : Round S)
      → round.step ≡ security.step round.context round.buffer
      → Passes security round.step
      → Settled round
  Passes-Settled round made (not_asked q) =
      unasked made (λ a. absurd (true_false (sym (judges_complete round.step a) ∙ q)))
    where
      true_false : true ≡ false → ⊥
      true_false e = cc
  Passes-Settled round made (without q) = absent made q
  Passes-Settled round made (accepted c q a) = approved c made q a

  abbrev SoundIf : Negotiated S → Type 0
  SoundIf r = r.encrypting ≡ true → Sound r

  conclude_loop-SoundIf :
      (status : Status) (saved : Bytes) (n : Negotiation S) (i : Incoming)
      → All Settled n.rounds
      → SoundIf (conclude_loop status saved n i)
  unfolding conclude_loop
  conclude_loop-SoundIf status saved n i h e =
      let fine : is_failure status ≡ false = negated (is_failure status) e in
      record { no_failure = fine; open_context = fine; kept = refl; settled = h }
    where
      negated : (b : Bool) → not b ≡ true → b ≡ false
      negated true e = absurd (cc)
      negated false e = refl

  left-SoundIf :
      (status : Status) (closed : Bool) (n : Negotiation S) (i : Incoming)
      → SoundIf (leave status closed n i)
  unfolding leave
  left-SoundIf status closed n i = λ e. absurd (cc)

  refused-SoundIf :
      (status : Status) (n : Negotiation S) (last : Option Status) (i : Incoming)
      → SoundIf (record (leave status false n i) { last_status = last })
  unfolding leave
  refused-SoundIf status n last i = λ e. absurd (cc)

  Sound-Rules :
      Rules security (λ n i. All Settled n.rounds) (λ step n i. All Settled n.rounds) SoundIf
  Sound-Rules = record {
    left = left-SoundIf;
    broken_off = λ status context step n i e h.
        conclude_loop-SoundIf status [] (record n { context = context }) i h;
    cut_short = λ n i j h. conclude_loop-SoundIf sec_e_internal_error [] n j h;
    completed =
        λ step n i q h. conclude_loop-SoundIf sec_e_ok (left_over step.extra n.buffer) n i h;
    arrived = λ n i j b bytes h e. h;
    moved = λ n i do_read written h. h;
    stepped = λ n i h passes.
        let round : Round S = record {
          context = n.context;
          buffer = n.buffer;
          step = security.step n.context n.buffer;
        } in
        All-append Settled n.rounds (round ∷ []) h (Passes-Settled round refl passes, tt);
    sent = λ step n i written h. h;
    continued = λ step n i q h. h;
    waited = λ step n i q h. h;
    renewed = λ step n i context q h. h;
  }

  -- A negotiation that leaves the client encrypting, after any number of rounds, ended with a status
  -- that is no failure, kept it and the context, and every certificate that the security package
  -- gave behind a round that completed or went on with the handshake (or failed with an extended
  -- error) was accepted by the hook, or there is no hook.
  pub sspi_negotiate_loop-Sound :
      (fuel : ℕ) (i : Incoming)
      → (sspi_negotiate_loop security fuel i).encrypting ≡ true
      → Sound (sspi_negotiate_loop security fuel i)
  sspi_negotiate_loop-Sound fuel i =
      sspi_negotiate_loop-keeps security (λ n j. All Settled n.rounds)
        (λ step n j. All Settled n.rounds) SoundIf Sound-Rules fuel i tt
        (λ status n last. refused-SoundIf status n last i)
