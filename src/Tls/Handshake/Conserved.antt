-- ===== src/Tls/Handshake/Conserved.antt =====
-- The bytes that the handshake leaves for the stream (socket/SSLClient.cpp, SSPINegotiateLoop).
use lua_xenetwork.Prelude.{
  ℕ, ◌-◌, ◌≤◌, Bool, true, false, List, [], ◌∷◌, ◌++◌, Option, none, some, Bytes, length, take,
  drop, ◌≡◌, ◌⊎◌, inl, inr, refl, sym, ap, ◌∙◌, subst, take-append-drop, length-drop, Option-cases,
  arith,
}
use lua_xenetwork.Proxy.Wire.{Incoming}
use lua_xenetwork.Proxy.Wire.Exact.{pending}
use lua_xenetwork.Tls.Handshake.{
  Status, sec_e_ok, sec_i_continue_needed, sec_e_incomplete_message, sec_i_incomplete_credentials,
  sec_e_internal_error, Step, Round, Security, Negotiation, Negotiated, conclude_loop, leave,
  left_over, sspi_negotiate_loop,
}
use lua_xenetwork.Tls.Handshake.Induction.{Rules, is_ok, sspi_negotiate_loop-keeps}

-- The security package leaves no more bytes than it was given.
abbrev pub LeavesWithin : {S : Type 0} → Security S → Type 0
LeavesWithin {S} security =
    (context : S) (buffer : Bytes) (n : ℕ)
    → (security.step context buffer).extra ≡ some n
    → n ≤ length buffer

abbrev pub Takes : Status → Type 0
Takes status = (status ≡ sec_e_ok) ⊎ (status ≡ sec_i_continue_needed)

abbrev pub Retains : Status → Type 0
Retains status = (status ≡ sec_e_incomplete_message) ⊎ (status ≡ sec_i_incomplete_credentials)

-- The bytes of a round's buffer that are not used up by it: those at its end that SECBUFFER_EXTRA
-- counts, or all when the step is to be taken again.
pub data Leaves {S : Type 0} (round : Round S) : Bytes → Type 0 where
  nothing : Takes round.step.status → round.step.extra ≡ none → Leaves round []
  the_end :
      (used rest : Bytes)
      → Takes round.step.status
      → round.step.extra ≡ some (length rest)
      → round.buffer ≡ used ++ rest
      → Leaves round rest
  everything : Retains round.step.status → Leaves round round.buffer

-- Rounds that were fed with what arrives, byte by byte in order: what they hold, and what follows.
pub data Fed {S : Type 0} (security : Security S) (all : Bytes)
    : List (Round S) → Bytes → Bytes → Type 0 where
  starts : Fed security all [] [] all
  reads :
      {rounds : List (Round S)} {held : Bytes} (bytes later : Bytes)
      → Fed security all rounds held (bytes ++ later)
      → Fed security all rounds (held ++ bytes) later
  takes :
      {rounds : List (Round S)} {rest later : Bytes} (round : Round S)
      → round.step ≡ security.step round.context round.buffer
      → Leaves round rest
      → Fed security all rounds round.buffer later
      → Fed security all (rounds ++ (round ∷ [])) rest later

-- A completed negotiation: its last round ended with SEC_E_OK, and what was saved is what that round
-- left of all that it and the earlier ones were fed with.
pub record Completed {S : Type 0} (security : Security S) (all : Bytes) (r : Negotiated S)
    : Type 0 where
  pub earlier : List (Round S)
  pub last : Round S
  pub rounds_eq : r.rounds ≡ earlier ++ (last ∷ [])
  pub last_ok : last.step.status ≡ sec_e_ok
  pub last_made : last.step ≡ security.step last.context last.buffer
  pub context_eq : r.context ≡ last.step.context
  pub fed : Fed security all earlier last.buffer (pending r.incoming)
  pub left : Leaves last r.saved

left_over-Leaves :
    {S : Type 0} (round : Round S)
    → Takes round.step.status
    → ((n : ℕ) → round.step.extra ≡ some n → n ≤ length round.buffer)
    → Leaves round (left_over round.step.extra round.buffer)
unfolding left_over
left_over-Leaves round t within = elim (Option-cases round.step.extra) [
  | inl q ↦
      let same : left_over round.step.extra round.buffer ≡ [] = rw q refl in
      subst (Leaves round) (sym same) (nothing t q)
  | inr (n, q) ↦
      let kept : Bytes = drop (length round.buffer - n) round.buffer in
      let same : left_over round.step.extra round.buffer ≡ kept = rw q refl in
      let size : n ≡ length kept =
        omega (arith, length-drop (length round.buffer - n) round.buffer, within n q) in
      subst (Leaves round) (sym same) (
        the_end (take (length round.buffer - n) round.buffer) kept t (q ∙ ap some size)
          (sym (take-append-drop (length round.buffer - n) round.buffer)))
]

module _ {S : Type 0} (security : Security S) (within : LeavesWithin security) (all : Bytes) where
  -- Behind a step: the last round is that step's, and the ones before it were fed with its buffer.
  record Behind (step : Step S) (n : Negotiation S) (i : Incoming) : Type 0 where
    earlier : List (Round S)
    context : S
    rounds_eq :
        n.rounds ≡ earlier ++ (record { context = context; buffer = n.buffer; step = step } ∷ [])
    made : step ≡ security.step context n.buffer
    context_eq : n.context ≡ step.context
    fed : Fed security all earlier n.buffer (pending i)

  abbrev Between : Negotiation S → Incoming → Type 0
  Between n i = Fed security all n.rounds n.buffer (pending i)

  abbrev CompletedIf : Negotiated S → Type 0
  CompletedIf r = r.status ≡ sec_e_ok → r.encrypting ≡ true → Completed security all r

  left-CompletedIf :
      (status : Status) (closed : Bool) (n : Negotiation S) (i : Incoming)
      → CompletedIf (leave status closed n i)
  unfolding leave
  left-CompletedIf status closed n i = λ e on. absurd (cc)

  refused-CompletedIf :
      (status : Status) (n : Negotiation S) (last : Option Status) (i : Incoming)
      → CompletedIf (record (leave status false n i) { last_status = last })
  unfolding leave
  refused-CompletedIf status n last i = λ e on. absurd (cc)

  broken_off-CompletedIf :
      (status : Status) (n : Negotiation S) (i : Incoming)
      → is_ok status ≡ false
      → CompletedIf (conclude_loop status [] n i)
  unfolding conclude_loop
  broken_off-CompletedIf status n i e = λ ok on. absurd (not_ok (ap is_ok (sym ok) ∙ e))
    where
      not_ok : true ≡ false → ⊥
      not_ok e = cc

  -- What a step leaves, behind it.
  step-Fed :
      (step : Step S) (n : Negotiation S) (i : Incoming) {rest : Bytes} (b : Behind step n i)
      → Leaves (record { context = b.context; buffer = n.buffer; step = step }) rest
      → Fed security all n.rounds rest (pending i)
  step-Fed step n i {rest} b l =
      let round : Round S = record { context = b.context; buffer = n.buffer; step = step } in
      subst (λ r. Fed security all r rest (pending i)) (sym b.rounds_eq)
        (takes round b.made l b.fed)

  step-Leaves :
      (step : Step S) (n : Negotiation S) (i : Incoming) (b : Behind step n i)
      → Takes step.status
      → Leaves
          (record { context = b.context; buffer = n.buffer; step = step })
          (left_over step.extra n.buffer)
  step-Leaves step n i b t =
      left_over-Leaves (record { context = b.context; buffer = n.buffer; step = step }) t
        (λ k q. within b.context n.buffer k (ap (λ s. s.extra) (sym b.made) ∙ q))

  completed-CompletedIf :
      (step : Step S) (n : Negotiation S) (i : Incoming)
      → step.status ≡ sec_e_ok
      → Behind step n i
      → CompletedIf (conclude_loop sec_e_ok (left_over step.extra n.buffer) n i)
  unfolding conclude_loop
  completed-CompletedIf step n i q b = λ e on. record {
    earlier = b.earlier;
    last = record { context = b.context; buffer = n.buffer; step = step };
    rounds_eq = b.rounds_eq;
    last_ok = q;
    last_made = b.made;
    context_eq = b.context_eq;
    fed = b.fed;
    left = step-Leaves step n i b (inl q);
  }

  Completed-Rules : Rules security Between Behind CompletedIf
  Completed-Rules = record {
    left = left-CompletedIf;
    broken_off = λ status context step n i e b.
        broken_off-CompletedIf status (record n { context = context }) i e;
    cut_short = λ n i j h. broken_off-CompletedIf sec_e_internal_error n j refl;
    completed = completed-CompletedIf;
    arrived = λ n i j b bytes h e.
        reads (b ∷ bytes) (pending j) (subst (Fed security all n.rounds n.buffer) e h);
    moved = λ n i do_read written h. h;
    stepped = λ n i h passes. record {
      earlier = n.rounds;
      context = n.context;
      rounds_eq = refl;
      made = refl;
      context_eq = refl;
      fed = h;
    };
    sent = λ step n i written b. record {
      earlier = b.earlier;
      context = b.context;
      rounds_eq = b.rounds_eq;
      made = b.made;
      context_eq = b.context_eq;
      fed = b.fed;
    };
    continued = λ step n i q b. step-Fed step n i b (step-Leaves step n i b (inr q));
    waited = λ step n i q b. step-Fed step n i b (everything (inl q));
    renewed = λ step n i context q b. step-Fed step n i b (everything (inr q));
  }

-- A negotiation that ends encrypting with SEC_E_OK, after any number of rounds, loses no byte behind
-- the handshake, if the package never leaves more bytes than it was given: the rounds were fed with
-- what arrives, in order and without a gap, each with what the one before it left and what was read
-- since; and what is saved for the stream is exactly what the last round, of SEC_E_OK, left of its
-- buffer. What is still to arrive follows it.
pub sspi_negotiate_loop-Completed :
    {S : Type 0} (security : Security S) (fuel : ℕ) (i : Incoming)
    → LeavesWithin security
    → (sspi_negotiate_loop security fuel i).status ≡ sec_e_ok
    → (sspi_negotiate_loop security fuel i).encrypting ≡ true
    → Completed security (pending i) (sspi_negotiate_loop security fuel i)
sspi_negotiate_loop-Completed security fuel i within =
    sspi_negotiate_loop-keeps security (Between security within (pending i))
      (Behind security within (pending i)) (CompletedIf security within (pending i))
      (Completed-Rules security within (pending i)) fuel i starts
      (λ status n last. refused-CompletedIf security within (pending i) status n last i)
