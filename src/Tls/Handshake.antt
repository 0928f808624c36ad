-- ===== src/Tls/Handshake.antt =====
-- The TLS handshake (socket/SSLClient.cpp, CSSLClient::Initialize, SSPINegotiateLoop and
-- GetNewClientCredentials). What the security package, the certificate helpers, the hooks and the
-- socket answer is a parameter.
pub mod Induction
pub mod Judged
pub mod Conserved
pub mod Rounds
use lua_xenetwork.Prelude.{
  ℕ, zero, suc, ◌+◌, ◌-◌, Bool, true, false, ◌&&◌, ◌||◌, not, List, [], ◌∷◌, ◌++◌, Option, none,
  some, Bytes, length, drop, is_empty, ◌==◌, if◌then◌else◌,
}
use lua_xenetwork.Proxy.Wire.{Incoming, Read, socket_error, received, recv_partial}
use lua_xenetwork.Tls.Client.{read_size}

-- The statuses that the code tells apart, and any other that is FAILED or is not.
pub data Status : Type 0 where
  sec_e_ok sec_i_continue_needed sec_e_incomplete_message sec_i_incomplete_credentials : Status
  sec_e_internal_error sec_e_unknown_credentials crypt_e_file_error : Status
  other_failure other_success : ℕ → Status

unfoldable pub is_failure : Status → Bool
is_failure sec_e_ok = false
is_failure sec_i_continue_needed = false
is_failure sec_i_incomplete_credentials = false
is_failure (other_success n) = false
is_failure _ = true

-- What InitializeSecurityContext makes of the bytes at hand: its status, ISC_RET_EXTENDED_ERROR, the
-- token to send, the number of bytes that it left, and the context after it; and the certificate that
-- QueryContextAttributes gives after it.
pub record Step (S : Type 0) : Type 0 where
  pub status : Status
  pub extended_error : Bool
  pub token : Bytes
  pub extra : Option ℕ
  pub context : S
  pub certificate : Option Bytes

-- The environment of the handshake: the first call of InitializeSecurityContext and the later ones,
-- the query of the issuers, the hook that selects a client certificate (its status, if it is set),
-- AcquireCredentialsHandle, whether the stream sizes can be queried, what the certificate helpers say
-- of a certificate, the hook that accepts it, and the socket's Send.
pub record Security (S : Type 0) : Type 0 where
  pub first : Step S
  pub step : S → Bytes → Step S
  pub issuers : S → Status
  pub select_certificate : Option Status
  pub acquire : S → Status × S
  pub sizes : S → Status
  pub name_matches : Bytes → Bool
  pub trusted : Bytes → Bool
  pub acceptable : Option (Bytes → Bool → Bool → Bool)
  pub socket_send : List Bytes → Bytes → Option ℕ

-- A round: what InitializeSecurityContext was called with, and what it made of that.
pub record Round (S : Type 0) : Type 0 where
  pub context : S
  pub buffer : Bytes
  pub step : Step S

-- The locals of the loop, and its rounds in order, which the code does not keep.
pub record Negotiation (S : Type 0) : Type 0 where
  pub buffer : Bytes
  pub do_read : Bool
  pub status : Status
  pub context : S
  pub written : List Bytes
  pub rounds : List (Round S)

-- How the negotiation ended: `saved` is what readBufferBytes counts, `last_status` what
-- m_LastSecurityStatus was set to.
pub record Negotiated (S : Type 0) : Type 0 where
  pub status : Status
  pub encrypting : Bool
  pub closed : Bool
  pub saved : Bytes
  pub last_status : Option Status
  pub context : S
  pub written : List Bytes
  pub rounds : List (Round S)
  pub incoming : Incoming

-- The bytes that a step left, which stand at the end of the buffer.
unfoldable pub left_over : Option ℕ → Bytes → Bytes
left_over none buffer = []
left_over (some n) buffer = drop (length buffer - n) buffer

abbrev pub waits : Status → Bool
waits sec_e_incomplete_message = true
waits _ = false

module _ {S : Type 0} where
  -- The end of the function behind the loop.
  unfoldable pub conclude_loop : Status → Bytes → Negotiation S → Incoming → Negotiated S
  unfolding is_failure
  conclude_loop status saved n i = record {
    status = status;
    encrypting = not (is_failure status);
    closed = is_failure status;
    saved = saved;
    last_status = some status;
    context = n.context;
    written = n.written;
    rounds = n.rounds;
    incoming = i;
  }

  -- A return from within the loop.
  unfoldable pub leave : Status → Bool → Negotiation S → Incoming → Negotiated S
  leave status closed n i = record {
    status = status;
    encrypting = false;
    closed = closed;
    saved = [];
    last_status = none;
    context = n.context;
    written = n.written;
    rounds = n.rounds;
    incoming = i;
  }

  -- The read at the start of a round, and the round behind it.
  unfoldable pub take_read :
      Read × Incoming → Negotiation S → (Negotiation S → Incoming → Negotiated S) → Negotiated S
  unfolding conclude_loop
  take_read (socket_error timed_out, i) n next = conclude_loop sec_e_internal_error [] n i
  take_read (received [], i) n next = conclude_loop sec_e_internal_error [] n i
  take_read (received (b ∷ bytes), i) n next =
      next (record n { buffer = n.buffer ++ (b ∷ bytes); do_read = true }) i

  unfoldable pub read_more :
      Negotiation S → Incoming → (Negotiation S → Incoming → Negotiated S) → Negotiated S
  unfolding recv_partial take_read
  read_more n i next =
      if is_empty n.buffer || waits n.status
      then (if n.do_read
          then take_read (recv_partial (read_size - length n.buffer) i) n next
          else next (record n { do_read = true }) i)
      else next n i

  module _ (security : Security S) where
    abbrev pub accepts : Bytes → Bool
    accepts certificate = elim security.acceptable [
      | none ↦ true
      | some hook ↦
          hook certificate (security.trusted certificate) (security.name_matches certificate)
    ]

    -- Is the server's certificate asked for after this step?
    unfoldable pub judges : Step S → Bool
    unfolding is_failure
    judges step = elim step.status [
      | sec_e_ok ↦ true
      | sec_i_continue_needed ↦ true
      | status ↦ is_failure status && step.extended_error
    ]

    -- The certificate's part of a round: is it accepted?
    unfoldable pub judge_certificate : Option Bytes → Bool
    judge_certificate none = true
    judge_certificate (some certificate) = accepts certificate

    -- The token's part: nothing if the socket's Send reports an error or no bytes.
    unfoldable pub reported : Option ℕ → Bool
    reported none = false
    reported (some n) = not (n == 0)

    unfoldable pub send_token : Bytes → Negotiation S → Option (Negotiation S)
    unfolding reported
    send_token [] n = some n
    send_token (b ∷ token) n =
        if reported (security.socket_send n.written (b ∷ token))
        then some (record n { written = n.written ++ ((b ∷ token) ∷ []) })
        else none

    -- `GetNewClientCredentials`.
    unfoldable pub new_credentials : S → Status × S
    unfolding is_failure
    new_credentials context = elim (security.issuers context) [
      | sec_e_ok ↦ elim security.select_certificate [
        | none ↦ security.acquire context
        | some status ↦ if is_failure status then (status, context) else security.acquire context
      ]
      | status ↦ (status, context)
    ]

    -- The round after new credentials, which begins without a read.
    unfoldable pub go_on_with :
        Status × S
        → Negotiation S
        → Incoming
        → (Negotiation S → Incoming → Negotiated S)
        → Negotiated S
    unfolding conclude_loop
    go_on_with (sec_e_ok, context) n i again =
        again (record n { do_read = false; status = sec_i_continue_needed; context = context }) i
    go_on_with (status, context) n i again =
        conclude_loop status [] (record n { context = context }) i

    -- What a round does with the status of its step.
    unfoldable pub take_status :
        Status
        → Option ℕ
        → Negotiation S
        → Incoming
        → (Negotiation S → Incoming → Negotiated S)
        → Negotiated S
    unfolding conclude_loop left_over
    take_status sec_e_incomplete_message extra n i again = again n i
    take_status sec_e_ok extra n i again = conclude_loop sec_e_ok (left_over extra n.buffer) n i
    take_status sec_i_incomplete_credentials extra n i again =
        go_on_with (new_credentials n.context) n i again
    take_status sec_i_continue_needed extra n i again =
        again (record n { buffer = left_over extra n.buffer }) i
    take_status status extra n i again = conclude_loop status [] n i

    unfoldable pub after_token :
        Option (Negotiation S)
        → Step S
        → Negotiation S
        → Incoming
        → (Negotiation S → Incoming → Negotiated S)
        → Negotiated S
    unfolding leave take_status
    after_token none step n i again = leave sec_e_internal_error true n i
    after_token (some sent) step n i again = take_status step.status step.extra sent i again

    unfoldable pub after_judgement :
        Bool
        → Step S
        → Negotiation S
        → Incoming
        → (Negotiation S → Incoming → Negotiated S)
        → Negotiated S
    unfolding leave send_token after_token
    after_judgement false step n i again = leave sec_e_unknown_credentials false n i
    after_judgement true step n i again = after_token (send_token step.token n) step n i again

    -- A round behind its read.
    unfoldable pub take_step :
        Step S → Negotiation S → Incoming → (Negotiation S → Incoming → Negotiated S) → Negotiated S
    unfolding judges judge_certificate after_judgement take_status
    take_step step n i again =
        let round : Round S = record { context = n.context; buffer = n.buffer; step = step } in
        let stepped = record n {
          status = step.status;
          context = step.context;
          rounds = n.rounds ++ (round ∷ []);
        } in
        if judges step
        then after_judgement (judge_certificate step.certificate) step stepped i again
        else take_status step.status step.extra stepped i again

    -- The loop, whose rounds are bounded by the fuel.
    unfoldable pub negotiate_loop : ℕ → Negotiation S → Incoming → Negotiated S
    unfolding read_more take_step leave
    negotiate_loop zero n i = leave sec_e_internal_error true n i
    negotiate_loop (suc fuel) n i =
        read_more n i
          (λ m j. take_step (security.step m.context m.buffer) m j (negotiate_loop fuel))

    -- The first token: it must be sent as a whole.
    unfoldable pub first_sent : Bytes → Option ℕ → Option Status
    first_sent token none = some crypt_e_file_error
    first_sent token (some n) = if n == length token then none else some sec_e_internal_error

    unfoldable pub send_first : ℕ → Step S → Negotiation S → Incoming → Negotiated S
    unfolding first_sent leave negotiate_loop
    send_first fuel step n i =
        if is_empty step.token
        then negotiate_loop fuel n i
        else elim (first_sent step.token (security.socket_send [] step.token)) [
          | some status ↦ leave status true n i
          | none ↦ negotiate_loop fuel (record n { written = step.token ∷ [] }) i
        ]

    abbrev pub fresh : Step S → Negotiation S
    fresh step = record {
      buffer = [];
      do_read = true;
      status = sec_i_continue_needed;
      context = step.context;
      written = [];
      rounds = [];
    }

    -- What follows the first call of InitializeSecurityContext.
    unfoldable pub begin : Status → ℕ → Incoming → Negotiated S
    unfolding leave send_first
    begin sec_i_continue_needed fuel i = send_first fuel security.first (fresh security.first) i
    begin status fuel i = record (leave status false (fresh security.first) i) {
      last_status = some status;
    }

    -- `SSPINegotiateLoop`.
    unfoldable pub sspi_negotiate_loop : ℕ → Incoming → Negotiated S
    unfolding begin
    sspi_negotiate_loop fuel i = begin security.first.status fuel i

    -- `Initialize` behind the credentials: the negotiation, and the query of the stream sizes.
    unfoldable pub initialize : ℕ → Incoming → Status × Negotiated S
    unfolding sspi_negotiate_loop is_failure
    initialize fuel i =
        let n = sspi_negotiate_loop fuel i in
        (if is_failure n.status then n.status else security.sizes n.context, n)
