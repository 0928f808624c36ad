-- ===== src/Tls/Client.antt =====
-- The TLS stream once it is set up (socket/SSLClient.cpp, CSSLClient::Recv, RecvPartialEncrypted and
-- Send; socket/SSLClient.h). The read buffer is the bytes at `readPtr` and the free room in front of
-- them. What DecryptMessage and EncryptMessage do, and what the socket's Send reports, is a parameter.
pub mod Stream
pub mod Receiving
pub mod Reads
pub mod Sending
pub mod Records
pub mod Delivery
pub mod EndToEnd
pub mod Rounds
use lua_xenetwork.Prelude.{
  ℕ, zero, suc, ◌+◌, ◌-◌, ◌*◌, Bool, true, false, not, List, [], ◌∷◌, ◌++◌, Option, none, some,
  Bytes, length, take, drop, is_empty, ltb, leb, ◌==◌, min, if◌then◌else◌, Result, ok, err,
}
use lua_xenetwork.Proxy.Wire.{Incoming, Read, socket_error, received, recv_partial}
use lua_xenetwork.Proxy.Wire.Exact.{pending}

abbrev pub max_msg_size : ℕ
max_msg_size = 16000

abbrev pub max_extra_size : ℕ
max_extra_size = 50

abbrev pub read_size : ℕ
read_size = (max_msg_size + max_extra_size) * 2

abbrev pub plain_size : ℕ
plain_size = max_msg_size * 2

abbrev pub write_size : ℕ
write_size = max_msg_size + max_extra_size

-- ERROR_FILE_NOT_ENCRYPTED
abbrev pub file_not_encrypted : ℕ
file_not_encrypted = 6007

-- WSASYSCALLFAILURE
abbrev pub syscall_failure : ℕ
syscall_failure = 10107

-- WSAEMSGSIZE
abbrev pub message_size : ℕ
message_size = 10040

-- What DecryptMessage makes of the bytes at hand: a message with its data buffer and the number of
-- bytes behind it, if it reports such buffers, and the context after it.
pub data Decrypted (S : Type 0) : Type 0 where
  incomplete_message : Decrypted S
  message : Option Bytes → Option ℕ → S → Decrypted S
  context_expired : Decrypted S
  decrypt_error : ℕ → Decrypted S

-- `Sizes`, and the functions of the security package over the context's state. EncryptMessage gives
-- a whole record or a status. The socket's Send reports a count, or nothing for SOCKET_ERROR; it is
-- given what was written before.
pub record Package (S : Type 0) : Type 0 where
  pub header : ℕ
  pub trailer : ℕ
  pub maximum_message : ℕ
  pub decrypt_message : S → Bytes → Decrypted S
  pub encrypt_message : S → Bytes → Result ℕ (Bytes × S)
  pub socket_send : List Bytes → Bytes → Option ℕ

-- The members of CSSLClient: `plain` is what is at plainTextPtr, `before` the room in front of
-- readPtr, `cipher` what is at readPtr, `written` what the socket was given to send. An error of 0
-- is the socket's.
pub record Client (S : Type 0) : Type 0 where
  pub encrypting : Bool
  pub plain : Bytes
  pub before : ℕ
  pub cipher : Bytes
  pub context : S
  pub written : List Bytes
  pub last_error : ℕ

-- What Recv returns (nothing for SOCKET_ERROR), and what it leaves.
pub record Outcome (S : Type 0) : Type 0 where
  pub answer : Option Bytes
  pub client : Client S
  pub incoming : Incoming

abbrev cleared : ℕ → Bytes
cleared zero = []
cleared (suc n) = 0 ∷ cleared n

module _ {S : Type 0} where
  abbrev pub returns : Option Bytes → Client S → Incoming → Outcome S
  returns answer c i = record { answer = answer; client = c; incoming = i }

  -- SOCKET_ERROR with a reason of the client's own.
  abbrev pub fails : ℕ → Client S → Incoming → Outcome S
  fails code c i = returns none (record c { last_error = code }) i

  -- The server ended the session.
  abbrev pub session_over : Client S → Incoming → Outcome S
  session_over c i = returns (some []) (record c { encrypting = false; last_error = 0 }) i

  -- Room at the end of the read buffer, made by moving what it holds down if there is none.
  unfoldable pub make_room : Client S → Option (ℕ × Client S)
  make_room c =
      let free = read_size - length c.cipher - c.before in
      if free == 0
      then (if ltb 0 c.before then some (c.before, record c { before = 0 }) else none)
      else some (free, c)

  -- `readBufferBytes` and `readPtr` after a message: the bytes behind it stay where they are.
  unfoldable pub keep_extra : Option ℕ → Client S → Client S
  keep_extra none c = record c { before = 0; cipher = [] }
  keep_extra (some n) c = record c {
    before = c.before + (length c.cipher - n);
    cipher = drop (length c.cipher - n) c.cipher;
  }

  -- The data of a message: what the caller asked for, and the rest stored. A rest that is larger
  -- than the store is not copied: memcpy_s clears the store and calls the C runtime's handler, and
  -- this is what the code does when the handler returns.
  unfoldable pub hand_out : ℕ → Bytes → Option ℕ → Client S → Incoming → Outcome S
  unfolding keep_extra
  hand_out len bytes extra c i =
      if leb (length bytes) len
      then returns (some bytes) (keep_extra extra c) i
      else if leb (length bytes - len) plain_size
      then returns (some (take len bytes)) (keep_extra extra (record c { plain = drop len bytes }))
          i
      else fails message_size (record c { plain = cleared (length bytes - len) }) i

  -- The loop of RecvPartialEncrypted, given the status of the last DecryptMessage. Each round but the
  -- last takes a byte from the socket.
  module _ (sspi : Package S) where
    unfoldable pub decrypt_next :
        Read × Incoming → Client S → (Decrypted S → Client S → Incoming → Outcome S) → Outcome S
    decrypt_next (socket_error timed_out, rest) c again =
        returns none (record c { last_error = 0 }) rest
    decrypt_next (received [], rest) c again = session_over c rest
    decrypt_next (received (b ∷ bytes), rest) c again =
        let longer = c.cipher ++ (b ∷ bytes) in
        again (sspi.decrypt_message c.context longer) (record c { cipher = longer; last_error = 0 })
          rest

    -- A round without a full message.
    unfoldable pub receive_more :
        Option (ℕ × Client S)
        → Client S
        → Incoming
        → (Decrypted S → Client S → Incoming → Outcome S)
        → Outcome S
    unfolding recv_partial decrypt_next
    receive_more none c i again = returns none c i
    receive_more (some (free, moved)) c i again = decrypt_next (recv_partial free i) moved again

    unfoldable pub decrypt_loop : ℕ → ℕ → Decrypted S → Client S → Incoming → Outcome S
    unfolding make_room receive_more hand_out
    decrypt_loop zero len status c i = returns none c i
    decrypt_loop (suc fuel) len incomplete_message c i =
        receive_more (make_room c) c i (decrypt_loop fuel len)
    decrypt_loop (suc fuel) len context_expired c i = session_over c i
    decrypt_loop (suc fuel) len (decrypt_error status) c i = fails status c i
    decrypt_loop (suc fuel) len (message none extra context) c i =
        fails syscall_failure (record c { context = context }) i
    decrypt_loop (suc fuel) len (message (some bytes) extra context) c i =
        hand_out len bytes extra (record c { context = context }) i

    -- The status that the loop starts with.
    unfoldable pub first_status : Client S → Decrypted S
    first_status c =
        if is_empty c.cipher then incomplete_message else sspi.decrypt_message c.context c.cipher

    -- As many rounds as bytes arrive, and one, are enough.
    unfoldable pub recv_partial_encrypted : ℕ → Client S → Incoming → Outcome S
    unfolding decrypt_loop first_status
    recv_partial_encrypted len c i =
        decrypt_loop (suc (length (pending i))) len (first_status c) c i

    -- The stored bytes first; otherwise a message.
    unfoldable pub recv_stored : ℕ → Bytes → Client S → Incoming → Outcome S
    recv_stored len plain c i =
        if leb (length plain) len
        then returns (some plain) (record c { plain = [] }) i
        else returns (some (take len plain)) (record c { plain = drop len plain }) i

    unfoldable pub recv : ℕ → Client S → Incoming → Outcome S
    unfolding recv_stored recv_partial_encrypted
    recv len c i =
        if is_empty c.plain
        then (if c.encrypting then recv_partial_encrypted len c i else fails file_not_encrypted c i)
        else recv_stored len c.plain c i
