-- ===== src/Tls/Client/Sending.antt =====
-- CSSLClient::Send (socket/SSLClient.cpp). A text is a buffer that is not null.
use lua_xenetwork.Prelude.{
  ℕ, zero, suc, ◌+◌, ◌-◌, ◌%◌, ◌^◌, Bool, ◌||◌, not, [], ◌∷◌, ◌++◌, none, some, Bytes, length, take,
  drop, ltb, leb, ◌==◌, if◌then◌else◌, Result, ok, err,
}
use lua_xenetwork.Tls.Client.{Package, Client, max_msg_size, write_size, file_not_encrypted}

-- What Send returns: a count, as the bits of an `int`, or SOCKET_ERROR; or memcpy_s refused a text
-- that does not fit the write buffer, which ends the process.
pub data Sent : Type 0 where
  sent : ℕ → Sent
  send_error : Sent
  aborted : Sent

unfoldable pub int_of : ℕ → ℕ
int_of n = n % 2 ^ 32

-- `sent <= 0`.
unfoldable pub nonpositive : ℕ → Bool
nonpositive n = n == 0 || leb (2 ^ 31) n

module _ {S : Type 0} (sspi : Package S) where
  unfoldable pub max_chunk : ℕ
  max_chunk =
      let schannel_maximum =
        (if sspi.maximum_message == 0 then max_msg_size else sspi.maximum_message) in
      if ltb max_msg_size schannel_maximum then max_msg_size else schannel_maximum

  -- The room that memcpy_s is told of: `sizeof(writeBuffer) - cbHeader - cbTrailer`, a size_t.
  unfoldable pub write_room : ℕ
  write_room = (write_size + (2 ^ 64 - (sspi.header + sspi.trailer) % 2 ^ 64)) % 2 ^ 64

  -- What was handed to the socket, and what it reported: any count is success.
  unfoldable pub write : Bytes → Bytes → Client S → Sent
  write text data_sent c = elim (sspi.socket_send c.written data_sent) [
    | none ↦ send_error
    | some n ↦ sent (int_of (length text))
  ]

  unfoldable pub write_sealed : Bytes → Result ℕ (Bytes × S) → Client S → Sent × Client S
  unfolding write
  write_sealed text (err status) c = (send_error, record c { last_error = status })
  write_sealed text (ok (data_sent, context)) c = (
    write text data_sent c,
    record c { context = context; written = c.written ++ (data_sent ∷ []); last_error = 0 },
  )

  -- One record.
  unfoldable pub send_record : Bytes → Client S → Sent × Client S
  unfolding write_room write_sealed
  send_record text c =
      if ltb write_room (length text)
      then (aborted, c)
      else write_sealed text (sspi.encrypt_message c.context text) c

  unfoldable pub refuse : Client S → Sent × Client S
  refuse c = (send_error, record c { last_error = file_not_encrypted })

  -- `Send` of a text that is one record.
  unfoldable pub send_chunk : Bytes → Client S → Sent × Client S
  unfolding send_record refuse
  send_chunk text c = if c.encrypting then send_record text c else refuse c

  -- How the loop goes on after a chunk.
  unfoldable pub count_chunk : Sent × Client S → (ℕ → Client S → Sent × Client S) → Sent × Client S
  unfolding nonpositive
  count_chunk (sent n, c) again =
      let later = again n c in if nonpositive n then (send_error, c) else later
  count_chunk (send_error, c) again = (send_error, c)
  count_chunk (aborted, c) again = (aborted, c)

  -- The loop over the chunks: the text from `total` on. Every round that goes on has sent a byte, so
  -- that as many rounds as bytes are enough.
  unfoldable pub send_chunks : ℕ → ℕ → Bytes → Client S → Sent × Client S
  unfolding int_of count_chunk send_chunk
  send_chunks fuel total [] c = (sent (int_of total), c)
  send_chunks zero total (b ∷ rest) c = (send_error, c)
  send_chunks (suc fuel) total (b ∷ rest) c =
      count_chunk (send_chunk (take max_chunk (b ∷ rest)) c)
        (λ n c2. send_chunks fuel (total + n) (drop n (b ∷ rest)) c2)

  unfoldable pub send : Bytes → Client S → Sent × Client S
  unfolding refuse max_chunk send_chunks send_record
  send text c =
      if not c.encrypting
      then refuse c
      else if ltb max_chunk (length text)
      then send_chunks (length text) 0 text c
      else send_record text c
