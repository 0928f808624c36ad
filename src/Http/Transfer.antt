-- ===== src/Http/Transfer.antt =====
-- The receive loop of a request (main.cpp, ResolveHttpRequest from the sent request on, with
-- EmitResponseChunk's verdict). The socket or TLS session, the callbacks and the clock are the
-- environment: each round of the loop is given what they answer.
pub mod Body
pub mod Complete
use lua_xenetwork.Prelude.{
  ℕ, zero, suc, ◌+◌, ◌-◌, ◌*◌, Bool, true, false, not, ◌&&◌, ◌||◌, List, [], ◌∷◌, ◌++◌, Option,
  none, some, Bytes, codes, length, take, drop, is_empty, ltb, leb, ◌==◌, if◌then◌else◌, cut,
  strip_prefix, Result, ok, err, throw_if, ◌>>=◌, ◌>>◌,
}
use lua_xenetwork.Text.{lower_ascii}
use lua_xenetwork.Text.Numbers.{NumberError, stoull}
use lua_xenetwork.Timeouts.{TimeoutError, remaining}
use lua_xenetwork.Http.Chunk.{ChunkError, Decoder, decoder, Fed, fed, thrown, spent, feed, crlf}
use lua_xenetwork.Http.Headers.{
  Response, no_response, HeaderError, parse_response_headers, find_header,
}

pub record Options : Type 0 where
  pub receive_timeout_ms : ℕ
  pub total_timeout_ms : ℕ
  pub max_response_bytes : ℕ

pub data Error : Type 0 where
  cancelled cancelled_by_chunk failed_by_headers receive_failed headers_exceeded length_exceeds :
      Error
  response_exceeds closed_before_headers closed_before_chunks length_mismatch : Error
  out_of_time : TimeoutError → Error
  bad_headers : HeaderError → Error
  bad_length : NumberError → Error
  bad_chunk : ChunkError → Error

-- What `Recv` returns: some bytes, an orderly end (0, or the TLS session's end), or an error.
pub data Received : Type 0 where
  bytes : Bytes → Received
  closed : Received
  failed : Received

-- One round of the loop: whether `should_cancel` says so, the time since the start, and `Recv`.
pub record Turn : Type 0 where
  pub cancel : Bool
  pub elapsed : ℕ
  pub received : Received

-- Do the callbacks let the request go on: `on_headers` of a response, which stops it by failing, and
-- `on_chunk`, from the chunks that it has been given, which stops it by failing or by saying false?
pub record Callbacks : Type 0 where
  pub on_headers : Response → Bool
  pub on_chunk : List Bytes → Bytes → Bool

-- The locals of the loop.
pub record Transfer : Type 0 where
  pub response : Response
  pub decoder : Decoder
  pub pending_headers : Bytes
  pub got_headers : Bool
  pub chunked : Bool
  pub finished : Bool
  pub content_length : Option ℕ
  pub emitted : List Bytes

abbrev pub initial : Options → Transfer
initial options = record {
  response = no_response;
  decoder = decoder options.max_response_bytes;
  pending_headers = [];
  got_headers = false;
  chunked = false;
  finished = false;
  content_length = none;
  emitted = [];
}

-- `append_body`: nothing is emitted for an empty chunk.
unfoldable pub append_body : Options → Callbacks → Transfer → Bytes → Result Error Transfer
append_body options callbacks t chunk =
    if ltb options.max_response_bytes (length t.response.body + length chunk)
    then err response_exceeds
    else if is_empty chunk
    then ok t
    else if callbacks.on_chunk t.emitted chunk
    then ok (record t {
      response = record (t.response) { body = t.response.body ++ chunk };
      emitted = t.emitted ++ chunk ∷ [];
    })
    else err cancelled_by_chunk

unfoldable pub append_all : Options → Callbacks → Transfer → List Bytes → Result Error Transfer
append_all options callbacks t [] = ok t
append_all options callbacks t (c ∷ cs) = do
  t' ← append_body options callbacks t c
  append_all options callbacks t' cs

-- A body in chunks: what `Feed` returned is appended, and `Complete` ends the loop.
unfoldable pub take_chunks : Options → Callbacks → Transfer → Fed → Result Error Transfer
take_chunks options callbacks t (fed cs d) = do
  t' ← append_all options callbacks (record t { decoder = d }) cs
  ok (record t' { finished = d.finished })
take_chunks options callbacks t (thrown e) = err (bad_chunk e)
take_chunks options callbacks t spent = err receive_failed

-- A body of a known length, or one that ends with the connection.
unfoldable pub take_counted :
    Options → Callbacks → Transfer → Bytes → Option ℕ → Result Error Transfer
take_counted options callbacks t incoming (some n) = do
  t' ← append_body options callbacks t (take (n - length t.response.body) incoming)
  ok (record t' { finished = leb n (length t'.response.body) })
take_counted options callbacks t incoming none = append_body options callbacks t incoming

-- The end of a round, on the bytes of the body that it received.
unfoldable pub take_body : Options → Callbacks → Transfer → Bytes → Result Error Transfer
take_body options callbacks t incoming =
    if t.finished
    then ok t
    else if t.chunked
    then take_chunks options callbacks t (feed t.decoder incoming)
    else take_counted options callbacks t incoming t.content_length

abbrev pub blank_line : Bytes
blank_line = crlf ++ crlf

-- Does the text hold the word?
abbrev pub has_word : Bytes → Bytes → Bool
has_word word text = elim (cut word text) [ none ↦ false | some _ ↦ true ]

unfoldable pub read_length : Bytes → Result Error (Option ℕ)
unfolding stoull
read_length text =
    if is_empty text
    then ok none
    else elim (stoull 10 text) [ ok (n, _) ↦ ok (some n) | err e ↦ err (bad_length e) ]

abbrev pub exceeds : Option ℕ → ℕ → Bool
exceeds none limit = false
exceeds (some n) limit = ltb limit n

-- A response that has no body whatever its headers say.
abbrev pub no_body : Bool → ℕ → Bool
no_body head_request status = head_request || status == 204 || status == 304

-- The state behind the head, which says how the body is delimited.
abbrev pub delimited : Bool → Transfer → Response → Option ℕ → Transfer
delimited head_request t r content_length = record t {
  response = r;
  pending_headers = [];
  got_headers = true;
  chunked =
      has_word (codes "chunked") (lower_ascii (find_header r.headers (codes "transfer-encoding")));
  content_length = content_length;
  finished = no_body head_request r.status;
}

unfoldable pub delimit : Options → Bool → Transfer → Response → Result Error Transfer
delimit options head_request t r = do
  content_length ← read_length (find_header r.headers (codes "content-length"))
  throw_if (exceeds content_length options.max_response_bytes) length_exceeds
  ok (delimited head_request t r content_length)

abbrev pub as_head_error : Result HeaderError Response → Result Error Response
as_head_error (ok r) = ok r
as_head_error (err e) = err (bad_headers e)

-- On all that has arrived of the head and behind it.
unfoldable pub take_pending :
    Options → Callbacks → Bool → Transfer → Bytes → Option (Bytes × Bytes) → Result Error Transfer
take_pending options callbacks head_request t pending none =
    ok (record t { pending_headers = pending })
take_pending options callbacks head_request t pending (some (block, rest)) = do
  r ← as_head_error (parse_response_headers block t.response)
  throw_if (not (callbacks.on_headers r)) failed_by_headers
  t' ← delimit options head_request t r
  take_body options callbacks t' rest

abbrev pub count_bytes : Transfer → Bytes → Transfer
count_bytes t incoming = record t {
  response = record (t.response) { bytes_received = t.response.bytes_received + length incoming };
}

-- One round on received bytes.
unfoldable pub take_bytes : Options → Callbacks → Bool → Transfer → Bytes → Result Error Transfer
take_bytes options callbacks head_request t incoming =
    if t.got_headers
    then take_body options callbacks (count_bytes t incoming) incoming
    else if ltb (1024 * 1024) (length (t.pending_headers ++ incoming))
    then err headers_exceeded
    else take_pending options callbacks head_request (count_bytes t incoming)
        (t.pending_headers ++ incoming) (cut blank_line (t.pending_headers ++ incoming))

abbrev pub misses : Option ℕ → ℕ → Bool
misses none size = false
misses (some n) size = not (size == n)

-- Behind the loop.
unfoldable pub finish : Bool → Transfer → Result Error Response
finish head_request t =
    throw_if (not t.got_headers) closed_before_headers
    >> throw_if (t.chunked && not t.decoder.finished) closed_before_chunks
    >> throw_if
        (not (no_body head_request t.response.status)
          && misses t.content_length (length t.response.body))
        length_mismatch
    >> ok t.response

-- The request returns, throws, or is still waiting in `Recv` behind the turns given.
pub data Outcome : Type 0 where
  returned : Response → Outcome
  threw : Error → Outcome
  receiving : Transfer → Outcome

abbrev pub outcome : Result Error Response → Outcome
outcome (ok r) = returned r
outcome (err e) = threw e

abbrev pub as_error : Result TimeoutError ℕ → Result Error ℕ
as_error (ok n) = ok n
as_error (err e) = err (out_of_time e)

-- `none` when the loop is to be left.
unfoldable pub take_received :
    Options → Callbacks → Bool → Transfer → Received → Result Error (Option Transfer)
take_received options callbacks head_request t failed = err receive_failed
take_received options callbacks head_request t closed = ok none
take_received options callbacks head_request t (bytes incoming) = do
  t' ← take_bytes options callbacks head_request t incoming
  ok (some t')

unfoldable pub take_turn :
    Options → Callbacks → Bool → Transfer → Turn → Result Error (Option Transfer)
take_turn options callbacks head_request t turn = do
  throw_if turn.cancel cancelled
  _ ← as_error (remaining options.receive_timeout_ms options.total_timeout_ms turn.elapsed)
  take_received options callbacks head_request t turn.received

unfoldable pub run : Options → Callbacks → Bool → Transfer → List Turn → Outcome
run options callbacks head_request t [] =
    if t.finished then outcome (finish head_request t) else receiving t
run options callbacks head_request t (turn ∷ turns) =
    let step = take_turn options callbacks head_request t turn in
    if t.finished then outcome (finish head_request t) else elim step [
      | err e ↦ threw e
      | ok left ↦ elim left [
        | none ↦ outcome (finish head_request t)
        | some t' ↦ run options callbacks head_request t' turns
      ]
    ]

-- `request.rfind("HEAD ", 0) == 0`.
abbrev pub is_head : Bytes → Bool
is_head request = elim (strip_prefix (codes "HEAD ") request) [ some _ ↦ true | none ↦ false ]

unfoldable pub receive_response : Options → Callbacks → Bytes → List Turn → Outcome
unfolding run
receive_response options callbacks request turns =
    run options callbacks (is_head request) (initial options) turns
