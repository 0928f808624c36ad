-- ===== src/Server.antt =====
-- A request that an accepted connection reads (main.cpp, ListenerContext::lua_Request). The answers
-- of ReceiveBytes(0, 1000) are a list; behind its end every answer is empty.
pub mod Builders
pub mod Searches
pub mod Blocks
pub mod Decimals
pub mod Reading
pub mod Fields
pub mod RoundTrip
pub mod Building
pub mod Headerless
use lua_xenetwork.Prelude.{
  ℕ, zero, suc, ◌+◌, ◌-◌, ◌*◌, ◌%◌, ◌^◌, Bool, true, false, not, ◌&&◌, ◌||◌, List, [], ◌∷◌, ◌++◌,
  Option, none, some, Bytes, codes, length, take, drop, is_empty, equal, ltb, leb, ◌==◌,
  if◌then◌else◌, cut, Result, ok, err, throw_if, or_throw, ◌>>◌, ◌>>=◌,
}
use lua_xenetwork.Text.{lower_ascii}
use lua_xenetwork.Text.Numbers.{scan, Scan}
use lua_xenetwork.Http.Chunk.{crlf}
use lua_xenetwork.Http.Headers.{lines}

pub data RequestError : Type 0 where
  incomplete_header malformed_request_line invalid_content_length body_ended : RequestError

-- `recv_buffer`, and what ReceiveBytes will answer.
pub record Arriving : Type 0 where
  pub recv_buffer : Bytes
  pub answers : List Bytes

-- The table that lua_Request pushes.
pub record HttpRequest : Type 0 where
  pub content : Bytes
  pub method : Bytes
  pub query : Option Bytes
  pub path : Bytes
  pub version : Bytes
  pub headers : List Bytes
  pub body : Bytes

abbrev pub header_boundary : Bytes
header_boundary = codes "\r\n\r\n"

abbrev pub max_header_bytes : ℕ
max_header_bytes = 1024 * 1024

abbrev pub max_body_bytes : ℕ
max_body_bytes = 64 * 1024 * 1024

abbrev found_at : Option (Bytes × Bytes) → Option ℕ
found_at none = none
found_at (some (before, after)) = some (length before)

-- `std::string::find`.
unfoldable pub find : Bytes → Bytes → Option ℕ
unfolding cut
find sep s = found_at (cut sep s)

-- `std::string::substr`.
abbrev pub substr : Bytes → ℕ → ℕ → Bytes
substr s pos count = take count (drop pos s)

-- The first answer, if nothing is buffered.
unfoldable pub fill : List Bytes → Bytes → Arriving
fill answers (b ∷ buffer) = record { recv_buffer = b ∷ buffer; answers = answers }
fill [] [] = record { recv_buffer = []; answers = [] }
fill (chunk ∷ answers) [] = record { recv_buffer = chunk; answers = answers }

abbrev is_found : {A : Type 0} → Option A → Bool
is_found none = false
is_found (some a) = true

-- The loop up to the end of the header.
unfoldable pub read_head : List Bytes → Bytes → Arriving
read_head [] buffer = record { recv_buffer = buffer; answers = [] }
read_head (chunk ∷ answers) buffer =
    let more = read_head answers (buffer ++ chunk) in
    if is_found (find header_boundary buffer) || leb max_header_bytes (length buffer)
    then record { recv_buffer = buffer; answers = chunk ∷ answers }
    else if is_empty chunk
    then record { recv_buffer = buffer; answers = answers }
    else more

-- The loop up to the end of the body, which needs `size` bytes in the buffer.
unfoldable pub read_body : ℕ → List Bytes → Bytes → Result RequestError Arriving
read_body size [] buffer =
    if leb size (length buffer)
    then ok (record { recv_buffer = buffer; answers = [] })
    else err body_ended
read_body size (chunk ∷ answers) buffer =
    let more = read_body size answers (buffer ++ chunk) in
    if leb size (length buffer)
    then ok (record { recv_buffer = buffer; answers = chunk ∷ answers })
    else if is_empty chunk
    then err body_ended
    else more

unfoldable pub skip_blanks : Bytes → Bytes
skip_blanks [] = []
skip_blanks (c ∷ s) = let rest = skip_blanks s in if c == b' ' || c == b'\t' then rest else c ∷ s

-- `std::strtoull`: a value that is too large is the largest, a minus sign negates modulo 2^64.
abbrev parsed : Scan → ℕ
parsed s =
    if leb (2 ^ 64) s.value
    then 2 ^ 64 - 1
    else if s.negative
    then (2 ^ 64 - s.value) % 2 ^ 64
    else s.value

unfoldable pub judge_length : Scan → Result RequestError ℕ
judge_length s =
    throw_if (s.digits == 0 || ltb max_body_bytes (parsed s)) invalid_content_length
    >> ok (parsed s)

-- The value of a Content-Length header.
unfoldable pub read_content_length : Bytes → Result RequestError ℕ
read_content_length value = judge_length (scan 10 (skip_blanks value))

-- The loop over the header's lines: the last Content-Length counts.
unfoldable pub content_length : List Bytes → ℕ → Result RequestError ℕ
content_length [] size = ok size
content_length (line ∷ rest) size = elim (cut (b':' ∷ []) line) [
  | none ↦ content_length rest size
  | some (name, value) ↦
      let kept = content_length rest size in
      if equal (lower_ascii name) (codes "content-length")
      then read_content_length value >>= (λ n. content_length rest n)
      else kept
]

pub record RequestLine : Type 0 where
  pub method : Bytes
  pub target : Bytes
  pub version : Bytes
  pub end : ℕ

-- The three parts of the first line, cut at the first two spaces of the buffer.
unfoldable pub read_request_line : Bytes → Result RequestError RequestLine
read_request_line buffer = do
  line_end ← or_throw (find crlf buffer) malformed_request_line
  first ← or_throw (find (b' ' ∷ []) buffer) malformed_request_line
  gap ← or_throw (find (b' ' ∷ []) (drop (first + 1) buffer)) malformed_request_line
  throw_if (ltb line_end (first + 1 + gap)) malformed_request_line
  ok (record {
    method = substr buffer 0 first;
    target = substr buffer (first + 1) gap;
    version = substr buffer (first + 1 + gap + 1) (line_end - (first + 1 + gap) - 1);
    end = line_end;
  })

-- `substr(request_line_end + 2, header_end - request_line_end - 2)`, with the difference a size_t.
unfoldable pub header_block : Bytes → ℕ → ℕ → Bytes
header_block buffer line_end header_end =
    substr buffer (line_end + 2) ((header_end + 2 ^ 64 - (line_end + 2)) % 2 ^ 64)

abbrev split_query : Bytes → Bytes × Option Bytes
split_query target = elim (cut (b'?' ∷ []) target) [
  | none ↦ (target, none)
  | some (path, query) ↦ (path, some query)
]

unfoldable pub request_of : RequestLine → List Bytes → ℕ → ℕ → Bytes → HttpRequest
request_of line headers start size buffer = record {
  content = buffer;
  method = line.method;
  query = (split_query line.target).1;
  path = (split_query line.target).0;
  version = line.version;
  headers = headers;
  body = substr buffer start size;
}

-- What lua_Request does once the header's end is looked for. The header's fields are read before the
-- body is.
unfoldable pub read_request : Arriving → Result RequestError (HttpRequest × Arriving)
read_request s = do
  header_end ← or_throw (find header_boundary s.recv_buffer) incomplete_header
  line ← read_request_line s.recv_buffer
  size ← content_length (lines (header_block s.recv_buffer line.end header_end)) 0
  t ← read_body (header_end + 4 + size) s.answers s.recv_buffer
  ok (
    request_of line (lines (header_block s.recv_buffer line.end header_end)) (header_end + 4) size
        t.recv_buffer,
    t,
  )

unfoldable pub read_filled : Arriving → Result RequestError (Option (HttpRequest × Arriving))
read_filled s =
    if is_empty s.recv_buffer
    then ok none
    else (read_request (read_head s.answers s.recv_buffer) >>= λ r. ok (some r))

-- `lua_Request`: nothing when nothing arrived.
unfoldable pub lua_request : Arriving → Result RequestError (Option (HttpRequest × Arriving))
lua_request s = read_filled (fill s.answers s.recv_buffer)
