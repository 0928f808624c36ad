-- ===== src/Server/RoundTrip.antt =====
-- Requests that are built and read (main.cpp, RequestBuilder and ListenerContext::lua_Request).
use lua_xenetwork.Prelude.{
  ℕ, ◌+◌, ◌≤◌, false, List, [], ◌∷◌, ◌++◌, Option, some, Bytes, length, flatten, take, drop,
  is_empty, ok, ◌>>=◌, All, ◌≡◌, refl, sym, ap, ◌∙◌, append_assoc, append-nil, length-append,
  take-length, drop-length, drop-drop, arith,
}
use lua_xenetwork.Http.Chunk.{crlf}
use lua_xenetwork.Http.Headers.{lines}
use lua_xenetwork.Server.{
  Arriving, HttpRequest, RequestLine, find, fill, read_head, read_body, read_request_line,
  header_block, content_length, request_of, split_query, substr, read_request, read_filled,
  lua_request, header_boundary, max_header_bytes, max_body_bytes,
}
use lua_xenetwork.Server.Searches.{Without}
use lua_xenetwork.Server.Blocks.{IsLine, join, lines-join, cut-join}
use lua_xenetwork.Server.Reading.{
  IsHead, HoldBytes, Collected, find-IsHead, read_head-Collected, read_body-Complete,
}
use lua_xenetwork.Server.Fields.{
  request_line, read_request_line-request_line, header_block-join, names_length, length_lines,
  body_of, content_length-length_lines,
}

-- A request: its line, its headers without a Content-Length (the first of them apart), and its body.
pub record Message : Type 0 where
  pub method : Bytes
  pub target : Bytes
  pub version : Bytes
  pub first : Bytes
  pub others : List Bytes
  pub body : Option Bytes

abbrev pub all_lines : Message → List Bytes
all_lines m = m.others ++ length_lines m.body

abbrev pub head_of : Message → Bytes
head_of m = join (request_line m.method m.target m.version) (m.first ∷ all_lines m)

abbrev pub text_of : Message → Bytes
text_of m = head_of m ++ (header_boundary ++ body_of m.body)

-- The request that is read.
abbrev pub request_read : Message → HttpRequest
request_read m = record {
  content = text_of m;
  method = m.method;
  query = (split_query m.target).1;
  path = (split_query m.target).0;
  version = m.version;
  headers = m.first ∷ all_lines m;
  body = body_of m.body;
}

-- The parts of a message are where the parser looks for them, and within its limits.
pub record IsMessage (m : Message) : Type 0 where
  pub some_method : is_empty m.method ≡ false
  pub method_word : Without b' ' m.method
  pub target_word : Without b' ' m.target
  pub one_line : Without b'\r' (request_line m.method m.target m.version)
  pub header_lines : All IsLine (m.first ∷ all_lines m)
  pub no_length : All (λ line. names_length line ≡ false) (m.first ∷ m.others)
  pub head_fits : length (head_of m) + 4 ≤ max_header_bytes
  pub body_fits : length (body_of m.body) ≤ max_body_bytes

head_of-IsHead : (m : Message) → IsMessage m → IsHead (head_of m)
head_of-IsHead m h s =
    cut-join (request_line m.method m.target m.version) (m.first ∷ all_lines m) s
      (line_some m.method h.some_method, h.one_line) h.header_lines
  where
    line_some :
        (method : Bytes)
        → is_empty method ≡ false
        → is_empty (request_line method m.target m.version) ≡ false
    line_some [] e = refl
    line_some (c ∷ method) e = refl

whole_text : (x y z : Bytes) → x ++ y ≡ z → length z ≤ length x → (x ≡ z) × (y ≡ [])
whole_text x [] z e h = (sym (append-nil x) ∙ e, refl)
whole_text x (c ∷ y) z e h = absurd (omega (arith, ap {B = ℕ} length e, length-append x (c ∷ y)))

none_left : (answers : List Bytes) → HoldBytes answers → flatten answers ≡ [] → answers ≡ []
none_left [] h e = refl
none_left ([] ∷ answers) h e = absurd (cc)
none_left ((c ∷ chunk) ∷ answers) h e = absurd (cc)

-- What read_request computes, by the results of its steps.
read_request-steps :
    (s t : Arriving) (header_end size : ℕ) (line : RequestLine)
    → find header_boundary s.recv_buffer ≡ some header_end
    → read_request_line s.recv_buffer ≡ ok line
    → content_length (lines (header_block s.recv_buffer line.end header_end)) 0 ≡ ok size
    → read_body (header_end + 4 + size) s.answers s.recv_buffer ≡ ok t
    → read_request s
      ≡ ok (
        request_of line
            (lines (header_block s.recv_buffer line.end header_end))
            (header_end + 4)
            size
            t.recv_buffer,
        t,
      )
unfolding read_request
read_request-steps s t header_end size line e1 e2 e3 e4 =
    rw (read_request, e1) (rw e2 (rw e3 (rw e4 refl)))

-- The fields of the request, where the buffer holds the text.
request_of-text :
    (m : Message)
    → request_of
        (record {
          method = m.method;
          target = m.target;
          version = m.version;
          end = length (request_line m.method m.target m.version);
        })
        (m.first ∷ all_lines m)
        (length (head_of m) + 4)
        (length (body_of m.body))
        (text_of m)
      ≡ request_read m
unfolding request_of
request_of-text m =
    let body : substr (text_of m) (length (head_of m) + 4) (length (body_of m.body))
        ≡ body_of m.body =
      ap (take (length (body_of m.body))) (
        drop-drop (text_of m) (length (head_of m)) 4 (length (head_of m) + 4) refl
        ∙ ap (drop 4) (drop-length (head_of m) (header_boundary ++ body_of m.body)))
      ∙ ap (take (length (body_of m.body))) (sym (append-nil (body_of m.body)))
      ∙ take-length (body_of m.body) [] in
    ap (λ x. record (request_read m) { body = x }) body

-- A buffer and answers that are together a message.
pub read_request-Message :
    (m : Message) (s : Arriving)
    → IsMessage m
    → Collected (head_of m) (body_of m.body) s
    → read_request s ≡ ok (request_read m, record { recv_buffer = text_of m; answers = [] })
read_request-Message m s h c =
    let first_line = request_line m.method m.target m.version in
    let block = join m.first (all_lines m) in
    let at_buffer : s.recv_buffer ≡ first_line ++ (crlf ++ (block ++ (header_boundary ++ c.more))) =
      c.buffer_eq ∙ append_assoc first_line (crlf ++ block) (header_boundary ++ c.more) in
    let line : RequestLine = record {
      method = m.method;
      target = m.target;
      version = m.version;
      end = length first_line;
    } in
    let block_lines : lines (header_block s.recv_buffer (length first_line) (length (head_of m)))
        ≡ m.first ∷ all_lines m =
      ap (λ x. lines (header_block x (length first_line) (length (head_of m)))) c.buffer_eq
      ∙ ap lines
          (header_block-join first_line m.first (all_lines m) c.more (omega (arith, h.head_fits)))
      ∙ lines-join m.first (all_lines m) h.header_lines.0 h.header_lines.1 in
    let together : s.recv_buffer ++ flatten s.answers ≡ text_of m =
      ap (λ x. x ++ flatten s.answers) c.buffer_eq
      ∙ append_assoc (head_of m) (header_boundary ++ c.more) (flatten s.answers)
      ∙ ap (λ x. head_of m ++ (header_boundary ++ x)) c.rest_eq in
    let total = length-append (head_of m) (header_boundary ++ body_of m.body) in
    let (t, e4, long, all, hold) =
      read_body-Complete s.answers s.recv_buffer (text_of m)
        (length (head_of m) + 4 + length (body_of m.body)) c.hold together (omega arith) in
    let (whole, nothing) =
      whole_text t.recv_buffer (flatten t.answers) (text_of m) all (omega (arith, long, total)) in
    read_request-steps s t (length (head_of m)) (length (body_of m.body)) line
      (ap (find header_boundary) c.buffer_eq ∙ find-IsHead (head_of m) c.more (head_of-IsHead m h))
      (ap read_request_line at_buffer
        ∙ read_request_line-request_line m.method m.target m.version
            (block ++ (header_boundary ++ c.more)) h.method_word h.target_word h.one_line)
      (ap (λ x. content_length x 0) block_lines
        ∙ content_length-length_lines (m.first ∷ m.others) m.body h.no_length h.body_fits)
      e4
    ∙ ap
        (λ x.
          ok
            (request_of line x (length (head_of m) + 4) (length (body_of m.body)) t.recv_buffer, t))
        block_lines
    ∙ ap
        (λ x. ok (
          request_of line (m.first ∷ all_lines m) (length (head_of m) + 4) (length (body_of m.body))
              x,
          record { recv_buffer = x; answers = t.answers },
        ))
        whole
    ∙ ap
        (λ x. ok (
          request_of line (m.first ∷ all_lines m) (length (head_of m) + 4) (length (body_of m.body))
              (text_of m),
          record { recv_buffer = text_of m; answers = x },
        ))
        (none_left t.answers hold nothing)
    ∙ ap (λ x. ok (x, record { recv_buffer = text_of m; answers = [] })) (request_of-text m)

-- A message within the limits, whose text arrives in any portions that are not empty, is read.
pub lua_request-Message :
    (m : Message) (answers : List Bytes)
    → IsMessage m
    → HoldBytes answers
    → flatten answers ≡ text_of m
    → lua_request (record { recv_buffer = []; answers = answers })
      ≡ ok (some (request_read m, record { recv_buffer = text_of m; answers = [] }))
unfolding lua_request fill read_filled
lua_request-Message m [] h hold e = absurd (
    omega
      (arith, ap {B = ℕ} length e, length-append (head_of m) (header_boundary ++ body_of m.body)))
lua_request-Message m ([] ∷ answers) h hold e = absurd (cc)
lua_request-Message m ((c ∷ chunk) ∷ answers) h hold e =
    ap (λ r. r >>= (λ x. ok (some x)))
      (read_request-Message m (read_head answers (c ∷ chunk)) h (
        read_head-Collected answers (c ∷ chunk) (head_of m) (body_of m.body) (head_of-IsHead m h)
          h.head_fits hold.1 e))
