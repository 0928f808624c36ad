-- ===== src/Server/Building.antt =====
-- The text that RequestBuilder makes, as a message (main.cpp).
use lua_xenetwork.Prelude.{
  false, List, [], ◌∷◌, ◌++◌, Option, none, some, Bytes, codes, length, flatten, is_empty, ok, ◌≡◌,
  refl, sym, ap, ◌∙◌, map, append_assoc,
}
use lua_xenetwork.Http.Chunk.{crlf}
use lua_xenetwork.Server.{lua_request}
use lua_xenetwork.Server.Builders.{
  c_str, c_str_or, to_string, HeadersField, no_headers, header_text, header_table, RequestTable,
  header_line, header_lines_of, spaced, method_part, path_part, version_part, headers_part,
  body_part, build_request, request_table, request_builder,
}
use lua_xenetwork.Server.Blocks.{terminated, join-terminated}
use lua_xenetwork.Server.Fields.{request_line, request_line-append, length_lines, body_of}
use lua_xenetwork.Server.Reading.{HoldBytes}
use lua_xenetwork.Server.RoundTrip.{
  Message, IsMessage, all_lines, text_of, request_read, lua_request-Message,
}

abbrev entry_line : Bytes × Bytes → Bytes
entry_line (key, value) = c_str key ++ (codes ": " ++ c_str value)

abbrev pub lines_of : HeadersField → List Bytes
lines_of no_headers = codes "Accept: */*" ∷ []
lines_of (header_text text) = c_str text ∷ []
lines_of (header_table entries) = map entry_line entries

-- The message that a table describes.
abbrev pub message_of : Bytes → RequestTable → Message
message_of host t = record {
  method = c_str_or t.method (codes "GET");
  target = c_str_or t.path (codes "/");
  version = c_str_or t.version (codes "HTTP/1.1");
  first = codes "Host: " ++ host;
  others = lines_of t.headers;
  body = t.body;
}

terminated-append : (xs ys : List Bytes) → terminated (xs ++ ys) ≡ terminated xs ++ terminated ys
terminated-append [] ys = refl
terminated-append (x ∷ xs) ys =
    ap (λ z. x ++ (crlf ++ z)) (terminated-append xs ys)
    ∙ sym (append_assoc x (crlf ++ terminated xs) (terminated ys))

header_lines_of-terminated :
    (entries : List (Bytes × Bytes)) → header_lines_of entries ≡ terminated (map entry_line entries)
header_lines_of-terminated [] = refl
header_lines_of-terminated ((key, value) ∷ rest) =
    ap (λ z. header_line (key, value) ++ z) (header_lines_of-terminated rest)
    ∙ assoc (c_str key) (c_str value) (terminated (map entry_line rest))
  where
    assoc :
        (k v s : Bytes)
        → (k ++ (codes ": " ++ (v ++ crlf))) ++ s ≡ (k ++ (codes ": " ++ v)) ++ (crlf ++ s)
    assoc k v s =
        append_assoc k (codes ": " ++ (v ++ crlf)) s
        ∙ ap (λ z. k ++ (codes ": " ++ z)) (append_assoc v crlf s)
        ∙ sym (append_assoc k (codes ": " ++ v) (crlf ++ s))

headers_part-terminated : (h : HeadersField) → headers_part h ≡ terminated (lines_of h)
headers_part-terminated no_headers = refl
headers_part-terminated (header_text text) = refl
headers_part-terminated (header_table entries) = header_lines_of-terminated entries

body_part-terminated :
    (b : Option Bytes) → body_part b ≡ terminated (length_lines b) ++ (crlf ++ body_of b)
unfolding length_lines
body_part-terminated none = refl
body_part-terminated (some body) =
    ap (λ z. codes "Content-Length: " ++ z)
      (sym (append_assoc (to_string (length body)) crlf (crlf ++ body)))

spaced-some : (x : Bytes) → is_empty x ≡ false → spaced x ≡ x ++ codes " "
spaced-some x h = rw h refl

method_part-some :
    (method : Option Bytes)
    → is_empty (c_str_or method (codes "GET")) ≡ false
    → method_part method ≡ c_str_or method (codes "GET") ++ codes " "
method_part-some none h = refl
method_part-some (some method) h = spaced-some (c_str method) h

path_part-some :
    (m : Bytes) (path : Option Bytes)
    → is_empty m ≡ false
    → path_part (m ++ codes " ") path ≡ ((m ++ codes " ") ++ c_str_or path (codes "/")) ++ codes " "
path_part-some m none h = sym (append_assoc (m ++ codes " ") (codes "/") (codes " "))
path_part-some [] (some path) h = absurd (cc)
path_part-some (c ∷ m) (some path) h = refl

front_parts :
    (m t s : Bytes) → (((m ++ codes " ") ++ t) ++ codes " ") ++ s ≡ m ++ (b' ' ∷ (t ++ (b' ' ∷ s)))
front_parts m t s =
    append_assoc ((m ++ codes " ") ++ t) (codes " ") s
    ∙ append_assoc (m ++ codes " ") t (b' ' ∷ s)
    ∙ append_assoc m (codes " ") (t ++ (b' ' ∷ s))

version_part-crlf :
    (version : Option Bytes) → version_part version ≡ c_str_or version (codes "HTTP/1.1") ++ crlf
version_part-crlf none = refl
version_part-crlf (some version) = refl

-- The headers and the body, behind the first header.
fields-terminated :
    (t : RequestTable)
    → headers_part t.headers ++ body_part t.body
      ≡ terminated (lines_of t.headers ++ length_lines t.body) ++ (crlf ++ body_of t.body)
fields-terminated t =
    ap (λ x. x ++ body_part t.body) (headers_part-terminated t.headers)
    ∙ ap (λ x. terminated (lines_of t.headers) ++ x) (body_part-terminated t.body)
    ∙ sym (
        append_assoc (terminated (lines_of t.headers)) (terminated (length_lines t.body))
          (crlf ++ body_of t.body))
    ∙ ap (λ x. x ++ (crlf ++ body_of t.body))
        (sym (terminated-append (lines_of t.headers) (length_lines t.body)))

pub build_request-text_of :
    (host : Bytes) (t : RequestTable)
    → is_empty (message_of host t).method ≡ false
    → build_request host t ≡ text_of (message_of host t)
unfolding build_request
build_request-text_of host t h =
    let m = message_of host t in
    let fields = headers_part t.headers ++ body_part t.body in
    let first = codes "Host: " ++ host in
    let later = version_part t.version ++ (codes "Host: " ++ (host ++ (crlf ++ fields))) in
    ap (λ x. path_part x t.path ++ later) (method_part-some t.method h)
    ∙ ap (λ x. x ++ later) (path_part-some m.method t.path h)
    ∙ front_parts m.method m.target later
    ∙ ap (λ x. m.method ++ (b' ' ∷ (m.target ++ (b' ' ∷ x))))
        (ap (λ x. x ++ (first ++ (crlf ++ fields))) (version_part-crlf t.version)
          ∙ append_assoc m.version crlf (first ++ (crlf ++ fields)))
    ∙ sym (request_line-append m.method m.target m.version (crlf ++ (first ++ (crlf ++ fields))))
    ∙ ap (λ x. request_line m.method m.target m.version ++ (crlf ++ (first ++ (crlf ++ x))))
        (fields-terminated t)
    ∙ ap (λ x. request_line m.method m.target m.version ++ (crlf ++ x))
        (sym (append_assoc first (crlf ++ terminated (all_lines m)) (crlf ++ body_of t.body)))
    ∙ join-terminated (request_line m.method m.target m.version) (first ∷ all_lines m)
        (crlf ++ body_of t.body)

-- A request that RequestBuilder makes of a table, and that arrives at a connection with an empty buffer
-- in any portions that are not empty, is read back by lua_Request: its method, its path and query,
-- its version, its header lines with the Content-Length that was added, its body, and its text;
-- nothing is left. The condition is that the words of the request line hold no space or carriage
-- return (the version may hold spaces), that header lines are not empty, hold no carriage return
-- and state no Content-Length of their own, and that head and body are within lua_Request's limits.
pub lua_request-request_builder :
    (host : Bytes) (t : RequestTable) (answers : List Bytes)
    → IsMessage (message_of host t)
    → HoldBytes answers
    → flatten answers ≡ request_builder host (request_table t)
    → lua_request (record { recv_buffer = []; answers = answers })
      ≡ ok (
          some (
            request_read (message_of host t),
            record { recv_buffer = request_builder host (request_table t); answers = [] },
          ))
unfolding request_builder
lua_request-request_builder host t answers h hold e =
    let same = build_request-text_of host t h.some_method in
    lua_request-Message (message_of host t) answers h hold (e ∙ same)
    ∙ ap
        (λ x.
          ok (some (request_read (message_of host t), record { recv_buffer = x; answers = [] })))
        (sym same)
