-- ===== src/Server/Fields.antt =====
-- The fields that are read off a head (main.cpp, ListenerContext::lua_Request).
use lua_xenetwork.Prelude.{
  ℕ, ◌+◌, ◌-◌, ◌%◌, ◌≤◌, Bool, true, false, List, [], ◌∷◌, ◌++◌, Option, none, some, Bytes, codes,
  length, take, drop, equal, ltb, le→ltb, cut, Result, ok, All, inl, inr, ◌≡◌, refl, sym, ap, ◌∙◌,
  append_assoc, length-append, take-length, drop-length, drop-drop, Option-cases, arith,
}
use lua_xenetwork.Text.{lower_ascii}
use lua_xenetwork.Http.Chunk.{crlf}
use lua_xenetwork.Server.{
  RequestError, RequestLine, substr, find, read_request_line, header_block, content_length,
  header_boundary, max_body_bytes,
}
use lua_xenetwork.Server.Builders.{to_string}
use lua_xenetwork.Server.Searches.{Without, cut-found}
use lua_xenetwork.Server.Blocks.{join}
use lua_xenetwork.Server.Decimals.{read_content_length-to_string}

pub find-found :
    (b : ℕ) (sep front s : Bytes)
    → Without b front
    → find (b ∷ sep) (front ++ ((b ∷ sep) ++ s)) ≡ some (length front)
unfolding find
find-found b sep front s h = rw (find, cut-found b sep front s h) refl

-- A request line in front of a line break.
abbrev pub request_line : Bytes → Bytes → Bytes → Bytes
request_line method target version = method ++ (b' ' ∷ (target ++ (b' ' ∷ version)))

pub request_line-append :
    (m t v s : Bytes) → request_line m t v ++ s ≡ m ++ (b' ' ∷ (t ++ (b' ' ∷ (v ++ s))))
request_line-append m t v s =
    append_assoc m (b' ' ∷ (t ++ (b' ' ∷ v))) s
    ∙ ap (λ x. m ++ (b' ' ∷ x)) (append_assoc t (b' ' ∷ v) s)

length-request_line :
    (m t v : Bytes) → length (request_line m t v) ≡ length m + 1 + length t + 1 + length v
length-request_line m t v =
    omega (arith, length-append m (b' ' ∷ (t ++ (b' ' ∷ v))), length-append t (b' ' ∷ v))

drop-behind : (front : Bytes) (c : ℕ) (s : Bytes) → drop (length front + 1) (front ++ (c ∷ s)) ≡ s
drop-behind front c s =
    drop-drop (front ++ (c ∷ s)) (length front) 1 (length front + 1) refl
    ∙ ap (drop 1) (drop-length front (c ∷ s))

read_request_line-found :
    (buffer : Bytes) (line_end first gap : ℕ)
    → find crlf buffer ≡ some line_end
    → find (b' ' ∷ []) buffer ≡ some first
    → find (b' ' ∷ []) (drop (first + 1) buffer) ≡ some gap
    → ltb line_end (first + 1 + gap) ≡ false
    → read_request_line buffer
      ≡ ok (record {
        method = substr buffer 0 first;
        target = substr buffer (first + 1) gap;
        version = substr buffer (first + 1 + gap + 1) (line_end - (first + 1 + gap) - 1);
        end = line_end;
      })
unfolding read_request_line
read_request_line-found buffer line_end first gap e1 e2 e3 e4 =
    rw (read_request_line, e1) (rw e2 (rw e3 (rw e4 refl)))

same_line :
    (n : ℕ) {a b c x y z : Bytes}
    → a ≡ x
    → b ≡ y
    → c ≡ z
    → ◌≡◌ {A = Result RequestError RequestLine}
        (ok (record { method = a; target = b; version = c; end = n }))
        (ok (record { method = x; target = y; version = z; end = n }))
same_line n p q r = cc

pub read_request_line-request_line :
    (m t v s : Bytes)
    → Without b' ' m
    → Without b' ' t
    → Without b'\r' (request_line m t v)
    → read_request_line (request_line m t v ++ (crlf ++ s))
      ≡ ok (record { method = m; target = t; version = v; end = length (request_line m t v) })
read_request_line-request_line m t v s hm ht h =
    let buffer = request_line m t v ++ (crlf ++ s) in
    let behind_target = b' ' ∷ (v ++ (crlf ++ s)) in
    let spread : buffer ≡ m ++ (b' ' ∷ (t ++ behind_target)) =
      request_line-append m t v (crlf ++ s) in
    let size = length-request_line m t v in
    let second : drop (length m + 1) buffer ≡ t ++ behind_target =
      ap (drop (length m + 1)) spread ∙ drop-behind m b' ' (t ++ behind_target) in
    let third : drop (length m + 1 + length t + 1) buffer ≡ v ++ (crlf ++ s) =
      drop-drop buffer (length m + 1) (length t + 1) (length m + 1 + length t + 1) (omega arith)
      ∙ ap (drop (length t + 1)) second
      ∙ drop-behind t b' ' (v ++ (crlf ++ s)) in
    let left : length (request_line m t v) - (length m + 1 + length t) - 1 ≡ length v =
      omega arith in
    read_request_line-found buffer (length (request_line m t v)) (length m) (length t)
      (find-found b'\r' (codes "\n") (request_line m t v) s h)
      (ap (find (b' ' ∷ [])) spread ∙ find-found b' ' [] m (t ++ behind_target) hm)
      (ap (find (b' ' ∷ [])) second ∙ find-found b' ' [] t (v ++ (crlf ++ s)) ht)
      (le→ltb _ _ (omega arith))
    ∙ same_line _ (ap (take (length m)) spread ∙ take-length m (b' ' ∷ (t ++ behind_target)))
        (ap (take (length t)) second ∙ take-length t behind_target)
        (ap (take _) third ∙ ap (λ n. take n (v ++ (crlf ++ s))) left ∙ take-length v (crlf ++ s))

-- The header's block is between the request line and the boundary.
pub header_block-join :
    (first line : Bytes) (rest : List Bytes) (more : Bytes)
    → length (join first (line ∷ rest)) ≤ 1048576
    → header_block
        (join first (line ∷ rest) ++ (header_boundary ++ more))
        (length first)
        (length (join first (line ∷ rest)))
      ≡ join line rest
unfolding header_block
header_block-join first line rest more small =
    let block = join line rest in
    let size = length-append first (crlf ++ block) in
    let count : (length (first ++ (crlf ++ block)) + 18446744073709551616 - (length first + 2))
          % 18446744073709551616
        ≡ length block =
      omega arith in
    let spread : (first ++ (crlf ++ block)) ++ (header_boundary ++ more)
        ≡ first ++ (crlf ++ (block ++ (header_boundary ++ more))) =
      append_assoc first (crlf ++ block) (header_boundary ++ more) in
    let front : drop (length first + 2) ((first ++ (crlf ++ block)) ++ (header_boundary ++ more))
        ≡ block ++ (header_boundary ++ more) =
      drop-drop ((first ++ (crlf ++ block)) ++ (header_boundary ++ more)) (length first) 2
        (length first + 2) refl
      ∙ ap (λ x. drop 2 (drop (length first) x)) spread
      ∙ ap (drop 2) (drop-length first (crlf ++ (block ++ (header_boundary ++ more)))) in
    ap
      (λ n.
        take n (drop (length first + 2) ((first ++ (crlf ++ block)) ++ (header_boundary ++ more))))
      count
    ∙ ap (take (length block)) front
    ∙ take-length block (header_boundary ++ more)

abbrev names : Option (Bytes × Bytes) → Bool
names none = false
names (some (name, value)) = equal (lower_ascii name) (codes "content-length")

-- Is the line a Content-Length header?
unfoldable pub names_length : Bytes → Bool
names_length line = names (cut (b':' ∷ []) line)

-- The line that states the length of a body, if there is one.
unfoldable pub length_lines : Option Bytes → List Bytes
unfolding to_string
length_lines none = []
length_lines (some body) = (codes "Content-Length: " ++ to_string (length body)) ∷ []

abbrev pub body_of : Option Bytes → Bytes
body_of none = []
body_of (some body) = body

content_length-skip :
    (line : Bytes) (rest : List Bytes) (size : ℕ)
    → names_length line ≡ false
    → content_length (line ∷ rest) size ≡ content_length rest size
unfolding content_length names_length
content_length-skip line rest size h = elim (Option-cases (cut (b':' ∷ []) line)) [
  | inl q ↦ rw (content_length, q) refl
  | inr ((name, value), q) ↦
      let other : equal (lower_ascii name) (codes "content-length") ≡ false =
        sym (ap names q) ∙ h in
      rw (content_length, q) (rw other refl)
]

name_equal : equal (lower_ascii (codes "Content-Length")) (codes "content-length") ≡ true
unfolding equal lower_ascii
name_equal = refl

name-Without : Without b':' (codes "Content-Length")
name-Without = (
  refl,
  (
    refl,
    (
      refl,
      (refl, (refl, (refl, (refl, (refl, (refl, (refl, (refl, (refl, (refl, (refl, tt))))))))))),
    ),
  ),
)

content_length-stated :
    (body : Bytes)
    → length body ≤ max_body_bytes
    → content_length ((codes "Content-Length: " ++ to_string (length body)) ∷ []) 0
      ≡ ok (length body)
unfolding content_length
content_length-stated body h =
    let name : Bytes = codes "Content-Length" in
    let colon : cut (b':' ∷ []) (codes "Content-Length: " ++ to_string (length body))
        ≡ some (codes "Content-Length", b' ' ∷ to_string (length body)) =
      cut-found b':' [] (codes "Content-Length") (b' ' ∷ to_string (length body)) name-Without in
    let named : equal (lower_ascii (codes "Content-Length")) (codes "content-length") ≡ true =
      name_equal in
    rw (content_length, colon) (rw named (rw (read_content_length-to_string (length body) h) refl))

pub content_length-length_lines :
    (lines : List Bytes) (body : Option Bytes)
    → All (λ line. names_length line ≡ false) lines
    → length (body_of body) ≤ max_body_bytes
    → content_length (lines ++ length_lines body) 0 ≡ ok (length (body_of body))
unfolding length_lines content_length
content_length-length_lines [] none h k = refl
content_length-length_lines [] (some body) h k = content_length-stated body k
content_length-length_lines (line ∷ lines) body h k =
    content_length-skip line (lines ++ length_lines body) 0 h.0
    ∙ content_length-length_lines lines body h.1 k
