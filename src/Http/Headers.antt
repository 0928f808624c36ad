-- ===== src/Http/Headers.antt =====
-- The head of an HTTP response (main.cpp, ParseResponseHeaders and ResponseHeader).
use lua_xenetwork.Prelude.{
  ℕ, zero, suc, Bool, true, false, ◌||◌, List, [], ◌∷◌, ◌++◌, none, some, Bytes, codes, length,
  drop, equal, ltb, ◌==◌, if◌then◌else◌, cut, strip_prefix, Result, ok, throw_if, ◌>>◌,
}
use lua_xenetwork.Text.{lower_ascii, trim_ascii}
use lua_xenetwork.Text.Numbers.{is_space, scan, skip_spaces, Scan}
use lua_xenetwork.Http.Chunk.{crlf}

-- `struct HttpResponse`, but for the clock's reading.
pub record Response : Type 0 where
  pub body : Bytes
  pub raw_headers : Bytes
  pub version : Bytes
  pub reason : Bytes
  pub headers : List (Bytes × Bytes)
  pub status : ℕ
  pub bytes_received : ℕ

abbrev pub no_response : Response
no_response = record {
  body = [];
  raw_headers = [];
  version = [];
  reason = [];
  headers = [];
  status = 0;
  bytes_received = 0;
}

-- `stream >> word`: what stands before the next white space, and what follows.
unfoldable pub read_word : Bytes → Bytes × Bytes
read_word [] = ([], [])
read_word (c ∷ s) =
    let (word, rest) = read_word s in if is_space c then ([], c ∷ s) else (c ∷ word, rest)

-- `std::getline`.
unfoldable pub read_line : Bytes → Bytes
read_line [] = []
read_line (c ∷ s) = let rest = read_line s in if c == b'\n' then [] else c ∷ rest

pub record StatusLine : Type 0 where
  pub version : Bytes
  pub status : Scan
  pub reason : Bytes

-- `status >> version >> status; getline(status, reason)`. Where no number is read the status is 0.
unfoldable pub read_status_line : Bytes → StatusLine
unfolding skip_spaces read_word read_line scan trim_ascii
read_status_line line =
    let (version, after_version) = read_word (skip_spaces line 0).0 in
    let number = scan 10 after_version in
    let rest = (if number.digits == 0 then [] else drop number.used after_version) in
    record { version = version; status = number; reason = trim_ascii (read_line rest) }

-- The status is not in 100 to 999, or the version does not start with "HTTP/".
unfoldable pub refuses_status : StatusLine → Bool
unfolding strip_prefix
refuses_status line =
    (elim (strip_prefix (codes "HTTP/") line.version) [ some _ ↦ false | none ↦ true ])
    || (line.status.negative || ltb line.status.value 100 || ltb 999 line.status.value)

-- The lines of a header block: `for (cursor = 0; cursor < size; )` over `find("\r\n", cursor)`.
unfoldable pub header_lines : ℕ → Bytes → List Bytes
header_lines zero s = []
header_lines (suc fuel) [] = []
header_lines (suc fuel) (c ∷ s) = elim (cut crlf (c ∷ s)) [
  | none ↦ (c ∷ s) ∷ []
  | some (line, rest) ↦ line ∷ header_lines fuel rest
]

unfoldable pub lines : Bytes → List Bytes
unfolding header_lines cut
lines s = header_lines (length s) s

-- A line with a colon is a header; any other is skipped.
unfoldable pub read_headers : List Bytes → List (Bytes × Bytes)
unfolding cut lower_ascii trim_ascii
read_headers [] = []
read_headers (line ∷ rest) = elim (cut (b':' ∷ []) line) [
  | none ↦ read_headers rest
  | some (name, value) ↦ (lower_ascii (trim_ascii name), trim_ascii value) ∷ read_headers rest
]

pub data HeaderError : Type 0 where
  invalid_status_line : Bytes → HeaderError

-- The first line of a block, and the lines behind it.
abbrev pub split_block : Bytes → Bytes × Bytes
split_block block = elim (cut crlf block) [ none ↦ (block, []) | some (a, b) ↦ (a, b) ]

unfoldable pub parse_response_headers : Bytes → Response → Result HeaderError Response
unfolding cut read_status_line refuses_status lines read_headers
parse_response_headers block response =
    let (first, rest) = split_block block in
    let status = read_status_line first in
    throw_if (refuses_status status) (invalid_status_line first)
    >> ok (record response {
      raw_headers = block;
      version = status.version;
      status = status.status.value;
      reason = status.reason;
      headers = response.headers ++ read_headers (lines rest);
    })

-- `ResponseHeader`: the first header of that name, or an empty text.
unfoldable pub find_header : List (Bytes × Bytes) → Bytes → Bytes
unfolding equal
find_header [] name = []
find_header ((key, value) ∷ rest) name = if equal key name then value else find_header rest name
