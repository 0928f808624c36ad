-- ===== src/Server/Blocks.antt =====
-- The lines of a head, joined by line breaks (main.cpp, ListenerContext::lua_Request).
use lua_xenetwork.Prelude.{
  ℕ, zero, suc, ◌≤◌, false, List, [], ◌∷◌, ◌++◌, none, some, Bytes, codes, length, is_empty, ◌==◌,
  cut, All, ◌≡◌, refl, sym, ap, ◌∙◌, append_assoc, length-append, arith,
}
use lua_xenetwork.Http.Chunk.{crlf}
use lua_xenetwork.Http.Headers.{lines, header_lines}
use lua_xenetwork.Server.{header_boundary}
use lua_xenetwork.Server.Searches.{Without, cut-append, cut-none, cut-found, cut-boundary_line}

-- Not empty, and without a carriage return.
abbrev pub IsLine : Bytes → Type 0
IsLine l = (is_empty l ≡ false) × Without b'\r' l

abbrev pub join : Bytes → List Bytes → Bytes
join line [] = line
join line (next ∷ rest) = line ++ (crlf ++ join next rest)

-- Every line with its line break.
abbrev pub terminated : List Bytes → Bytes
terminated [] = []
terminated (line ∷ rest) = line ++ (crlf ++ terminated rest)

pub join-terminated :
    (line : Bytes) (rest : List Bytes) (s : Bytes)
    → line ++ (crlf ++ (terminated rest ++ s)) ≡ join line rest ++ (crlf ++ s)
join-terminated line [] s = refl
join-terminated line (next ∷ rest) s =
    ap (λ x. line ++ (crlf ++ x))
      (append_assoc next (crlf ++ terminated rest) s ∙ join-terminated next rest s)
    ∙ sym (append_assoc line (crlf ++ join next rest) (crlf ++ s))

breaks :
    (rest : List Bytes) (c : ℕ) (next s : Bytes)
    → (b'\r' == c) ≡ false
    → cut header_boundary (join (c ∷ next) rest ++ (header_boundary ++ s))
      ≡ some (join (c ∷ next) rest, s)
    → cut header_boundary (crlf ++ (join (c ∷ next) rest ++ (header_boundary ++ s)))
      ≡ some (crlf ++ join (c ∷ next) rest, s)
breaks [] c next s h e = cut-boundary_line c (next ++ (header_boundary ++ s)) h e
breaks (line ∷ rest) c next s h e =
    cut-boundary_line c ((next ++ (crlf ++ join line rest)) ++ (header_boundary ++ s)) h e

-- The end of a head is found behind its last line.
pub cut-join :
    (line : Bytes) (rest : List Bytes) (s : Bytes)
    → IsLine line
    → All IsLine rest
    → cut header_boundary (join line rest ++ (header_boundary ++ s)) ≡ some (join line rest, s)
cut-join line [] s h k = cut-found b'\r' (codes "\n\r\n") line s h.1
cut-join line ([] ∷ rest) s h k = absurd (cc)
cut-join line ((c ∷ next) ∷ rest) s h k =
    ap (cut header_boundary)
      (append_assoc line (crlf ++ join (c ∷ next) rest) (header_boundary ++ s))
    ∙ cut-append b'\r' (codes "\n\r\n") line
        (crlf ++ (join (c ∷ next) rest ++ (header_boundary ++ s))) h.1
        (breaks rest c next s k.0.1.0 (cut-join (c ∷ next) rest s k.0 k.1))

pub header_lines-last :
    (fuel c : ℕ) (s : Bytes)
    → cut crlf (c ∷ s) ≡ none
    → header_lines (suc fuel) (c ∷ s) ≡ (c ∷ s) ∷ []
unfolding header_lines
header_lines-last fuel c s e = rw (header_lines, e) refl

pub header_lines-next :
    (fuel c : ℕ) (s line rest : Bytes)
    → cut crlf (c ∷ s) ≡ some (line, rest)
    → header_lines (suc fuel) (c ∷ s) ≡ line ∷ header_lines fuel rest
unfolding header_lines
header_lines-next fuel c s line rest e = rw (header_lines, e) refl

header_lines-join :
    (fuel : ℕ) (line : Bytes) (rest : List Bytes)
    → length (join line rest) ≤ fuel
    → IsLine line
    → All IsLine rest
    → header_lines fuel (join line rest) ≡ line ∷ rest
unfolding header_lines
header_lines-join fuel [] rest enough h k = absurd (cc)
header_lines-join zero (c ∷ line) [] enough h k = absurd (omega arith)
header_lines-join zero (c ∷ line) (next ∷ rest) enough h k = absurd (omega arith)
header_lines-join (suc fuel) (c ∷ line) [] enough h k =
    header_lines-last fuel c line (cut-none b'\r' (codes "\n") (c ∷ line) h.1)
header_lines-join (suc fuel) (c ∷ line) (next ∷ rest) enough h k =
    header_lines-next fuel c (line ++ (crlf ++ join next rest)) (c ∷ line) (join next rest)
      (cut-found b'\r' (codes "\n") (c ∷ line) (join next rest) h.1)
    ∙ ap (◌∷◌ (c ∷ line)) (
        header_lines-join fuel next rest
          (omega (arith, length-append line (crlf ++ join next rest))) k.0 k.1)

-- The lines are read back.
pub lines-join :
    (line : Bytes) (rest : List Bytes)
    → IsLine line
    → All IsLine rest
    → lines (join line rest) ≡ line ∷ rest
unfolding lines
lines-join line rest h k = header_lines-join (length (join line rest)) line rest (omega arith) h k
