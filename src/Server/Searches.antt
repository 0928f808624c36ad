-- ===== src/Server/Searches.antt =====
-- Where `std::string::find` stops in texts without a byte (main.cpp, ListenerContext::lua_Request).
use lua_xenetwork.Prelude.{
  ℕ, false, [], ◌∷◌, ◌++◌, none, some, Bytes, codes, ◌==◌, cut, strip_prefix, strip_prefix-append,
  append-nil, All, ◌≡◌, refl, ap, ◌∙◌,
}
use lua_xenetwork.Http.Chunk.{crlf}
use lua_xenetwork.Server.{header_boundary}

-- The byte is not in the text.
abbrev pub Without : ℕ → Bytes → Type 0
Without b = All (λ c. (b == c) ≡ false)

strip_prefix-miss :
    (b c : ℕ) (sep s : Bytes) → (b == c) ≡ false → strip_prefix (b ∷ sep) (c ∷ s) ≡ none
unfolding strip_prefix
strip_prefix-miss b c sep s h = rw (strip_prefix, h) refl

cut-step :
    (sep : Bytes) (c : ℕ) (s : Bytes) {before after : Bytes}
    → strip_prefix sep (c ∷ s) ≡ none
    → cut sep s ≡ some (before, after)
    → cut sep (c ∷ s) ≡ some (c ∷ before, after)
unfolding cut
cut-step sep c s h e = rw (cut, h) (rw (cut, e) refl)

cut-here :
    (sep : Bytes) (c : ℕ) (s rest : Bytes)
    → strip_prefix sep (c ∷ s) ≡ some rest
    → cut sep (c ∷ s) ≡ some ([], rest)
unfolding cut
cut-here sep c s rest h = rw (cut, h) refl

-- What is searched for begins with a byte that the text in front does not have.
pub cut-append :
    (b : ℕ) (sep front s : Bytes) {before after : Bytes}
    → Without b front
    → cut (b ∷ sep) s ≡ some (before, after)
    → cut (b ∷ sep) (front ++ s) ≡ some (front ++ before, after)
cut-append b sep [] s h e = e
cut-append b sep (c ∷ front) s h e =
    cut-step (b ∷ sep) c (front ++ s) (strip_prefix-miss b c sep (front ++ s) h.0)
      (cut-append b sep front s h.1 e)

pub cut-none : (b : ℕ) (sep s : Bytes) → Without b s → cut (b ∷ sep) s ≡ none
unfolding cut
cut-none b sep [] h = refl
cut-none b sep (c ∷ s) h =
    rw (cut, strip_prefix-miss b c sep s h.0) (rw (cut, cut-none b sep s h.1) refl)

-- What is searched for stands behind a text without its first byte.
pub cut-found :
    (b : ℕ) (sep front s : Bytes)
    → Without b front
    → cut (b ∷ sep) (front ++ ((b ∷ sep) ++ s)) ≡ some (front, s)
cut-found b sep front s h =
    cut-append b sep front ((b ∷ sep) ++ s) h
      (cut-here (b ∷ sep) b (sep ++ s) s (strip_prefix-append (b ∷ sep) s))
    ∙ ap (λ x. some (x, s)) (append-nil front)

strip_prefix-boundary :
    (c : ℕ) (s : Bytes)
    → (b'\r' == c) ≡ false
    → strip_prefix header_boundary (b'\r' ∷ b'\n' ∷ c ∷ s) ≡ none
unfolding strip_prefix
strip_prefix-boundary c s h = strip_prefix-miss b'\r' c (codes "\n") s h

-- A line break that is not the end of a header.
pub cut-boundary_line :
    (c : ℕ) (s : Bytes) {before after : Bytes}
    → (b'\r' == c) ≡ false
    → cut header_boundary (c ∷ s) ≡ some (before, after)
    → cut header_boundary (crlf ++ (c ∷ s)) ≡ some (crlf ++ before, after)
cut-boundary_line c s h e =
    cut-step header_boundary b'\r' (b'\n' ∷ c ∷ s) (strip_prefix-boundary c s h) (
      cut-step header_boundary b'\n' (c ∷ s)
        (strip_prefix-miss b'\r' b'\n' (codes "\n\r\n") (c ∷ s) refl) e)
