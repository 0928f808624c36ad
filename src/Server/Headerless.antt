-- ===== src/Server/Headerless.antt =====
-- Requests without a header line (main.cpp, ListenerContext::lua_Request).
use lua_xenetwork.Prelude.{
  ℕ, zero, suc, ◌+◌, ◌^◌, ◌≤◌, [], ◌∷◌, ◌++◌, some, Bytes, codes, length, take, drop, cut,
  cut-eq-some-length, ◌≡◌, refl, sym, ap, ◌∙◌, drop-length, drop-drop, inl, inr, Option-cases,
  arith,
}
use lua_xenetwork.Http.Chunk.{crlf}
use lua_xenetwork.Http.Headers.{lines, header_lines}
use lua_xenetwork.Server.{find, header_block, header_boundary}
use lua_xenetwork.Server.Searches.{Without, cut-found}
use lua_xenetwork.Server.Blocks.{header_lines-last, header_lines-next}
use lua_xenetwork.Server.Fields.{find-found}

header_lines-nil : (fuel : ℕ) → header_lines fuel [] ≡ []
unfolding header_lines
header_lines-nil zero = refl
header_lines-nil (suc fuel) = refl

zero_plus : (n : ℕ) → n ≡ n + 0
zero_plus n = omega arith

-- As much fuel as bytes is enough for the loop over the lines.
header_lines-enough :
    (fuel more : ℕ) (s : Bytes)
    → length s ≤ fuel
    → header_lines fuel s ≡ header_lines (fuel + more) s
header_lines-enough zero zero s h = ap (λ n. header_lines n s) (zero_plus 0)
header_lines-enough zero (suc more) [] h =
    header_lines-nil 0 ∙ sym (header_lines-nil (0 + suc more))
header_lines-enough zero (suc more) (c ∷ s) h = absurd (omega arith)
header_lines-enough (suc fuel) more [] h =
    header_lines-nil (suc fuel) ∙ sym (header_lines-nil (suc fuel + more))
header_lines-enough (suc fuel) more (c ∷ s) h = elim (Option-cases (cut crlf (c ∷ s))) [
  | inl q ↦
      header_lines-last fuel c s q
      ∙ sym (header_lines-last (fuel + more) c s q)
      ∙ ap (λ n. header_lines n (c ∷ s)) (omega arith)
  | inr ((line, rest), q) ↦
      let sizes = cut-eq-some-length crlf (c ∷ s) q in
      header_lines-next fuel c s line rest q
      ∙ ap (◌∷◌ line) (header_lines-enough fuel more rest (omega (arith, sizes)))
      ∙ sym (header_lines-next (fuel + more) c s line rest q)
      ∙ ap (λ n. header_lines n (c ∷ s)) (omega arith)
]

lines-crlf : (s : Bytes) → lines (crlf ++ s) ≡ [] ∷ lines s
unfolding lines
lines-crlf s =
    let one_more : suc (length s) ≡ length s + 1 = omega arith in
    header_lines-next (suc (length s)) b'\r' (b'\n' ∷ s) [] s (cut-found b'\r' (codes "\n") [] s tt)
    ∙ ap (◌∷◌ []) (
        ap (λ n. header_lines n s) one_more
        ∙ sym (header_lines-enough (length s) 1 s (omega arith)))

take-all : (n : ℕ) (s : Bytes) → length s ≤ n → take n s ≡ s
take-all zero [] h = refl
take-all zero (c ∷ s) h = absurd (omega arith)
take-all (suc n) [] h = refl
take-all (suc n) (c ∷ s) h = ap (◌∷◌ c) (take-all n s (omega arith))

-- The difference of the positions is below zero, so that the block is all that follows.
header_block-rest :
    (first rest : Bytes)
    → length rest ≤ 2 ^ 63
    → header_block (first ++ (header_boundary ++ rest)) (length first) (length first) ≡ crlf ++ rest
unfolding header_block
header_block-rest first rest small =
    let behind : drop (length first + 2) (first ++ (header_boundary ++ rest)) ≡ crlf ++ rest =
      drop-drop (first ++ (header_boundary ++ rest)) (length first) 2 (length first + 2) refl
      ∙ ap (drop 2) (drop-length first (header_boundary ++ rest)) in
    let below : length rest ≤ 9223372036854775808 = small in
    ap (take _) behind ∙ take-all _ (crlf ++ rest) (omega arith)

-- Where no header line follows the request line, both line end and header end are at the end of the
-- request line, the length of the header's block wraps below zero, and all that is buffered behind
-- the head is read as header lines, behind an empty one.
pub header_block-headerless :
    (first rest : Bytes)
    → Without b'\r' first
    → length rest ≤ 2 ^ 63
    → (find crlf (first ++ (header_boundary ++ rest)) ≡ some (length first))
      × (find header_boundary (first ++ (header_boundary ++ rest)) ≡ some (length first))
      × (lines (header_block (first ++ (header_boundary ++ rest)) (length first) (length first))
          ≡ [] ∷ lines rest)
header_block-headerless first rest h small = (
  find-found b'\r' (codes "\n") first (crlf ++ rest) h,
  find-found b'\r' (codes "\n\r\n") first rest h,
  ap lines (header_block-rest first rest small) ∙ lines-crlf rest,
)
