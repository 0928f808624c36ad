-- ===== src/Prelude/Search.antt =====
-- `std::string::find`, `rfind`, `starts_with` and `substr` around a match, as cuts of a list.
use Prim.Native.Nat.{ℕ, ◌+◌, ◌≤◌}
use mathlib.Core.Path.{◌≡◌, refl, ap, ◌∙◌}
use mathlib.Core.List.{[], ◌∷◌, ◌++◌, append_assoc}
use mathlib.Core.Logic.{inl, inr}
use mathlib.Core.Option.{Option, none, some}
use mathlib.Core.Bool.{Bool, true, false}
use native.Mathlib.Omega.{arith}
use lua_xenetwork.Prelude.Tests.{◌==◌, if◌then◌else◌, Option-cases}
use lua_xenetwork.Prelude.Lists.{Bytes, length, length-append}

-- What follows the prefix, if the text starts with it.
unfoldable pub strip_prefix : Bytes → Bytes → Option Bytes
strip_prefix [] s = some s
strip_prefix (p ∷ ps) [] = none
strip_prefix (p ∷ ps) (c ∷ s) = if p == c then strip_prefix ps s else none

-- At the first occurrence of `sep` (`s.find(sep)`): what stands before it and what follows it.
-- `none` is `npos`; the separators that are searched for are not empty.
unfoldable pub cut : Bytes → Bytes → Option (Bytes × Bytes)
cut sep [] = none
cut sep (c ∷ s) = elim (strip_prefix sep (c ∷ s)) [
  | some rest ↦ some ([], rest)
  | none ↦ elim (cut sep s) [ none ↦ none | some (before, after) ↦ some (c ∷ before, after) ]
]

-- At the last occurrence of a byte (`s.rfind(b)`).
unfoldable pub cut_last : ℕ → Bytes → Option (Bytes × Bytes)
cut_last b [] = none
cut_last b (c ∷ s) = elim (cut_last b s) [
  | some (before, after) ↦ some (c ∷ before, after)
  | none ↦ if c == b then some ([], s) else none
]

-- `s.find(b) != npos`.
unfoldable pub contains : ℕ → Bytes → Bool
contains b [] = false
contains b (c ∷ s) = if c == b then true else contains b s

pub strip_prefix-eq-some : (p s : Bytes) {r : Bytes} → strip_prefix p s ≡ some r → s ≡ p ++ r
unfolding strip_prefix
strip_prefix-eq-some [] s e = ground arith
strip_prefix-eq-some (p ∷ ps) [] e = absurd (cc)
strip_prefix-eq-some (p ∷ ps) (c ∷ s) {r} e = ground (arith, strip_prefix-eq-some ps s {r = r})

pub strip_prefix-append : (p r : Bytes) → strip_prefix p (p ++ r) ≡ some r
unfolding strip_prefix
strip_prefix-append [] r = refl
strip_prefix-append (p ∷ ps) r = ground (arith, strip_prefix-append ps r)

pub strip_prefix-more :
    (p s x : Bytes) {r : Bytes}
    → strip_prefix p s ≡ some r
    → strip_prefix p (s ++ x) ≡ some (r ++ x)
strip_prefix-more p s x {r} e =
    ap (λ t. strip_prefix p (t ++ x)) (strip_prefix-eq-some p s e)
    ∙ ap (strip_prefix p) (append_assoc p r x)
    ∙ strip_prefix-append p (r ++ x)

-- The parts put together again are the text.
pub cut-eq-some :
    (sep s : Bytes) {before after : Bytes}
    → cut sep s ≡ some (before, after)
    → s ≡ before ++ (sep ++ after)
unfolding cut
cut-eq-some sep [] e = absurd (cc)
cut-eq-some sep (c ∷ s) {before} {after} e = elim (Option-cases (strip_prefix sep (c ∷ s))) [
  | inr (r, m) ↦ ground (arith, strip_prefix-eq-some sep (c ∷ s) {r = r})
  | inl m ↦ elim (Option-cases (cut sep s)) [
    | inl n ↦ absurd (ground arith)
    | inr ((b, a), n) ↦ ground (arith, cut-eq-some sep s {before = b} {after = a})
  ]
]

pub cut-eq-some-length :
    (sep s : Bytes) {before after : Bytes}
    → cut sep s ≡ some (before, after)
    → length s ≡ length before + length sep + length after
cut-eq-some-length sep s {before} {after} e = omega (
  arith,
  ap {B = ℕ} length (cut-eq-some sep s e),
  length-append before (sep ++ after),
  length-append sep after,
)

strip_prefix-none_more :
    (p s x : Bytes) → strip_prefix p s ≡ none → length p ≤ length s → strip_prefix p (s ++ x) ≡ none
unfolding strip_prefix
strip_prefix-none_more [] s x e h = absurd (ground arith)
strip_prefix-none_more (p ∷ ps) [] x e h = absurd (omega arith)
strip_prefix-none_more (p ∷ ps) (c ∷ s) x e h = ground (arith, strip_prefix-none_more ps s x)

-- A match that is found is found at the same place when more bytes arrive.
pub cut-more :
    (sep s x : Bytes) {before after : Bytes}
    → cut sep s ≡ some (before, after)
    → cut sep (s ++ x) ≡ some (before, after ++ x)
unfolding cut
cut-more sep [] x e = absurd (cc)
cut-more sep (c ∷ s) x {before} {after} e = elim (Option-cases (strip_prefix sep (c ∷ s))) [
  | inr (r, m) ↦ ground (arith, strip_prefix-more sep (c ∷ s) x m)
  | inl m ↦ elim (Option-cases (cut sep s)) [
    | inl n ↦ absurd (ground arith)
    | inr ((b, a), n) ↦ ground (
      arith,
      strip_prefix-none_more sep (c ∷ s) x m (omega (arith, cut-eq-some-length sep s n)),
      cut-more sep s x n,
    )
  ]
]
