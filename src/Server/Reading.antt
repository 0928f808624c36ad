-- ===== src/Server/Reading.antt =====
-- How the head and the body of a request are collected (main.cpp, ListenerContext::lua_Request).
use lua_xenetwork.Prelude.{
  ℕ, ◌+◌, ◌≤◌, ◌<◌, true, false, List, [], ◌∷◌, ◌++◌, Option, none, some, Bytes, length, flatten,
  is_empty, leb, cut, ok, All, inl, inr, ◌≡◌, refl, sym, ap, ◌∙◌, subst, append_assoc,
  length-append, Bool-cases, Option-cases, cut-more, cut-eq-some-length, arith, leb→le, le→leb, ◌⊎◌,
}
use lua_xenetwork.Tls.Client.Stream.{cuts_compared}
use lua_xenetwork.Server.{Arriving, find, read_head, read_body, header_boundary, max_header_bytes}

-- A head that ends in front of the boundary, whatever follows.
abbrev pub IsHead : Bytes → Type 0
IsHead head = (s : Bytes) → cut header_boundary (head ++ (header_boundary ++ s)) ≡ some (head, s)

-- Every answer holds a byte.
abbrev pub HoldBytes : List Bytes → Type 0
HoldBytes = All (λ chunk. is_empty chunk ≡ false)

-- The buffer holds a head and its boundary, and with the answers that are left the whole text.
pub record Collected (head rest : Bytes) (t : Arriving) : Type 0 where
  pub more : Bytes
  pub buffer_eq : t.recv_buffer ≡ head ++ (header_boundary ++ more)
  pub rest_eq : more ++ flatten t.answers ≡ rest
  pub hold : HoldBytes t.answers

pub find-IsHead :
    (head s : Bytes)
    → IsHead head
    → find header_boundary (head ++ (header_boundary ++ s)) ≡ some (length head)
unfolding find
find-IsHead head s h = rw (find, h s) refl

read_head-done :
    (answers : List Bytes) (buffer : Bytes) (n : ℕ)
    → find header_boundary buffer ≡ some n
    → read_head answers buffer ≡ record { recv_buffer = buffer; answers = answers }
unfolding read_head
read_head-done [] buffer n e = refl
read_head-done (chunk ∷ answers) buffer n e = rw e refl

read_head-more :
    (chunk : Bytes) (answers : List Bytes) (buffer : Bytes)
    → find header_boundary buffer ≡ none
    → leb max_header_bytes (length buffer) ≡ false
    → is_empty chunk ≡ false
    → read_head (chunk ∷ answers) buffer ≡ read_head answers (buffer ++ chunk)
unfolding read_head
read_head-more chunk answers buffer e1 e2 e3 = rw e1 (rw e2 (rw e3 refl))

-- A buffer that is too short for the head and its boundary does not have one.
find-short :
    (buffer head rest later : Bytes)
    → IsHead head
    → buffer ++ later ≡ head ++ (header_boundary ++ rest)
    → length buffer < length head + 4
    → find header_boundary buffer ≡ none
unfolding find
find-short buffer head rest later h e short = elim (Option-cases (cut header_boundary buffer)) [
  | inl q ↦ rw (find, q) refl
  | inr ((b, a), q) ↦
      let found : cut header_boundary (buffer ++ later) ≡ some (head, rest) =
        ap (cut header_boundary) e ∙ h rest in
      let also = cut-more header_boundary buffer later q in
      let same : b ≡ head = ap {A = Option (Bytes × Bytes)} first_part (sym also ∙ found) in
      absurd
        (omega (arith, cut-eq-some-length header_boundary buffer q, ap {B = ℕ} length same, short))
]
  where
    first_part : Option (Bytes × Bytes) → Bytes
    first_part none = []
    first_part (some p) = p.0

-- The head is there, or bytes of it are missing.
arrived :
    (buffer head rest later : Bytes)
    → buffer ++ later ≡ head ++ (header_boundary ++ rest)
    → ((r : Bytes) × (buffer ≡ head ++ (header_boundary ++ r)) × (r ++ later ≡ rest))
      ⊎ (length buffer < length head + 4)
arrived buffer head rest later e =
    elim (cuts_compared buffer later (head ++ header_boundary) rest
      (e ∙ sym (append_assoc head header_boundary rest))) [
        | inl (r, e1, e2) ↦ inl (r, e1 ∙ append_assoc head header_boundary r, e2)
        | inr (short, e1) ↦ inr (omega (arith, short, length-append head header_boundary))
      ]

read_head-here :
    (answers : List Bytes) (buffer head rest r : Bytes)
    → IsHead head
    → HoldBytes answers
    → buffer ≡ head ++ (header_boundary ++ r)
    → r ++ flatten answers ≡ rest
    → Collected head rest (read_head answers buffer)
read_head-here answers buffer head rest r h hold e1 e2 =
    subst (Collected head rest)
      (sym (
        read_head-done answers buffer (length head)
          (ap (find header_boundary) e1 ∙ find-IsHead head r h)))
      record { more = r; buffer_eq = e1; rest_eq = e2; hold = hold }

pub read_head-Collected :
    (answers : List Bytes) (buffer head rest : Bytes)
    → IsHead head
    → length head + 4 ≤ max_header_bytes
    → HoldBytes answers
    → buffer ++ flatten answers ≡ head ++ (header_boundary ++ rest)
    → Collected head rest (read_head answers buffer)
read_head-Collected [] buffer head rest h small hold e = elim (arrived buffer head rest [] e) [
  | inl (r, e1, e2) ↦ read_head-here [] buffer head rest r h hold e1 e2
  | inr short ↦ absurd (
      omega (
        arith,
        short,
        ap {B = ℕ} length e,
        length-append buffer [],
        length-append head (header_boundary ++ rest),
      ))
]
read_head-Collected (chunk ∷ answers) buffer head rest h small hold e =
    elim (arrived buffer head rest (chunk ++ flatten answers) e) [
      | inl (r, e1, e2) ↦ read_head-here (chunk ∷ answers) buffer head rest r h hold e1 e2
      | inr short ↦
          let within : leb 1048576 (length buffer) ≡ false = ground arith in
          subst (Collected head rest)
            (sym (
              read_head-more chunk answers buffer
                (find-short buffer head rest (chunk ++ flatten answers) h e short) within hold.0))
            (read_head-Collected answers (buffer ++ chunk) head rest h small hold.1
              (append_assoc buffer chunk (flatten answers) ∙ e))
    ]

-- The body is complete once as many bytes have arrived as are asked for.
pub read_body-Complete :
    (answers : List Bytes) (buffer all : Bytes) (size : ℕ)
    → HoldBytes answers
    → buffer ++ flatten answers ≡ all
    → size ≤ length all
    → (t : Arriving) × (read_body size answers buffer ≡ ok t)
      × (size ≤ length t.recv_buffer)
      × (t.recv_buffer ++ flatten t.answers ≡ all)
      × HoldBytes t.answers
unfolding read_body
read_body-Complete [] buffer all size hold e h =
    let whole : leb size (length buffer) ≡ true =
      le→leb _ _ (omega (arith, ap {B = ℕ} length e, length-append buffer [])) in
    (record { recv_buffer = buffer; answers = [] }, rw whole refl, leb→le _ _ whole, e, tt)
read_body-Complete (chunk ∷ answers) buffer all size hold e h =
    elim (Bool-cases (leb size (length buffer))) [
      | inl q ↦ (
        record { recv_buffer = buffer; answers = chunk ∷ answers },
        rw q refl,
        leb→le _ _ q,
        e,
        hold,
      )
      | inr q ↦
          let (t, e1, e2, e3, e4) =
            read_body-Complete answers (buffer ++ chunk) all size hold.1
              (append_assoc buffer chunk (flatten answers) ∙ e) h in
          (t, rw q (rw hold.0 e1), e2, e3, e4)
    ]
