-- ===== src/Http/Chunk/Rounds.antt =====
-- One round of the decoder, and what it does when more bytes have already arrived.
use lua_xenetwork.Prelude.{
  ℕ, ◌+◌, ◌≤◌, ◌<◌, false, ◌++◌, none, some, Bytes, length, take, drop, equal, ltb, cut, Result, ok,
  err, ◌≡◌, refl, ap, ◌∙◌, arith, inl, inr, Bool-cases, Option-cases, cut-more, cut-eq-some-length,
  length-drop, length-append, take-append, drop-append, le→ltb, ltb→le,
}
use lua_xenetwork.Http.Chunk.{
  Decoder, Round, wait, emit, throw, ChunkError, crlf, parse_size, take_payload, sized, take_size,
  round_at, round,
}

-- The decoder with more bytes behind those that it holds.
abbrev pub extend : Decoder → Bytes → Decoder
extend d x = record d { buffer = d.buffer ++ x }

abbrev pub extend_round : Round → Bytes → Round
extend_round (wait d) x = round (extend d x)
extend_round (emit c d) x = emit c (extend d x)
extend_round (throw e) x = throw e

-- A round that leaves the loop waits for nothing shorter than the buffer it was given.
abbrev pub Shrinks : ℕ → ℕ → Round → Type 0
Shrinks n m (wait d) = (length d.buffer ≤ n) × (d.maximum ≡ m)
Shrinks n m (emit c d) = (length d.buffer < n) × (d.maximum ≡ m)
Shrinks n m (throw e) = Unit {0}

take_payload-Shrinks :
    (d : Decoder) (n : ℕ) → Shrinks (length d.buffer) d.maximum (take_payload d n)
unfolding take_payload
take_payload-Shrinks d n = ground (arith, length-drop (n + 2) d.buffer)

take_payload-more :
    (d : Decoder) (n : ℕ) (x : Bytes)
    → d.finished ≡ false
    → take_payload (extend d x) n ≡ extend_round (take_payload d n) x
unfolding take_payload round round_at
take_payload-more d n x f = elim (Bool-cases (ltb (length d.buffer) (n + 2))) [
  | inl short ↦ rw short (ground arith)
  | inr long ↦
      let room : n + 2 ≤ length d.buffer = ltb→le _ _ long in
      let rest : drop n (d.buffer ++ x) ≡ drop n d.buffer ++ x =
        drop-append n d.buffer x (omega arith) in
      let mark : take 2 (drop n (d.buffer ++ x)) ≡ take 2 (drop n d.buffer) =
        ap (take 2) rest
        ∙ take-append 2 (drop n d.buffer) x (omega (arith, length-drop n d.buffer)) in
      let enough : ltb (length (d.buffer ++ x)) (n + 2) ≡ false =
        le→ltb _ _ (omega (arith, length-append d.buffer x)) in
      rw
        (
          long,
          enough,
          mark,
          take-append n d.buffer x (omega arith),
          drop-append (n + 2) d.buffer x (omega arith),
        )
        (elim (Bool-cases (equal (take 2 (drop n d.buffer)) crlf)) [
          | inl good ↦ rw good
          | inr bad ↦ rw bad
        ])
]

sized-more :
    (d : Decoder) (rest x : Bytes) (r : Result ChunkError ℕ)
    → d.finished ≡ false
    → sized (extend d x) (rest ++ x) r ≡ extend_round (sized d rest r) x
unfolding sized round
sized-more d rest x (err e) f = refl
sized-more d rest x (ok size) f =
    ground (arith, take_payload-more (record d { buffer = rest; remaining = some size }) size x f)

sized-Shrinks :
    (d : Decoder) (rest : Bytes) (r : Result ChunkError ℕ)
    → length rest < length d.buffer
    → Shrinks (length d.buffer) d.maximum (sized d rest r)
unfolding sized
sized-Shrinks d rest (err e) h = tt
sized-Shrinks d rest (ok size) h =
    ground (arith, take_payload-Shrinks (record d { buffer = rest; remaining = some size }) size)

take_size-Shrinks : (d : Decoder) → Shrinks (length d.buffer) d.maximum (take_size d)
unfolding take_size
take_size-Shrinks d = elim (Option-cases (cut crlf d.buffer)) [
  | inl e ↦ rw (e, take_size) (omega arith, refl)
  | inr ((line, rest), e) ↦
      rw (e, take_size)
        (sized-Shrinks d rest (parse_size line) (omega (arith, cut-eq-some-length crlf d.buffer e)))
]

take_size-more :
    (d : Decoder) (x : Bytes)
    → d.finished ≡ false
    → d.remaining ≡ none
    → take_size (extend d x) ≡ extend_round (take_size d) x
unfolding take_size
take_size-more d x f r = elim (Option-cases (cut crlf d.buffer)) [
  | inl e ↦ rw (e, take_size) (unfold round round_at in rw (f, r))
  | inr ((line, rest), e) ↦
      rw (e, cut-more crlf d.buffer x e, take_size) (sized-more d rest x (parse_size line) f)
]

pub round-Shrinks : (d : Decoder) → Shrinks (length d.buffer) d.maximum (round d)
round-Shrinks d = elim (Bool-cases d.finished) [
  | inl e ↦
      let waits : round d ≡ wait d = unfold round in ground arith in rw waits (omega arith, refl)
  | inr e ↦ elim (Option-cases d.remaining) [
    | inl absent ↦
        let sizes : round d ≡ take_size d = unfold round round_at in ground arith in
        rw sizes (take_size-Shrinks d)
    | inr (n, present) ↦
        let pays : round d ≡ take_payload d n = unfold round round_at in ground arith in
        rw pays (take_payload-Shrinks d n)
  ]
]

-- More bytes behind the buffer do not change a round that pushes a chunk or throws, and where
-- the round waits, it goes on from where it stopped.
pub round-more : (d : Decoder) (x : Bytes) → round (extend d x) ≡ extend_round (round d) x
unfolding round round_at
round-more d x = elim (Bool-cases d.finished) [
  | inl e ↦ ground arith
  | inr e ↦ elim (Option-cases d.remaining) [
    | inl none_left ↦ ground (arith, take_size-more d x e none_left)
    | inr (n, some_left) ↦ ground (arith, take_payload-more d n x e)
  ]
]
