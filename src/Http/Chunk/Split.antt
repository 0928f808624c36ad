-- ===== src/Http/Chunk/Split.antt =====
-- The decoder does not see where a body is cut into pieces (main.cpp, HttpChunkDecoder::Feed).
use lua_xenetwork.Prelude.{
  ℕ, zero, suc, ◌+◌, ◌*◌, ◌≤◌, ◌<◌, List, [], ◌∷◌, ◌++◌, Bytes, length, flatten, ◌≡◌, refl, sym, ap,
  ◌∙◌, arith, append_assoc, append-nil, length-append, le→ltb,
}
use lua_xenetwork.Http.Chunk.{
  Decoder, Round, wait, emit, throw, Fed, fed, thrown, spent, prepend, round, drain, drain_all,
  feed, feed_all,
}
use lua_xenetwork.Http.Chunk.Rounds.{extend, extend_round, Shrinks, round-Shrinks, round-more}

abbrev pub after : Round → Fed
after (wait d) = fed [] d
after (emit c d) = prepend (c ∷ []) (drain_all d)
after (throw e) = thrown e

drain_fuel :
    (f g : ℕ) (d : Decoder) → length d.buffer < f → length d.buffer < g → drain f d ≡ drain g d
unfolding drain
drain_fuel zero g d h k = absurd (omega arith)
drain_fuel (suc f) zero d h k = absurd (omega arith)
drain_fuel (suc f) (suc g) d h k = go (round d) refl (drain_fuel f g)
  where
    go :
        (r : Round)
        → round d ≡ r
        → ((e : Decoder) → length e.buffer < f → length e.buffer < g → drain f e ≡ drain g e)
        → drain (suc f) d ≡ drain (suc g) d
    go (wait e) q ih = rw (q, drain)
    go (throw e) q ih = rw (q, drain)
    go (emit c e) q ih =
        let s : Shrinks (length d.buffer) d.maximum (emit c e) = rw q at (round-Shrinks d) in
        rw (q, drain) (ap (prepend (c ∷ [])) (ih e (omega arith) (omega arith)))

pub drain_step : (d : Decoder) → drain_all d ≡ after (round d)
unfolding drain
drain_step d = go (round d) refl
  where
    go : (r : Round) → round d ≡ r → drain_all d ≡ after (round d)
    go (wait e) q = rw (q, drain)
    go (throw e) q = rw (q, drain)
    go (emit c e) q =
        let s : Shrinks (length d.buffer) d.maximum (emit c e) = rw q at (round-Shrinks d) in
        rw (q, drain)
          (ap (prepend (c ∷ []))
            (drain_fuel (length d.buffer) (suc (length e.buffer)) e (omega arith) (omega arith)))

prepend_assoc : (cs ds : List Bytes) (r : Fed) → prepend cs (prepend ds r) ≡ prepend (cs ++ ds) r
prepend_assoc cs ds (fed es d) = ap (λ t. fed t d) (sym (append_assoc cs ds es))
prepend_assoc cs ds (thrown e) = refl
prepend_assoc cs ds spent = refl

prepend-nil : (r : Fed) → prepend [] r ≡ r
prepend-nil (fed es d) = refl
prepend-nil (thrown e) = refl
prepend-nil spent = refl

-- What draining leaves is no longer than what it was given, under the same limit.
abbrev pub Keeps : Decoder → Fed → Type 0
Keeps d (fed cs e) = (length e.buffer ≤ length d.buffer) × (e.maximum ≡ d.maximum)
Keeps d (thrown e) = Unit {0}
Keeps d spent = ⊥

prepend-Keeps :
    (d e : Decoder) (cs : List Bytes) (r : Fed)
    → length e.buffer ≤ length d.buffer
    → e.maximum ≡ d.maximum
    → Keeps e r
    → Keeps d (prepend cs r)
prepend-Keeps d e cs (fed es x) h m k = (omega arith, k.1 ∙ m)
prepend-Keeps d e cs (thrown x) h m k = tt
prepend-Keeps d e cs spent h m k = k

drain-Keeps_below : (n : ℕ) (d : Decoder) → length d.buffer < n → Keeps d (drain_all d)
drain-Keeps_below zero d h = absurd (omega arith)
drain-Keeps_below (suc n) d h = rw (drain_step d) (go (round d) refl (drain-Keeps_below n))
  where
    go :
        (r : Round)
        → round d ≡ r
        → ((e : Decoder) → length e.buffer < n → Keeps e (drain_all e))
        → Keeps d (after r)
    go (wait e) q ih = rw q at (round-Shrinks d)
    go (throw e) q ih = tt
    go (emit c e) q ih =
        let s : Shrinks (length d.buffer) d.maximum (emit c e) = rw q at (round-Shrinks d) in
        prepend-Keeps d e (c ∷ []) (drain_all e) (omega arith) s.1 (ih e (omega arith))

pub drain-Keeps : (d : Decoder) → Keeps d (drain_all d)
drain-Keeps d = drain-Keeps_below (suc (length d.buffer)) d (omega arith)

-- Going on with more bytes after a first drain.
abbrev resume : Fed → Bytes → Fed
resume (fed cs d) x = prepend cs (drain_all (extend d x))
resume (thrown e) x = thrown e
resume spent x = spent

resume-prepend :
    (c : Bytes) (r : Fed) (x : Bytes)
    → resume (prepend (c ∷ []) r) x ≡ prepend (c ∷ []) (resume r x)
resume-prepend c (fed cs d) x = sym (prepend_assoc (c ∷ []) cs (drain_all (extend d x)))
resume-prepend c (thrown e) x = refl
resume-prepend c spent x = refl

drain-split_below :
    (n : ℕ) (d : Decoder) (x : Bytes)
    → length d.buffer < n
    → drain_all (extend d x) ≡ resume (drain_all d) x
drain-split_below zero d x h = absurd (omega arith)
drain-split_below (suc n) d x h =
    drain_step (extend d x)
    ∙ ap after (round-more d x)
    ∙ go (round d) refl (λ e k. drain-split_below n e x k)
    ∙ ap (λ r. resume r x) (sym (drain_step d))
  where
    go :
        (r : Round)
        → round d ≡ r
        → ((e : Decoder) → length e.buffer < n → drain_all (extend e x) ≡ resume (drain_all e) x)
        → after (extend_round r x) ≡ resume (after r) x
    go (wait e) q ih = sym (drain_step (extend e x)) ∙ sym (prepend-nil _)
    go (throw e) q ih = refl
    go (emit c e) q ih =
        let s : Shrinks (length d.buffer) d.maximum (emit c e) = rw q at (round-Shrinks d) in
        ap (prepend (c ∷ [])) (ih e (omega arith)) ∙ sym (resume-prepend c (drain_all e) x)

-- Bytes that are all at hand are drained like bytes that arrive in two parts.
pub drain-split : (d : Decoder) (x : Bytes) → drain_all (extend d x) ≡ resume (drain_all d) x
drain-split d x = drain-split_below (suc (length d.buffer)) d x (omega arith)

-- The result of a first call, and then a second.
abbrev pub then_feed : Fed → Bytes → Fed
then_feed (fed cs d) x = prepend cs (feed d x)
then_feed (thrown e) x = thrown e
then_feed spent x = spent

pub feed-within :
    (d : Decoder) (x : Bytes)
    → length d.buffer + length x ≤ d.maximum + 1024 * 1024
    → feed d x ≡ drain_all (extend d x)
unfolding feed
feed-within d x h = rw (
    le→ltb (d.maximum + 1024 * 1024) (length (d.buffer ++ x))
      (omega (arith, length-append d.buffer x)))

pub feed-append :
    (d : Decoder) (x y : Bytes)
    → length d.buffer + length x + length y ≤ d.maximum + 1024 * 1024
    → feed d (x ++ y) ≡ then_feed (feed d x) y
feed-append d x y h =
    feed-within d (x ++ y) (omega (arith, length-append x y))
    ∙ ap (λ b. drain_all (record d { buffer = b })) (sym (append_assoc d.buffer x y))
    ∙ drain-split (extend d x) y
    ∙ go (drain_all (extend d x)) (drain-Keeps (extend d x))
    ∙ ap (λ r. then_feed r y) (sym (feed-within d x (omega arith)))
  where
    go : (r : Fed) → Keeps (extend d x) r → resume r y ≡ then_feed r y
    go (fed cs e) k =
        ap (prepend cs) (sym (feed-within e y (omega (arith, length-append d.buffer x))))
    go (thrown e) k = refl
    go spent k = refl

-- What a call leaves, in the terms of its own decoder.
feed-Keeps :
    (d : Decoder) (x : Bytes)
    → length d.buffer + length x ≤ d.maximum + 1024 * 1024
    → Keeps (extend d x) (feed d x)
feed-Keeps d x h = rw (feed-within d x h) (drain-Keeps (extend d x))

abbrev then_all : Fed → List Bytes → Fed
then_all (fed cs d) xs = prepend cs (feed_all d xs)
then_all (thrown e) xs = thrown e
then_all spent xs = spent

feed_all_step :
    (d : Decoder) (x : Bytes) (xs : List Bytes) → feed_all d (x ∷ xs) ≡ then_all (feed d x) xs
unfolding feed_all
feed_all_step d x xs = go (feed d x) refl
  where
    go : (r : Fed) → feed d x ≡ r → feed_all d (x ∷ xs) ≡ then_all (feed d x) xs
    go (fed cs e) q = rw (q, feed_all)
    go (thrown e) q = rw (q, feed_all)
    go spent q = rw (q, feed_all)

then_all-nil : (r : Fed) → then_all r [] ≡ r
unfolding feed_all
then_all-nil (fed cs d) = ap (λ t. fed t d) (append-nil cs)
then_all-nil (thrown e) = refl
then_all-nil spent = refl

-- As long as the whole stays within the buffer's limit, the calls of `Feed` on the pieces of a
-- body, however it is cut, return the chunks, the state and the error of one call on the whole.
pub feed_all-flatten :
    (d : Decoder) (x : Bytes) (xs : List Bytes)
    → length d.buffer + length x + length (flatten xs) ≤ d.maximum + 1024 * 1024
    → feed_all d (x ∷ xs) ≡ feed d (x ++ flatten xs)
feed_all-flatten d x [] h =
    feed_all_step d x [] ∙ then_all-nil (feed d x) ∙ ap (feed d) (sym (append-nil x))
feed_all-flatten d x (y ∷ ys) h =
    feed_all_step d x (y ∷ ys)
    ∙ go (feed d x) (feed-Keeps d x (omega arith)) (λ e k. feed_all-flatten e y ys k)
    ∙ sym (feed-append d x (y ++ flatten ys) (omega arith))
  where
    go :
        (r : Fed)
        → Keeps (extend d x) r
        → ((e : Decoder)
            → length e.buffer + length y + length (flatten ys) ≤ e.maximum + 1024 * 1024
            → feed_all e (y ∷ ys) ≡ feed e (y ++ flatten ys))
        → then_all r (y ∷ ys) ≡ then_feed r (y ++ flatten ys)
    go (fed cs e) k ih =
        ap (prepend cs)
          (ih e (omega (arith, length-append d.buffer x, length-append y (flatten ys))))
    go (thrown e) k ih = refl
    go spent k ih = refl
