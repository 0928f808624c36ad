-- ===== src/Http/Chunk/Frames.antt =====
-- Decoding a body that was framed chunk by chunk (main.cpp, HttpChunkDecoder).
use lua_xenetwork.Prelude.{
  ℕ, ◌+◌, ◌*◌, ◌≤◌, ◌<◌, true, false, List, [], ◌∷◌, ◌++◌, some, Bytes, length, drop, flatten,
  equal_iff, cut, ltb, All, ok, ◌≡◌, refl, sym, ap, ◌∙◌, arith, append_assoc, length-append, le→ltb,
  take-length, drop-length,
}
use lua_xenetwork.Http.Chunk.{
  Decoder, decoder, wait, emit, fed, prepend, crlf, parse_size, take_payload, sized, take_size,
  round_at, round, drain_all, feed_all,
}
use lua_xenetwork.Http.Chunk.Split.{after, drain_step, feed-within, feed_all-flatten}

-- A chunk with its size line as the peer wrote it: any spelling that the decoder reads as the
-- chunk's length, with leading zeros, capitals or an extension.
pub record Frame : Type 0 where
  pub size_line : Bytes
  pub payload : Bytes

abbrev pub encode_frame : Frame → Bytes
encode_frame f = f.size_line ++ (crlf ++ (f.payload ++ crlf))

abbrev pub encode : List Frame → Bytes
encode [] = []
encode (f ∷ fs) = encode_frame f ++ encode fs

-- The size line ends at its own line break, and states the length of a chunk within the limit.
pub record IsFrame (maximum : ℕ) (f : Frame) : Type 0 where
  pub one_line : (s : Bytes) → cut crlf (f.size_line ++ (crlf ++ s)) ≡ some (f.size_line, s)
  pub states_size : parse_size f.size_line ≡ ok (length f.payload)
  pub not_last : 0 < length f.payload
  pub within : length f.payload ≤ maximum

-- The line that ends the body.
pub record IsLast (line : Bytes) : Type 0 where
  pub one_line : (s : Bytes) → cut crlf (line ++ (crlf ++ s)) ≡ some (line, s)
  pub states_zero : parse_size line ≡ ok 0

abbrev between : ℕ → Bytes → Decoder
between maximum b = record (decoder maximum) { buffer = b }

abbrev pub done : ℕ → Bytes → Decoder
done maximum b = record (decoder maximum) { buffer = b; finished = true }

payload_taken :
    (maximum : ℕ) (p s : Bytes)
    → take_payload
        (record (between maximum (p ++ (crlf ++ s))) { remaining = some (length p) })
        (length p)
      ≡ emit p (between maximum s)
unfolding take_payload
payload_taken maximum p s =
    let whole : p ++ (crlf ++ s) ≡ (p ++ crlf) ++ s = sym (append_assoc p crlf s) in
    let past : drop (length p + 2) (p ++ (crlf ++ s)) ≡ s =
      ap (drop (length p + 2)) whole
      ∙ ap (λ n. drop n ((p ++ crlf) ++ s)) (sym (length-append p crlf))
      ∙ drop-length (p ++ crlf) s in
    let enough : ltb (length (p ++ (crlf ++ s))) (length p + 2) ≡ false =
      le→ltb (length (p ++ (crlf ++ s))) (length p + 2)
        (omega (arith, length-append p (crlf ++ s))) in
    rw (
      enough,
      drop-length p (crlf ++ s),
      (equal_iff crlf crlf).1 refl,
      past,
      take-length p (crlf ++ s),
    )

round_frame :
    (maximum : ℕ) (f : Frame) (s : Bytes)
    → IsFrame maximum f
    → round (between maximum (encode_frame f ++ s)) ≡ emit f.payload (between maximum s)
unfolding round round_at take_size sized
round_frame maximum f s v =
    let regroup : encode_frame f ++ s ≡ f.size_line ++ (crlf ++ (f.payload ++ (crlf ++ s))) =
      append_assoc f.size_line _ s
      ∙ ap (λ t. f.size_line ++ (crlf ++ t)) (append_assoc f.payload crlf s) in
    rw (regroup, v.one_line, take_size)
      (rw (v.states_size, sized)
        (ground (arith, payload_taken maximum f.payload s, v.not_last, v.within)))

round_last :
    (maximum : ℕ) (line s : Bytes)
    → IsLast line
    → round (between maximum (line ++ (crlf ++ s))) ≡ wait (done maximum s)
unfolding round round_at take_size sized
round_last maximum line s v = rw (v.one_line, take_size) (rw (v.states_zero, sized))

pub payloads : List Frame → List Bytes
payloads [] = []
payloads (f ∷ fs) = f.payload ∷ payloads fs

drain_frames :
    (maximum : ℕ) (fs : List Frame) (line s : Bytes)
    → All (IsFrame maximum) fs
    → IsLast line
    → drain_all (between maximum (encode fs ++ (line ++ (crlf ++ s))))
      ≡ fed (payloads fs) (done maximum s)
unfolding payloads
drain_frames maximum [] line s v last = drain_step _ ∙ ap after (round_last maximum line s last)
drain_frames maximum (f ∷ fs) line s v last =
    ap (λ b. drain_all (between maximum b))
      (append_assoc (encode_frame f) (encode fs) (line ++ (crlf ++ s)))
    ∙ drain_step _
    ∙ ap after (round_frame maximum f _ v.0)
    ∙ ap (prepend (f.payload ∷ [])) (drain_frames maximum fs line s v.1 last)

-- However the bytes of a framed body are cut into pieces, feeding the pieces to a new decoder
-- returns the payloads in order and leaves it finished with the bytes behind the last line, if
-- every chunk is within the limit and the bytes received fit the buffer's limit.
pub feed_all-encode :
    (maximum : ℕ) (fs : List Frame) (line trailer x : Bytes) (xs : List Bytes)
    → All (IsFrame maximum) fs
    → IsLast line
    → x ++ flatten xs ≡ encode fs ++ (line ++ (crlf ++ trailer))
    → length x + length (flatten xs) ≤ maximum + 1024 * 1024
    → feed_all (decoder maximum) (x ∷ xs) ≡ fed (payloads fs) (done maximum trailer)
feed_all-encode maximum fs line trailer x xs v last e h =
    feed_all-flatten (decoder maximum) x xs (omega arith)
    ∙ feed-within (decoder maximum) (x ++ flatten xs) (omega (arith, length-append x (flatten xs)))
    ∙ ap (λ b. drain_all (between maximum b)) e
    ∙ drain_frames maximum fs line trailer v last
