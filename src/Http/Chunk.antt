-- ===== src/Http/Chunk.antt =====
-- The streaming decoder of chunked bodies (main.cpp, class HttpChunkDecoder).
pub mod Rounds
pub mod Split
pub mod Frames
use lua_xenetwork.Prelude.{
  ℕ, zero, suc, ◌+◌, ◌*◌, Bool, true, false, not, List, [], ◌∷◌, ◌++◌, Option, none, some, Bytes,
  codes, length, take, drop, is_empty, equal, ltb, ◌==◌, if◌then◌else◌, cut, Result, ok, err,
  throw_if, ◌>>=◌, ◌>>◌,
}
use lua_xenetwork.Text.{trim_ascii}
use lua_xenetwork.Text.Numbers.{NumberError, stoull}

pub data ChunkError : Type 0 where
  buffer_exceeded empty_size invalid_size chunk_exceeds missing_terminator : ChunkError
  bad_number : NumberError → ChunkError

pub record Decoder : Type 0 where
  pub buffer : Bytes
  pub remaining : Option ℕ
  pub finished : Bool
  pub maximum : ℕ

-- `HttpChunkDecoder(maximum)`.
abbrev pub decoder : ℕ → Decoder
decoder maximum = record { buffer = []; remaining = none; finished = false; maximum = maximum }

abbrev pub crlf : Bytes
crlf = b'\r' ∷ b'\n' ∷ []

-- The text before an extension, `size_text.resize(size_text.find(';'))`.
unfoldable pub without_extension : Bytes → Bytes
unfolding cut
without_extension text = elim (cut (b';' ∷ []) text) [ none ↦ text | some (size, _) ↦ size ]

abbrev as_chunk_error : Result NumberError (ℕ × ℕ) → Result ChunkError (ℕ × ℕ)
as_chunk_error (ok v) = ok v
as_chunk_error (err e) = err (bad_number e)

-- The size on a chunk's first line.
unfoldable pub parse_size : Bytes → Result ChunkError ℕ
unfolding without_extension trim_ascii stoull
parse_size line = do
  let size_text = trim_ascii (without_extension (trim_ascii line))
  throw_if (is_empty size_text) empty_size
  (size, used) ← as_chunk_error (stoull 16 size_text)
  throw_if (not (used == length size_text)) invalid_size
  ok size

-- What one round of `while (!finished)` does: leave the loop, push a chunk, or throw.
pub data Round : Type 0 where
  wait : Decoder → Round
  emit : Bytes → Decoder → Round
  throw : ChunkError → Round

-- The part of a round that follows the size.
unfoldable pub take_payload : Decoder → ℕ → Round
take_payload d n =
    if ltb (length d.buffer) (n + 2)
    then wait (record d { remaining = some n })
    else if not (equal (take 2 (drop n d.buffer)) crlf)
    then throw missing_terminator
    else emit (take n d.buffer) (record d { buffer = drop (n + 2) d.buffer; remaining = none })

-- With the first line taken off the buffer.
unfoldable pub sized : Decoder → Bytes → Result ChunkError ℕ → Round
sized d rest (err e) = throw e
sized d rest (ok size) =
    if size == 0
    then wait (record d { buffer = rest; finished = true })
    else if ltb d.maximum size
    then throw chunk_exceeds
    else take_payload (record d { buffer = rest; remaining = some size }) size

unfoldable pub take_size : Decoder → Round
take_size d = elim (cut crlf d.buffer) [
  | none ↦ wait d
  | some (line, rest) ↦ sized d rest (parse_size line)
]

unfoldable pub round_at : Option ℕ → Decoder → Round
round_at none d = take_size d
round_at (some n) d = take_payload d n

unfoldable pub round : Decoder → Round
round d = if d.finished then wait d else round_at d.remaining d

-- `spent` stands for fuel that ran out.
pub data Fed : Type 0 where
  fed : List Bytes → Decoder → Fed
  thrown : ChunkError → Fed
  spent : Fed

abbrev pub prepend : List Bytes → Fed → Fed
prepend cs (fed ds d) = fed (cs ++ ds) d
prepend cs (thrown e) = thrown e
prepend cs spent = spent

unfoldable pub drain : ℕ → Decoder → Fed
drain zero d = spent
drain (suc fuel) d = elim (round d) [
  | wait d' ↦ fed [] d'
  | throw e ↦ thrown e
  | emit c d' ↦ prepend (c ∷ []) (drain fuel d')
]

-- Every round that goes on takes bytes off the buffer, so its length is fuel enough.
abbrev pub drain_all : Decoder → Fed
drain_all d = drain (suc (length d.buffer)) d

unfoldable pub feed : Decoder → Bytes → Fed
feed d input =
    let d' = record d { buffer = d.buffer ++ input } in
    if ltb (d.maximum + 1024 * 1024) (length d'.buffer)
    then thrown buffer_exceeded
    else drain_all d'

-- The calls of `Feed` on the pieces of a body, in order.
pub feed_all : Decoder → List Bytes → Fed
feed_all d [] = fed [] d
feed_all d (x ∷ xs) = elim (feed d x) [
  | fed cs d' ↦ prepend cs (feed_all d' xs)
  | thrown e ↦ thrown e
  | spent ↦ spent
]
