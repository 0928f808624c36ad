-- ===== src/Http/Transfer/Body.antt =====
-- A round of the receive loop keeps the body sound (main.cpp, ResolveHttpRequest).
use lua_xenetwork.Prelude.{
  ℕ, ◌+◌, ◌-◌, ◌*◌, ◌≤◌, Bool, not, true, false, List, [], ◌∷◌, ◌++◌, Option, none, some, Bytes,
  codes, length, flatten, take, cut, Result, ok, err, throw_if, ◌>>=◌, ◌≡◌, refl, sym, ap, ◌∙◌,
  arith, inl, inr, append_assoc, append-nil, length-append, subst, Bool-cases, ltb, ltb→le,
  if◌then◌else◌, is_empty,
}
use lua_xenetwork.Http.Chunk.{Fed, fed, thrown, spent, feed}
use lua_xenetwork.Http.Headers.{Response, parse_response_headers, find_header}
use lua_xenetwork.Http.Transfer.{
  Options, Error, Transfer, Callbacks, append_body, append_all, take_chunks, take_counted,
  take_body, delimit, as_head_error, take_pending, count_bytes, take_bytes, exceeds, delimited,
  length_exceeds, failed_by_headers, headers_exceeded, read_length, blank_line,
}

flatten-concat : (xs : List Bytes) (x : Bytes) → flatten (xs ++ x ∷ []) ≡ flatten xs ++ x
flatten-concat [] x = append-nil x
flatten-concat (y ∷ ys) x = ap (◌++◌ y) (flatten-concat ys x) ∙ sym (append_assoc y (flatten ys) x)

-- The body is within the limit, `on_chunk` has been given all of it, and once the head is parsed
-- the announced length is the one of its headers.
pub record IsSound (options : Options) (t : Transfer) : Type 0 where
  pub within : length t.response.body ≤ options.max_response_bytes
  pub emitted_all : flatten t.emitted ≡ t.response.body
  pub announced :
      t.got_headers ≡ true
      → read_length (find_header t.response.headers (codes "content-length")) ≡ ok t.content_length

abbrev pub Good : Options → Result Error Transfer → Type 0
Good options (ok t) = IsSound options t
Good options (err e) = Unit {0}

bind-Good {ℓ} :
    {A : Type ℓ} (options : Options) (m : Result Error A) (f : A → Result Error Transfer)
    → ((a : A) → m ≡ ok a → Good options (f a))
    → Good options (m >>= f)
bind-Good options (ok a) f h = h a refl
bind-Good options (err e) f h = tt

parse-body :
    (block : Bytes) (r : Response) {r' : Response}
    → parse_response_headers block r ≡ ok r'
    → r'.body ≡ r.body
unfolding parse_response_headers
parse-body block r e = ground arith

if-Good :
    (options : Options) (b : Bool) (e : Error) (m : Result Error Transfer)
    → Good options m
    → Good options (if b then err e else m)
if-Good options true e m v = tt
if-Good options false e m v = v

module _ (options : Options) (callbacks : Callbacks) where
  append_body-Good :
      (t : Transfer) (chunk : Bytes)
      → IsSound options t
      → Good options (append_body options callbacks t chunk)
  unfolding append_body
  append_body-Good t chunk v =
      elim (Bool-cases (ltb options.max_response_bytes (length t.response.body + length chunk))) [
        | inl over ↦ rw over tt
        | inr fits ↦ rw fits (elim (Bool-cases (is_empty chunk)) [
          | inl e ↦ rw e v
          | inr e ↦ rw e (elim (Bool-cases (callbacks.on_chunk t.emitted chunk)) [
            | inl more ↦ rw more (record {
              within = omega (arith, ltb→le _ _ fits, length-append t.response.body chunk);
              emitted_all = flatten-concat t.emitted chunk ∙ ap (λ b. b ++ chunk) v.emitted_all;
              announced = v.announced;
            })
            | inr stop ↦ rw stop tt
          ])
        ])
      ]

  append_all-Good :
      (t : Transfer) (cs : List Bytes)
      → IsSound options t
      → Good options (append_all options callbacks t cs)
  unfolding append_all
  append_all-Good t [] v = v
  append_all-Good t (c ∷ cs) v =
      go (append_body options callbacks t c) refl (append_body-Good t c v)
        (λ u w. append_all-Good u cs w)
    where
      go :
          (r : Result Error Transfer)
          → append_body options callbacks t c ≡ r
          → Good options r
          → ((u : Transfer) → IsSound options u → Good options (append_all options callbacks u cs))
          → Good options (append_all options callbacks t (c ∷ cs))
      go (ok u) q g ih = rw (q, append_all) (ih u g)
      go (err e) q g ih = rw (q, append_all) tt

  take_chunks-Good :
      (t : Transfer) (f : Fed)
      → IsSound options t
      → Good options (take_chunks options callbacks t f)
  unfolding take_chunks
  take_chunks-Good t (fed cs d) v =
      let sound : Good options (append_all options callbacks (record t { decoder = d }) cs) =
        append_all-Good (record t { decoder = d }) cs
          (record { within = v.within; emitted_all = v.emitted_all; announced = v.announced }) in
      bind-Good options (append_all options callbacks (record t { decoder = d }) cs) _ λ u e.
        let w : IsSound options u = subst (Good options) e sound in
        record { within = w.within; emitted_all = w.emitted_all; announced = w.announced }
  take_chunks-Good t (thrown e) v = tt
  take_chunks-Good t spent v = tt

  take_counted-Good :
      (t : Transfer) (incoming : Bytes) (n : Option ℕ)
      → IsSound options t
      → Good options (take_counted options callbacks t incoming n)
  unfolding take_counted
  take_counted-Good t incoming none v = append_body-Good t incoming v
  take_counted-Good t incoming (some n) v =
      let piece = take (n - length t.response.body) incoming in
      bind-Good options (append_body options callbacks t piece) _ λ u e.
        let w : IsSound options u = subst (Good options) e (append_body-Good t piece v) in
        record { within = w.within; emitted_all = w.emitted_all; announced = w.announced }

  take_body-Good :
      (t : Transfer) (incoming : Bytes)
      → IsSound options t
      → Good options (take_body options callbacks t incoming)
  unfolding take_body
  take_body-Good t incoming v = elim (Bool-cases t.finished) [
    | inl e ↦ let same : take_body options callbacks t incoming ≡ ok t = ground arith in rw same v
    | inr e ↦ elim (Bool-cases t.chunked) [
      | inl c ↦
          let f = feed t.decoder incoming in
          let same : take_body options callbacks t incoming ≡ take_chunks options callbacks t f =
            ground arith in
          rw same (take_chunks-Good t f v)
      | inr c ↦
          let n = t.content_length in
          let same : take_body options callbacks t incoming
              ≡ take_counted options callbacks t incoming n =
            ground arith in
          rw same (take_counted-Good t incoming n v)
    ]
  ]

  delimit-Good :
      (head : Bool) (t : Transfer) (r : Response)
      → length r.body ≤ options.max_response_bytes
      → flatten t.emitted ≡ r.body
      → Good options (delimit options head t r)
  unfolding delimit
  delimit-Good head t r h e =
      bind-Good options (read_length (find_header r.headers (codes "content-length"))) _ λ n q.
        bind-Good options (throw_if (exceeds n options.max_response_bytes) length_exceeds)
          (λ _. ok (delimited head t r n))
          λ _ _. record { within = h; emitted_all = e; announced = λ _. q }

  take_pending-Good :
      (head : Bool) (t : Transfer) (pending : Bytes) (found : Option (Bytes × Bytes))
      → t.got_headers ≡ false
      → IsSound options t
      → Good options (take_pending options callbacks head t pending found)
  unfolding take_pending
  take_pending-Good head t pending none g v = record {
    within = v.within;
    emitted_all = v.emitted_all;
    announced = v.announced;
  }
  take_pending-Good head t pending (some (block, rest)) g v =
      bind-Good options (as_head_error (parse_response_headers block t.response)) _ λ r q.
        let same : r.body ≡ t.response.body = parse-body block t.response {r' = r} (ground arith) in
        bind-Good options (throw_if (not (callbacks.on_headers r)) failed_by_headers) _ λ _ _.
          bind-Good options (delimit options head t r) _ λ u e. take_body-Good u rest (
            subst (Good options) e
              (delimit-Good head t r (rw same v.within) (v.emitted_all ∙ sym same)))

  pub take_bytes-Good :
      (head : Bool) (t : Transfer) (incoming : Bytes)
      → IsSound options t
      → Good options (take_bytes options callbacks head t incoming)
  unfolding take_bytes
  take_bytes-Good head t incoming v =
      let counted : IsSound options (count_bytes t incoming) = record {
        within = v.within;
        emitted_all = v.emitted_all;
        announced = v.announced;
      } in
      let all = t.pending_headers ++ incoming in
      let later =
        take_pending options callbacks head (count_bytes t incoming) all (cut blank_line all) in
      elim (Bool-cases t.got_headers) [
        | inl e ↦
            let same : take_bytes options callbacks head t incoming
                ≡ take_body options callbacks (count_bytes t incoming) incoming =
              ground arith in
            rw same (take_body-Good (count_bytes t incoming) incoming counted)
        | inr e ↦
            let same : take_bytes options callbacks head t incoming
                ≡ (if ltb (1024 * 1024) (length all) then err headers_exceeded else later) =
              ground arith in
            rw same (
              if-Good options (ltb (1024 * 1024) (length all)) headers_exceeded later (
                take_pending-Good head (count_bytes t incoming) all (cut blank_line all) e counted))
      ]
