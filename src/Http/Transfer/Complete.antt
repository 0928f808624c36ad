-- ===== src/Http/Transfer/Complete.antt =====
-- What holds of the response that the receive loop returns (main.cpp, ResolveHttpRequest).
use lua_xenetwork.Prelude.{
  ℕ, ◌≤◌, Bool, true, false, not, ◌&&◌, List, [], ◌∷◌, Option, none, some, Bytes, codes, length,
  Result, ok, err, throw_if, ◌>>=◌, ◌≡◌, refl, arith, inl, inr, subst, Bool-cases,
}
use lua_xenetwork.Timeouts.{remaining}
use lua_xenetwork.Http.Headers.{Response, find_header}
use lua_xenetwork.Http.Transfer.{
  Options, Error, Transfer, Turn, Callbacks, returned, outcome, bytes, closed, failed, initial,
  take_bytes, take_received, take_turn, finish, run, cancelled, misses, as_error, Received,
  receive_response, read_length, no_body, is_head,
}
use lua_xenetwork.Http.Transfer.Body.{IsSound, Good, take_bytes-Good}

abbrev GoodStep : Options → Result Error (Option Transfer) → Type 0
GoodStep options (ok none) = Unit {0}
GoodStep options (ok (some t)) = IsSound options t
GoodStep options (err e) = Unit {0}

some-GoodStep :
    (options : Options) (m : Result Error Transfer)
    → Good options m
    → GoodStep options (m >>= λ t. ok (some t))
some-GoodStep options (ok t) v = v
some-GoodStep options (err e) v = tt

bind-GoodStep {ℓ} :
    {A : Type ℓ} (options : Options) (m : Result Error A) (k : Result Error (Option Transfer))
    → GoodStep options k
    → GoodStep options (m >>= λ _. k)
bind-GoodStep options (ok a) k h = h
bind-GoodStep options (err e) k h = tt

take_received-Good :
    (options : Options) (callbacks : Callbacks) (head : Bool) (t : Transfer) (x : Received)
    → IsSound options t
    → GoodStep options (take_received options callbacks head t x)
unfolding take_received
take_received-Good options callbacks head t failed v = tt
take_received-Good options callbacks head t closed v = tt
take_received-Good options callbacks head t (bytes x) v =
    some-GoodStep options (take_bytes options callbacks head t x)
      (take_bytes-Good options callbacks head t x v)

-- A turn keeps the state sound, whatever is received and whatever `on_chunk` answers.
pub take_turn-Good :
    (options : Options) (callbacks : Callbacks) (head : Bool) (t : Transfer) (turn : Turn)
    → IsSound options t
    → GoodStep options (take_turn options callbacks head t turn)
unfolding take_turn
take_turn-Good options callbacks head t turn v =
    let last = take_received-Good options callbacks head t turn.received v in
    bind-GoodStep options (throw_if turn.cancel cancelled) _ (
      bind-GoodStep options
        (as_error (remaining options.receive_timeout_ms options.total_timeout_ms turn.elapsed)) _
        last)

initial-IsSound : (options : Options) → IsSound options (initial options)
initial-IsSound options = record {
  within = omega arith;
  emitted_all = refl;
  announced = λ e. absurd (cc);
}

-- What a response that was returned satisfies.
pub record IsComplete (options : Options) (head_request : Bool) (r : Response) : Type 0 where
  pub within : length r.body ≤ options.max_response_bytes
  pub exact :
      no_body head_request r.status ≡ false
      → (n : ℕ) → read_length (find_header r.headers (codes "content-length")) ≡ ok (some n)
      → length r.body ≡ n

finish_facts :
    (head : Bool) (t : Transfer) (r : Response)
    → outcome (finish head t) ≡ returned r
    → (t.response ≡ r)
      × (t.got_headers ≡ true)
      × ((not (no_body head t.response.status) && misses t.content_length (length t.response.body))
          ≡ false)
unfolding finish
finish_facts head t r e = (ground arith, ground arith, ground arith)

misses_none : (n : Option ℕ) (size m : ℕ) → misses n size ≡ false → n ≡ some m → size ≡ m
misses_none none size m h e = absurd (cc)
misses_none (some k) size m h e = ground arith

finish-IsComplete :
    (options : Options) (head : Bool) (t : Transfer) (r : Response)
    → IsSound options t
    → outcome (finish head t) ≡ returned r
    → IsComplete options head r
finish-IsComplete options head t r v e =
    let (same, got, fits) = finish_facts head t r e in
    subst (IsComplete options head) same (record {
      within = v.within;
      exact = λ nb n q.
          misses_none t.content_length (length t.response.body) n (rw nb at fits)
            (ground (arith, v.announced got));
    })

run-IsComplete :
    (options : Options) (callbacks : Callbacks) (head : Bool) (t : Transfer) (turns : List Turn)
    (r : Response)
    → IsSound options t
    → run options callbacks head t turns ≡ returned r
    → IsComplete options head r
unfolding run
run-IsComplete options callbacks head t [] r v e = elim (Bool-cases t.finished) [
  | inl f ↦ finish-IsComplete options head t r v (ground arith)
  | inr f ↦ absurd (ground arith)
]
run-IsComplete options callbacks head t (turn ∷ turns) r v e = elim (Bool-cases t.finished) [
  | inl f ↦ finish-IsComplete options head t r v (ground arith)
  | inr f ↦
      go f (take_turn options callbacks head t turn) refl
        (take_turn-Good options callbacks head t turn v)
        (λ u w q. run-IsComplete options callbacks head u turns r w q)
]
  where
    go :
        t.finished ≡ false
        → (step : Result Error (Option Transfer)) → take_turn options callbacks head t turn ≡ step
        → GoodStep options step
        → ((u : Transfer)
            → IsSound options u
            → run options callbacks head u turns ≡ returned r
            → IsComplete options head r)
        → IsComplete options head r
    go f (err x) q g ih = absurd (ground arith)
    go f (ok none) q g ih = finish-IsComplete options head t r v (ground arith)
    go f (ok (some u)) q g ih = ih u g (ground arith)

-- Whatever the peer sends, whatever the callbacks answer and however the bytes are cut, a
-- response that is returned has a body within `max_response_bytes`; and unless the request is a
-- HEAD or the status is 204 or 304, a `Content-Length` header is the body's exact length.
pub receive_response-IsComplete :
    (options : Options) (callbacks : Callbacks) (request : Bytes) (turns : List Turn) {r : Response}
    → receive_response options callbacks request turns ≡ returned r
    → IsComplete options (is_head request) r
unfolding receive_response
receive_response-IsComplete options callbacks request turns {r} e =
    run-IsComplete options callbacks (is_head request) (initial options) turns r
      (initial-IsSound options) e
