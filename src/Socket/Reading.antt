-- ===== src/Socket/Reading.antt =====
-- What the reads of a socket return (socket/Socket.cpp, ReceiveBytes and ReceiveLine).
use lua_xenetwork.Prelude.{
  ℕ, zero, suc, ◌+◌, ◌-◌, ◌<◌, Bool, false, List, [], ◌∷◌, ◌++◌, append-nil, append_assoc, some,
  Bytes, length, contains, ◌==◌, ◌≡◌, refl, ap, ◌∙◌, arith,
}
use lua_xenetwork.Socket.{Got, got, zeros, read_rest, receive_line}

-- A line is returned with its line break, and what follows it is left, whatever was gathered before.
pub receive_line-append :
    (fails : Bool) (ret line rest : Bytes)
    → contains b'\n' line ≡ false
    → receive_line fails ret (line ++ (b'\n' ∷ rest)) ≡ (ret ++ (line ++ b'\n' ∷ []), rest)
unfolding receive_line contains
receive_line-append fails ret [] rest h = refl
receive_line-append fails ret (c ∷ line) rest h =
    let plain : (c == b'\n') ≡ false = ground arith in
    let tail : contains b'\n' line ≡ false = ground arith in
    rw plain (
      receive_line-append fails (ret ++ c ∷ []) line rest tail
      ∙ ap (λ t. (t, rest)) (append_assoc ret (c ∷ []) (line ++ b'\n' ∷ [])))

read_rest-step :
    (bytes ret : Bytes) (reads : List Got) (n : ℕ)
    → 0 < n
    → read_rest (got bytes ∷ reads) ret n
      ≡ read_rest reads (ret ++ (bytes ++ zeros (n - length bytes))) (n - length bytes)
unfolding read_rest
read_rest-step bytes ret reads zero h = absurd (omega arith)
read_rest-step bytes ret reads (suc n) h = refl

-- A read that gets all that is missing ends the loop.
read_rest-whole :
    (bytes ret : Bytes) (reads : List Got)
    → 0 < length bytes
    → read_rest (got bytes ∷ reads) ret (length bytes) ≡ some (ret ++ bytes)
unfolding read_rest
read_rest-whole bytes ret reads h =
    let none_left : length bytes - length bytes ≡ 0 = omega arith in
    read_rest-step bytes ret reads (length bytes) h
    ∙ ap (λ k. read_rest reads (ret ++ (bytes ++ zeros k)) k) none_left
    ∙ ap (λ t. some (ret ++ t)) (append-nil bytes)

-- When one read gets all the bytes that were asked for, they are the text; when it takes two, there
-- are as many zeros between the two parts as the second read got.
pub read_rest-got :
    (first second : Bytes) (reads : List Got)
    → 0 < length first
    → 0 < length second
    → (read_rest (got first ∷ reads) [] (length first) ≡ some first)
      × (read_rest (got first ∷ got second ∷ reads) [] (length first + length second)
          ≡ some (first ++ (zeros (length second) ++ second)))
read_rest-got first second reads h k =
    let left : length first + length second - length first ≡ length second = omega arith in
    (
      read_rest-whole first [] reads h,
      read_rest-step first [] (got second ∷ reads) (length first + length second) (omega arith)
          ∙ ap (λ m. read_rest (got second ∷ reads) (first ++ zeros m) m) left
          ∙ read_rest-whole second (first ++ zeros (length second)) reads k
          ∙ ap some (append_assoc first (zeros (length second)) second),
    )
