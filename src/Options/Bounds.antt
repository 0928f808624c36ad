-- ===== src/Options/Bounds.antt =====
-- The ranges of the options that are read (main.cpp, ReadRequestOptions).
use lua_xenetwork.Prelude.{
  ℕ, ◌+◌, ◌*◌, ◌%◌, ◌≤◌, ◌<◌, Option, none, some, Bytes, codes, is_empty, ltb, ltb→lt, ltb→le, ok,
  ◌>>=◌, >>=-eq-ok, ok-inj, inl, inr, ◌≡◌, refl, sym, ◌∙◌, subst, Bool-cases, arith,
}
use lua_xenetwork.Proxy.Target.{ProxyTarget, parse_proxy_url}
use lua_xenetwork.Proxy.Validity.{IsUsable, parse_proxy_url-IsUsable}
use lua_xenetwork.Options.{
  Field, Table, HttpRequestOptions, default_options, to_int, signed_less, signed_max, clamp,
  request_integer, request_string, read_int, read_receive_timeout, read_proxy, options_of,
  read_request_options,
}

-- A proxy that is used has a port and lengths that SOCKS5 can state.
abbrev pub MayBeUsable : Option ProxyTarget → Type 0
MayBeUsable none = Unit
MayBeUsable (some target) = IsUsable target

-- The ranges of the options, in `int`, `long long` and the lengths of SOCKS5.
pub record IsReadable (o : HttpRequestOptions) : Type 0 where
  pub connect_bounds : (1000 ≤ o.connect_timeout_ms) × (o.connect_timeout_ms < 2147483648)
  pub send_bounds : (1000 ≤ o.send_timeout_ms) × (o.send_timeout_ms < 2147483648)
  pub receive_bounds : (1000 ≤ o.receive_timeout_ms) × (o.receive_timeout_ms < 2147483648)
  pub total_bounds : o.total_timeout_ms < 2147483648
  pub response_bounds : (1 ≤ o.max_response_bytes) × (o.max_response_bytes < 9223372036854775808)
  pub buffer_bounds : (1024 ≤ o.buffer_size) × (o.buffer_size ≤ 1048576)
  pub usable : MayBeUsable o.proxy

signed_max-int_bounds :
    (low n : ℕ)
    → low < 2147483648
    → n < 4294967296
    → (low ≤ signed_max 2147483648 low n) × (signed_max 2147483648 low n < 2147483648)
unfolding signed_max signed_less
signed_max-int_bounds low n h k =
    elim (Bool-cases (ltb ((low + 2147483648) % 4294967296) ((n + 2147483648) % 4294967296))) [
      | inl q ↦
          let less = ltb→lt ((low + 2147483648) % 4294967296) ((n + 2147483648) % 4294967296) q in
          rw q (omega arith, omega arith)
      | inr q ↦ rw q (omega arith, omega arith)
    ]

signed_max-long_bounds :
    (low n : ℕ)
    → low < 9223372036854775808
    → n < 18446744073709551616
    → (low ≤ signed_max 9223372036854775808 low n)
      × (signed_max 9223372036854775808 low n < 9223372036854775808)
unfolding signed_max signed_less
signed_max-long_bounds low n h k =
    elim (Bool-cases (
      ltb ((low + 9223372036854775808) % 18446744073709551616)
        ((n + 9223372036854775808) % 18446744073709551616))) [
          | inl q ↦
              let less =
                ltb→lt ((low + 9223372036854775808) % 18446744073709551616)
                  ((n + 9223372036854775808) % 18446744073709551616) q in
              rw q (omega arith, omega arith)
          | inr q ↦ rw q (omega arith, omega arith)
        ]

clamp_bounds :
    (n : ℕ)
    → n < 18446744073709551616
    → (1024 ≤ clamp n 1024 1048576) × (clamp n 1024 1048576 ≤ 1048576)
unfolding clamp signed_less
clamp_bounds n h =
    elim (Bool-cases (ltb ((n + 9223372036854775808) % 18446744073709551616) 9223372036854776832)) [
      | inl q ↦ rw q (omega arith, omega arith)
      | inr q ↦
          elim (Bool-cases
            (ltb 9223372036855824384 ((n + 9223372036854775808) % 18446744073709551616))) [
              | inl r ↦ rw q (rw r (omega arith, omega arith))
              | inr r ↦
                  let above =
                    ltb→le ((n + 9223372036854775808) % 18446744073709551616) 9223372036854776832
                      q in
                  let below =
                    ltb→le 9223372036855824384 ((n + 9223372036854775808) % 18446744073709551616)
                      r in
                  rw q (rw r (omega arith, omega arith))
            ]
    ]

read_int_lt :
    (fields : Bytes → Field) (name : Bytes) (fallback : ℕ)
    → read_int fields name fallback < 4294967296
unfolding read_int to_int
read_int_lt fields name fallback = omega arith

request_integer_lt :
    (fields : Bytes → Field) (name : Bytes) (fallback : ℕ)
    → fallback < 18446744073709551616
    → request_integer fields name fallback < 18446744073709551616
unfolding request_integer
request_integer_lt fields name fallback h = by_answer (fields name).number
  where
    by_answer :
        (answer : Option ℕ)
        → (elim answer [ none ↦ fallback | some n ↦ n % 18446744073709551616 ])
          < 18446744073709551616
    by_answer none = h
    by_answer (some n) = omega arith

read_receive_timeout_lt : (fields : Bytes → Field) → read_receive_timeout fields < 4294967296
unfolding read_receive_timeout read_int to_int
read_receive_timeout_lt fields = omega arith

read_proxy-MayBeUsable :
    (widen : Bytes → Bytes) (url : Bytes) {proxy : Option ProxyTarget}
    → read_proxy widen url ≡ ok proxy
    → MayBeUsable proxy
unfolding read_proxy
read_proxy-MayBeUsable widen url {proxy} e = elim (Bool-cases (is_empty url)) [
  | inl q ↦
      let unset : read_proxy widen url ≡ ok none = rw q refl in
      subst MayBeUsable (ok-inj (sym unset ∙ e)) tt
  | inr q ↦
      let given : read_proxy widen url
          ≡ (parse_proxy_url widen url >>= λ target. ok (some target)) =
        rw q refl in
      let (target, parsed, same) = >>=-eq-ok (parse_proxy_url widen url) _ (sym given ∙ e) in
      subst MayBeUsable (ok-inj same) (parse_proxy_url-IsUsable widen url parsed)
]

default_options-IsReadable : IsReadable default_options
default_options-IsReadable = record {
  connect_bounds = (omega arith, omega arith);
  send_bounds = (omega arith, omega arith);
  receive_bounds = (omega arith, omega arith);
  total_bounds = omega arith;
  response_bounds = (omega arith, omega arith);
  buffer_bounds = (omega arith, omega arith);
  usable = tt;
}

options_of-IsReadable :
    (widen : Bytes → Bytes) (fields : Bytes → Field) (proxy : Option ProxyTarget)
    → MayBeUsable proxy
    → IsReadable (options_of widen fields proxy)
unfolding options_of
options_of-IsReadable widen fields proxy h = record {
  connect_bounds =
      signed_max-int_bounds 1000 _ (omega arith)
        (read_int_lt fields (codes "connect_timeout_ms") 30000);
  send_bounds =
      signed_max-int_bounds 1000 _ (omega arith)
        (read_int_lt fields (codes "send_timeout_ms") 60000);
  receive_bounds = signed_max-int_bounds 1000 _ (omega arith) (read_receive_timeout_lt fields);
  total_bounds =
      (signed_max-int_bounds 0 _ (omega arith) (read_int_lt fields (codes "total_timeout_ms") 0)).1;
  response_bounds =
      signed_max-long_bounds 1 _ (omega arith)
        (request_integer_lt fields (codes "max_response_bytes") (64 * 1024 * 1024) (omega arith));
  buffer_bounds =
      clamp_bounds _ (request_integer_lt fields (codes "buffer_size") 16384 (omega arith));
  usable = h;
}

-- Options that are read are within bounds, whatever the fields hold: the
-- timeouts of the steps are at least a second and, as the total, no negative `int`; the limit of a
-- response is at least a byte and no negative `long long`; the buffer has 1 KiB to 1 MiB; and a
-- proxy has a port and lengths that SOCKS5 can state.
pub read_request_options-IsReadable :
    (widen : Bytes → Bytes) (table : Table) {o : HttpRequestOptions}
    → read_request_options widen table ≡ ok o
    → IsReadable o
unfolding read_request_options
read_request_options-IsReadable widen none e =
    subst IsReadable (ok-inj e) default_options-IsReadable
read_request_options-IsReadable widen (some fields) e =
    let (proxy, read, same) =
      >>=-eq-ok (read_proxy widen (request_string fields (codes "proxy"))) _ e in
    subst IsReadable (ok-inj same) (
      options_of-IsReadable widen fields proxy
        (read_proxy-MayBeUsable widen (request_string fields (codes "proxy")) read))
