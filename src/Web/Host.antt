-- ===== src/Web/Host.antt =====
-- `is_local_host`: whether a request names this device, or a foreign host that it answers for.
use rb3201_rbprotocol_librar.Prelude.{
  ℕ, ◌+◌, ◌-◌, ◌≤◌, ◌≡◌, refl, true, false, Bool, ◌&&◌, ◌||◌, Option, none, some, [], ◌∷◌, ◌++◌,
  Bytes, All, length, take, ltb, leb, ◌==◌, if◌then◌else◌, if_same, ==_refl, arith, length-append,
  take-length,
}
use rb3201_rbprotocol_librar.Json.Key.Order.{equal_bytes, equal_bytes_refl}

-- The loop over the characters: the dots, or `none` with a character of no address.
unfoldable pub count_dots : ℕ → Bytes → Option ℕ
count_dots dots [] = some dots
count_dots dots (c ∷ s) =
    let dotted = count_dots (dots + 1) s in
    let digit = count_dots dots s in
    if c == b'.' then dotted else if ltb c b'0' || ltb b'9' c then none else digit

-- `is_ip && dots == 3`
unfoldable pub is_quad : Option ℕ → Bool
is_quad none = false
is_quad (some dots) = dots == 3

-- The header's value with its line end, and `rb_dn_get_local_hostname()`.
unfoldable pub is_local_host : Bytes → Bytes → Bool
unfolding count_dots is_quad
is_local_host host_header local_hostname =
    let len = length host_header - 2 in
    let host = take len host_header in
    let named = (length local_hostname == len) && equal_bytes local_hostname host in
    if ltb (length host_header) 2
    then true
    else if leb 7 len && leb len 15
    then (if is_quad (count_dots 0 host) then true else named)
    else named

abbrev pub line_end : Bytes
line_end = 13 ∷ 10 ∷ []

-- A part of an address: one to three digits.
pub record IsPart (a : Bytes) : Type 0 where
  pub digits : All (λ (c : ℕ). (b'0' ≤ c) × (c ≤ b'9')) a
  pub some_digit : 1 ≤ length a
  pub few : length a ≤ 3

abbrev pub address : Bytes → Bytes → Bytes → Bytes → Bytes
address a b c d = a ++ (b'.' ∷ (b ++ (b'.' ∷ (c ++ (b'.' ∷ d)))))

count_dots-append :
    (dots : ℕ) (a s : Bytes)
    → All (λ (c : ℕ). (b'0' ≤ c) × (c ≤ b'9')) a
    → count_dots dots (a ++ s) ≡ count_dots dots s
unfolding count_dots
count_dots-append dots [] s h = refl
count_dots-append dots (c ∷ a) s ((low, high), h) =
    let dot : (c == b'.') ≡ false = ground arith in
    let digit : (ltb c b'0' || ltb b'9' c) ≡ false = ground arith in
    rw (dot, digit) (count_dots-append dots a s h)

count_dots-part :
    (dots : ℕ) (a s : Bytes)
    → All (λ (c : ℕ). (b'0' ≤ c) × (c ≤ b'9')) a
    → count_dots dots (a ++ (b'.' ∷ s)) ≡ count_dots (dots + 1) s
unfolding count_dots
count_dots-part dots a s h = count_dots-append dots a (b'.' ∷ s) h

count_dots-digits :
    (dots : ℕ) (a : Bytes)
    → All (λ (c : ℕ). (b'0' ≤ c) × (c ≤ b'9')) a
    → count_dots dots a ≡ some dots
unfolding count_dots
count_dots-digits dots [] h = refl
count_dots-digits dots (c ∷ a) ((low, high), h) =
    let dot : (c == b'.') ≡ false = ground arith in
    let digit : (ltb c b'0' || ltb b'9' c) ≡ false = ground arith in
    rw (dot, digit) (count_dots-digits dots a h)

length-address :
    (a b c d : Bytes) → length (address a b c d) ≡ length a + length b + length c + length d + 3
length-address a b c d = omega (
  arith,
  length-append a (b'.' ∷ (b ++ (b'.' ∷ (c ++ (b'.' ∷ d))))),
  length-append b (b'.' ∷ (c ++ (b'.' ∷ d))),
  length-append c (b'.' ∷ d),
)

count_dots-address :
    (a b c d : Bytes)
    → IsPart a
    → IsPart b
    → IsPart c
    → IsPart d
    → count_dots 0 (address a b c d) ≡ some 3
count_dots-address a b c d ha hb hc hd =
    rw
      (
        count_dots-part 0 a (b ++ (b'.' ∷ (c ++ (b'.' ∷ d)))) ha.digits,
        count_dots-part 1 b (c ++ (b'.' ∷ d)) hb.digits,
        count_dots-part 2 c d hc.digits,
      )
      (count_dots-digits 3 d hd.digits)

behind_line_end :
    (h : Bytes) → (length (h ++ line_end) - 2 ≡ length h) × (ltb (length (h ++ line_end)) 2 ≡ false)
behind_line_end h =
    let total : length (h ++ line_end) ≡ length h + 2 = length-append h line_end in
    (omega (arith, total), ground (arith, total))

-- A request is for this device if its host is any address of four parts with one to three digits,
-- or the device's own name.
is_local_host-address :
    (a b c d local_hostname : Bytes)
    → IsPart a
    → IsPart b
    → IsPart c
    → IsPart d
    → (is_local_host (address a b c d ++ line_end) local_hostname ≡ true)
      × (is_local_host (local_hostname ++ line_end) local_hostname ≡ true)
unfolding is_local_host is_quad
is_local_host-address a b c d own ha hb hc hd =
    let host = address a b c d in
    let n = length-address a b c d in
    let enough : leb 7 (length host) ≡ true =
      ground (arith, n, ha.some_digit, hb.some_digit, hc.some_digit, hd.some_digit) in
    let few : leb (length host) 15 ≡ true = ground (arith, n, ha.few, hb.few, hc.few, hd.few) in
    let (size, long) = behind_line_end host in
    let (size', long') = behind_line_end own in
    (
      rw
          (
            is_local_host,
            size,
            long,
            enough,
            few,
            take-length host line_end,
            count_dots-address a b c d ha hb hc hd,
          )
          refl,
      rw
          (
            is_local_host,
            size',
            long',
            take-length own line_end,
            ==_refl (length own),
            equal_bytes_refl own,
          )
          (rw (if_same (is_quad (count_dots 0 own)) true)
            (if_same (leb 7 (length own) && leb (length own) 15) true)),
    )
