-- ===== src/Web/UrlDecode/RoundTrip.antt =====
-- `url_decode` against the percent-encoding of RFC 3986.
use rb3201_rbprotocol_librar.Prelude.{
  ℕ, zero, suc, ◌+◌, ◌-◌, ◌*◌, ◌/◌, ◌%◌, ◌≤◌, ◌<◌, ◌≡◌, refl, ap, sym, ◌∙◌, Bool, false, some, [],
  ◌∷◌, ◌++◌, Bytes, length, ltb, leb, ◌==◌, if◌then◌else◌, All, arith, length-append, inl, inr,
  Bool-cases, ==_ne, true_ne_false,
}
use rb3201_rbprotocol_librar.Json.Key.{strdup}
use rb3201_rbprotocol_librar.Web.UrlDecode.{
  is_space, filename_size, hex_value, hex_digits, strtoul, skip_space, signed_digits, prepend,
  decode_loop, url_decode,
}

abbrev pub hex_digit : ℕ → ℕ
hex_digit d = if ltb d 10 then 48 + d else 87 + d

-- Percent-encoding, where `keep` says which bytes stand for themselves.
unfoldable pub encode : (ℕ → Bool) → Bytes → Bytes
encode keep [] = []
encode keep (b ∷ s) =
    if keep b
    then b ∷ encode keep s
    else b'%' ∷ hex_digit (b / 16) ∷ hex_digit (b % 16) ∷ encode keep s

hex_value-hex_digit : (d : ℕ) → d < 16 → hex_value (hex_digit d) ≡ some d
unfolding hex_value
hex_value-hex_digit d h = ground arith

hex_digit-plain :
    (d : ℕ)
    → d < 16
    → (is_space (hex_digit d) ≡ false)
      × ((hex_digit d == b'-') ≡ false)
      × ((hex_digit d == b'+') ≡ false)
hex_digit-plain d h = (ground arith, ground arith, ground arith)

strtoul-hex_digit :
    (h l : ℕ) → h < 16 → l < 16 → strtoul (hex_digit h ∷ hex_digit l ∷ []) ≡ h * 16 + l
unfolding strtoul skip_space signed_digits hex_digits
strtoul-hex_digit h l hh hl =
    let (space, minus, plus) = hex_digit-plain h hh in
    rw
      (
        space,
        minus,
        plus,
        hex_digits,
        hex_value-hex_digit h hh,
        hex_digits,
        hex_value-hex_digit l hl,
      )
      (omega arith)

-- The bytes of a C string: none is the terminator.
abbrev pub AreTextBytes : Bytes → Type 0
AreTextBytes s = All (λ (b : ℕ). (0 < b) × (b < 256)) s

strdup-AreTextBytes : (s : Bytes) → AreTextBytes s → strdup s ≡ s
unfolding strdup
strdup-AreTextBytes [] h = refl
strdup-AreTextBytes (c ∷ s) (t, h) = ground (arith, strdup-AreTextBytes s h)

decode_loop-encode :
    (keep : ℕ → Bool) (room : ℕ) (s : Bytes)
    → keep b'%' ≡ false
    → AreTextBytes s
    → length s ≤ room
    → decode_loop room (encode keep s) ≡ some s
unfolding encode decode_loop prepend
decode_loop-encode keep zero [] k h fits = refl
decode_loop-encode keep zero (b ∷ s) k h fits = absurd (omega arith)
decode_loop-encode keep (suc room) [] k h fits = refl
decode_loop-encode keep (suc room) (b ∷ s) k ((some_, small), h) fits =
    let rest = decode_loop-encode keep room s k h (omega arith) in
    elim (Bool-cases (keep b)) [
      | inl e ↦
          let plain : (b == b'%') ≡ false =
            ==_ne b'%' b (λ z. true_ne_false (sym e ∙ (sym (ap keep z) ∙ k))) in
          rw (e, plain, rest) refl
      | inr e ↦
          let value : (b / 16) * 16 + b % 16 ≡ b = omega arith in
          let byte : b % 256 ≡ b = omega arith in
          let two : ltb (suc (suc (length (encode keep s)))) 2 ≡ false = ground arith in
          rw
            (
              e,
              rest,
              two,
              strtoul-hex_digit (b / 16) (b % 16) (omega arith) (omega arith),
              value,
              byte,
            )
            refl
    ]

-- A name that was percent-encoded comes out as it was, behind the working directory, whichever bytes
-- the encoder left as they are. The name has no zero byte, and has to fit in the buffer with its
-- terminator.
pub url_decode-encode :
    (keep : ℕ → Bool) (working_directory s : Bytes) (max : ℕ)
    → keep b'%' ≡ false
    → AreTextBytes s
    → length working_directory + 1 < filename_size
    → length working_directory + 1 + length s < max
    → url_decode working_directory (encode keep s) max
      ≡ some ((working_directory ++ (b'/' ∷ [])) ++ s)
unfolding url_decode
url_decode-encode keep wd s max k h dir fits =
    let size : length (wd ++ (b'/' ∷ [])) ≡ length wd + 1 = length-append wd (b'/' ∷ []) in
    let short : leb filename_size (length wd + 1) ≡ false = ground arith in
    rw
      (
        url_decode,
        size,
        short,
        decode_loop-encode keep (max - (length wd + 1) - 1) s k h (omega arith),
        strdup-AreTextBytes s h,
      )
      refl
