-- ===== src/Web/UrlDecode/Bounds.antt =====
-- `url_decode` stays inside its buffer.
use rb3201_rbprotocol_librar.Prelude.{
  ℕ, zero, suc, ◌+◌, ◌-◌, ◌%◌, ◌≤◌, ◌<◌, ◌≡◌, refl, false, ◌⊎◌, inl, inr, some, [], ◌∷◌, ◌++◌, sym,
  ◌∙◌, Bytes, length, take, drop, leb, ltb, ◌==◌, arith, length-append, Bool-cases, true_ne_false,
}
use rb3201_rbprotocol_librar.Json.Key.{strdup}
use rb3201_rbprotocol_librar.Web.UrlDecode.{
  filename_size, strtoul, prepend, decode_loop, url_decode,
}

-- Every `%` has at least two characters behind it.
abbrev pub AreEscaped : Bytes → Type 0
AreEscaped [] = Unit
AreEscaped (c ∷ p) = (((c == b'%') ≡ false) ⊎ (2 ≤ length p)) × AreEscaped p

AreEscaped-drop : (n : ℕ) (p : Bytes) → AreEscaped p → AreEscaped (drop n p)
AreEscaped-drop zero p h = h
AreEscaped-drop (suc n) [] h = tt
AreEscaped-drop (suc n) (c ∷ p) h = AreEscaped-drop n p h.1

decode_loop-fits :
    (room : ℕ) (p : Bytes)
    → AreEscaped p
    → (s : Bytes) × (decode_loop room p ≡ some s) × (length s ≤ room)
unfolding decode_loop prepend
decode_loop-fits zero p h = ([], refl, omega arith)
decode_loop-fits (suc room) [] h = ([], refl, omega arith)
decode_loop-fits (suc room) (c ∷ p) (two, h) =
    let (plain, e, b) = decode_loop-fits room p h in
    let (coded, e', b') = decode_loop-fits room (drop 2 p) (AreEscaped-drop 2 p h) in
    elim (Bool-cases (c == b'%')) [
      | inl percent ↦
          let enough : ltb (length p) 2 ≡ false = elim two [
            | inl plain_byte ↦ absurd (true_ne_false (sym percent ∙ plain_byte))
            | inr k ↦ ground arith
          ] in
          (strtoul (take 2 p) % 256 ∷ coded, rw (percent, enough, e') refl, omega arith)
      | inr other ↦ (c ∷ plain, rw (other, e) refl, omega arith)
    ]

strdup-le : (s : Bytes) → length (strdup s) ≤ length s
unfolding strdup
strdup-le [] = omega arith
strdup-le (c ∷ s) = ground (arith, strdup-le s)

-- A request in which every `%` has at least two characters behind it gets a name, which with its
-- terminator fits in the buffer and starts with the working directory. The directory fits.
pub url_decode_fits :
    (working_directory src : Bytes) (max : ℕ)
    → AreEscaped src
    → length working_directory + 1 < filename_size
    → length working_directory + 1 < max
    → (name : Bytes) × (url_decode working_directory src max
        ≡ some ((working_directory ++ (b'/' ∷ [])) ++ name))
      × (length ((working_directory ++ (b'/' ∷ [])) ++ name) < max)
unfolding url_decode
url_decode_fits wd src max h dir fits =
    let prefix = wd ++ (b'/' ∷ []) in
    let size : length prefix ≡ length wd + 1 = length-append wd (b'/' ∷ []) in
    let short : leb filename_size (length prefix) ≡ false = ground (arith, size) in
    let (name, e, b) = decode_loop-fits (max - length prefix - 1) src h in
    (
      strdup name,
      rw (url_decode, short, e) refl,
      omega (arith, length-append prefix (strdup name), size, strdup-le name),
    )
