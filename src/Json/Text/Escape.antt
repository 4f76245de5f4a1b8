-- ===== src/Json/Text/Escape.antt =====
-- The escaping loop against a reference that works byte by byte, and the reader that undoes it.
use mathlib.Core.List.{append_assoc}
use rb3201_rbprotocol_librar.Prelude.{
  ℕ, zero, suc, ◌<◌, ◌≡◌, ◌≢◌, refl, sym, ap, ◌∙◌, ◌⊎◌, inl, inr, Bool, true, false, Option, none,
  some, [], ◌∷◌, ◌++◌, Bytes, length, Bool-cases, arith, ◌==◌, if◌then◌else◌, All, ltb, ◌||◌,
}
use rb3201_rbprotocol_librar.Json.Key.{strdup}
use rb3201_rbprotocol_librar.Json.Key.Order.{IsText}
use rb3201_rbprotocol_librar.Json.Text.{
  is_special, strpbrk, escape_letter, escape_loop, write_string_escaped,
}

abbrev escape_byte : ℕ → Bytes
escape_byte c = if is_special c then b'\\' ∷ escape_letter c ∷ [] else c ∷ []

-- The body of a JSON string, byte by byte.
pub escaped : Bytes → Bytes
escaped [] = []
escaped (c ∷ s) = escape_byte c ++ escaped s

-- What `strpbrk` finds, in terms of the reference.
strpbrk-escaped :
    (s : Bytes)
    → ((strpbrk s ≡ none) × (escaped s ≡ s))
      ⊎ ((a : Bytes) × (c : ℕ) × (b : Bytes) × (strpbrk s ≡ some (a, c, b))
          × (escaped s ≡ a ++ (b'\\' ∷ escape_letter c ∷ escaped b))
          × (length b < length s))
unfolding strpbrk escaped
strpbrk-escaped [] = inl (refl, refl)
strpbrk-escaped (x ∷ s) = elim (Bool-cases (is_special x)) [
  | inl e ↦ inr ([], x, s, rw e, rw e, omega arith)
  | inr e ↦ elim (strpbrk-escaped s) [
    | inl (p, q) ↦ inl (rw (e, p), rw e (ap (◌∷◌ x) q))
    | inr (a, c, b, p, q, l) ↦ inr (x ∷ a, c, b, rw (e, p), rw e (ap (◌∷◌ x) q), omega arith)
  ]
]

-- With fuel for every byte the loop writes the reference and the closing quote.
escape_loop-escaped :
    (fuel : ℕ) (s : Bytes) → length s < fuel → escape_loop fuel s ≡ escaped s ++ (b'"' ∷ [])
unfolding escape_loop
escape_loop-escaped zero s h = absurd (omega arith)
escape_loop-escaped (suc fuel) s h = elim (strpbrk-escaped s) [
  | inl (p, q) ↦ rw (p, escape_loop, q)
  | inr (a, c, b, p, q, l) ↦
      rw (p, escape_loop, q, escape_loop-escaped fuel b (omega arith)) (sym (append_assoc a _ _))
]

-- The short escapes of RFC 8259.
abbrev pub unescape : ℕ → Option ℕ
unescape c =
    if c == b'"' || c == b'\\' || c == b'/'
    then some c
    else if c == b'b'
    then some 8
    else if c == b'f'
    then some 12
    else if c == b'n'
    then some b'\n'
    else if c == b'r'
    then some b'\r'
    else if c == b't'
    then some b'\t'
    else none

cons_to : Option ℕ → Option (Bytes × Bytes) → Option (Bytes × Bytes)
cons_to none o = none
cons_to (some c) none = none
cons_to (some c) (some (s, rest)) = some (c ∷ s, rest)

-- A reader of strings of RFC 8259 without "\u", behind the opening quote; the flag is set behind a
-- backslash. The result is the text and what follows the closing quote; a control byte, an
-- unknown escape and a missing quote are errors.
unfoldable pub read_in : Bool → Bytes → Option (Bytes × Bytes)
unfolding cons_to
read_in backslash [] = none
read_in true (c ∷ s) = cons_to (unescape c) (read_in false s)
read_in false (c ∷ s) =
    let later = read_in (c == b'\\') s in
    if ltb c 32
    then none
    else if c == b'"'
    then some ([], s)
    else if c == b'\\'
    then later
    else cons_to (some c) later

-- A byte that is no control byte, or one that has a short escape.
abbrev pub IsWritable : ℕ → Type 0
IsWritable c = (ltb c 32 ≡ false) ⊎ (is_special c ≡ true)

unescape-escape_letter : (c : ℕ) → is_special c ≡ true → unescape (escape_letter c) ≡ some c
unfolding escape_letter
unescape-escape_letter c h = ground arith

read_in_special :
    (c : ℕ) (t : Bytes)
    → is_special c ≡ true
    → read_in false (b'\\' ∷ escape_letter c ∷ t) ≡ cons_to (some c) (read_in false t)
unfolding read_in
read_in_special c t h = ap (λ d. cons_to d (read_in false t)) (unescape-escape_letter c h)

read_in_plain :
    (c : ℕ) (t : Bytes)
    → is_special c ≡ false
    → ltb c 32 ≡ false
    → read_in false (c ∷ t) ≡ cons_to (some c) (read_in false t)
unfolding read_in
read_in_plain c t h visible =
    let quote : (c == b'"') ≡ false = ground arith in
    let backslash : (c == b'\\') ≡ false = ground arith in rw (visible, quote, backslash) refl

visible_plain : (c : ℕ) → IsWritable c → is_special c ≡ false → ltb c 32 ≡ false
visible_plain c w h = ground arith

read_in-escaped :
    (s rest : Bytes)
    → All IsWritable s
    → read_in false (escaped s ++ (b'"' ∷ rest)) ≡ some (s, rest)
unfolding escaped cons_to
read_in-escaped [] rest h = unfold read_in in refl
read_in-escaped (c ∷ s) rest (w, h) = elim (Bool-cases (is_special c)) [
  | inl e ↦ rw e (
      read_in_special c (escaped s ++ (b'"' ∷ rest)) e
      ∙ ap (cons_to (some c)) (read_in-escaped s rest h))
  | inr e ↦ rw e (
      read_in_plain c (escaped s ++ (b'"' ∷ rest)) e (visible_plain c w e)
      ∙ ap (cons_to (some c)) (read_in-escaped s rest h))
]

AllWritable-IsText : (s : Bytes) → All IsWritable s → IsText s
AllWritable-IsText [] h = tt
AllWritable-IsText (c ∷ s) (w, h) = (nonzero c w, AllWritable-IsText s h)
  where
    nonzero : (b : ℕ) → IsWritable b → b ≢ 0
    nonzero b v = ground arith

strdup_text : (s : Bytes) → IsText s → strdup s ≡ s
unfolding strdup
strdup_text [] h = refl
strdup_text (c ∷ s) h = ground (arith, strdup_text s h.1)

write_string_escaped-escaped :
    (s : Bytes) → IsText s → write_string_escaped s ≡ b'"' ∷ (escaped s ++ (b'"' ∷ []))
unfolding write_string_escaped
write_string_escaped-escaped s h =
    ap (λ str. b'"' ∷ escape_loop (suc (length str)) str) (strdup_text s h)
    ∙ ap (◌∷◌ b'"') (escape_loop-escaped (suc (length s)) s (omega arith))

-- Text that is written as it is: no zero byte, and no byte that is escaped.
abbrev pub IsUnescaped : Bytes → Type 0
IsUnescaped [] = Unit
IsUnescaped (c ∷ s) = ((c ≢ 0) × (is_special c ≡ false)) × IsUnescaped s

IsUnescaped-IsText : (s : Bytes) → IsUnescaped s → IsText s
IsUnescaped-IsText [] h = tt
IsUnescaped-IsText (c ∷ s) ((a, b), h) = (a, IsUnescaped-IsText s h)

escaped_same : (s : Bytes) → IsUnescaped s → escaped s ≡ s
unfolding escaped
escaped_same [] h = refl
escaped_same (c ∷ s) ((a, b), h) = rw b (ap (◌∷◌ c) (escaped_same s h))

pub write_string_escaped-IsUnescaped :
    (s : Bytes) → IsUnescaped s → write_string_escaped s ≡ b'"' ∷ (s ++ (b'"' ∷ []))
write_string_escaped-IsUnescaped s h =
    write_string_escaped-escaped s (IsUnescaped-IsText s h)
    ∙ ap (λ t. b'"' ∷ (t ++ (b'"' ∷ []))) (escaped_same s h)

-- A written text is a JSON string of RFC 8259, and its reader gets the text back and stops behind the
-- closing quote, whatever follows. The text holds no control byte but those with a short escape.
pub read-write_string_escaped :
    (s rest : Bytes)
    → All IsWritable s
    → (body : Bytes) × (write_string_escaped s ++ rest ≡ b'"' ∷ body)
      × (read_in false body ≡ some (s, rest))
read-write_string_escaped s rest h = (
  escaped s ++ (b'"' ∷ rest),
  rw (write_string_escaped-escaped s (AllWritable-IsText s h))
      (ap (◌∷◌ b'"') (append_assoc (escaped s) (b'"' ∷ []) rest)),
  read_in-escaped s rest h,
)
