-- ===== src/Web/Scan/Range.antt =====
-- The range that a header asks for, read from its decimal digits.
use rb3201_rbprotocol_librar.Prelude.{
  ℕ, ◌+◌, ◌-◌, ◌*◌, ◌^◌, ◌<◌, ◌≡◌, refl, ap, ◌∙◌, min, true, false, ◌&&◌, some, List, [], ◌∷◌, ◌++◌,
  Bytes, codes, All, leb, ◌==◌, append_assoc, arith,
}
use rb3201_rbprotocol_librar.Prelude.Int.{pos}
use rb3201_rbprotocol_librar.Web.UrlDecode.{is_space, skip_space}
use rb3201_rbprotocol_librar.Web.Scan.{
  digits, scan_digits, scan_signed, scan_integer, to_long, to_unsigned, strip, scan_start, scan_end,
  scan_range,
}

abbrev pub AreDigits : List ℕ → Type 0
AreDigits ds = All (λ (d : ℕ). d < 10) ds

-- The number that decimal digits stand for, behind others.
abbrev pub number_from : ℕ → List ℕ → ℕ
number_from n [] = n
number_from n (d ∷ ds) = number_from (n * 10 + d) ds

abbrev pub number : List ℕ → ℕ
number ds = number_from 0 ds

-- Digits as text.
abbrev pub decimal : List ℕ → Bytes
decimal [] = []
decimal (d ∷ ds) = (48 + d) ∷ decimal ds

digits-decimal :
    (n c : ℕ) (ds : List ℕ) (s : Bytes)
    → AreDigits ds
    → (leb 48 c && leb c 57) ≡ false
    → digits n (decimal ds ++ (c ∷ s)) ≡ (number_from n ds, c ∷ s)
unfolding digits
digits-decimal n c [] s h other = rw other refl
digits-decimal n c (d ∷ ds) s (small, h) other =
    let digit : (leb 48 (48 + d) && leb (48 + d) 57) ≡ true = ground arith in
    let value : (48 + d) - 48 ≡ d = omega arith in
    rw (digit, value, digits-decimal (n * 10 + d) c ds s h other) refl

scan_integer-decimal :
    (c d : ℕ) (ds : List ℕ) (s : Bytes)
    → AreDigits (d ∷ ds)
    → (leb 48 c && leb c 57) ≡ false
    → scan_integer (decimal (d ∷ ds) ++ (c ∷ s)) ≡ some (pos (number (d ∷ ds)), c ∷ s)
unfolding scan_integer scan_signed scan_digits skip_space
scan_integer-decimal c d ds s h other =
    let digit : (leb 48 (48 + d) && leb (48 + d) 57) ≡ true = ground (arith, h.0) in
    let solid : is_space (48 + d) ≡ false = ground (arith, h.0) in
    let value : (48 + d) - 48 ≡ d = omega arith in
    let minus : ((48 + d) == 45) ≡ false = ground arith in
    let plus : ((48 + d) == 43) ≡ false = ground arith in
    rw (solid, minus, plus, digit, value, digits-decimal (0 + d) c ds s h.1 other) refl

abbrev pub range_text : List ℕ → List ℕ → Bytes
range_text ds es = codes "Range: bytes=" ++ (decimal ds ++ (b'-' ∷ (decimal es ++ (13 ∷ []))))

scan_end-decimal :
    (offset end c e : ℕ) (es s : Bytes)
    → AreDigits (e ∷ es)
    → (leb 48 c && leb c 57) ≡ false
    → number (e ∷ es) < 2 ^ 32
    → scan_end offset end (some (decimal (e ∷ es) ++ (c ∷ s))) ≡ (offset, number (e ∷ es))
unfolding scan_end to_unsigned
scan_end-decimal offset end c e es s h other fits =
    let high : min (number (e ∷ es)) (2 ^ 32 - 1) ≡ number (e ∷ es) = omega (arith, fits) in
    rw (scan_end, scan_integer-decimal c e es s h other) (ap (λ n. (offset, n)) high)

scan_start-decimal :
    (offset end d : ℕ) (ds s : Bytes)
    → AreDigits (d ∷ ds)
    → number (d ∷ ds) < 2 ^ 31
    → scan_start offset end (some (decimal (d ∷ ds) ++ (b'-' ∷ s)))
      ≡ scan_end (number (d ∷ ds)) end (some s)
unfolding scan_start to_long strip
scan_start-decimal offset end d ds s h small =
    let low : min (number (d ∷ ds)) (2 ^ 31 - 1) ≡ number (d ∷ ds) = omega (arith, small) in
    rw (scan_start, scan_integer-decimal b'-' d ds s h refl) (ap (λ n. scan_end n end (some s)) low)

pub scan_range-range_text :
    (d e : ℕ) (ds es : List ℕ) (offset end : ℕ)
    → AreDigits (d ∷ ds)
    → AreDigits (e ∷ es)
    → number (d ∷ ds) < 2 ^ 31
    → number (e ∷ es) < 2 ^ 32
    → scan_range (range_text (d ∷ ds) (e ∷ es) ++ (10 ∷ [])) offset end
      ≡ (number (d ∷ ds), number (e ∷ es))
unfolding scan_range strip skip_space
scan_range-range_text d e ds es offset end first second small fits =
    let joined : (decimal (d ∷ ds) ++ (b'-' ∷ (decimal (e ∷ es) ++ (13 ∷ [])))) ++ (10 ∷ [])
        ≡ decimal (d ∷ ds) ++ (b'-' ∷ (decimal (e ∷ es) ++ (13 ∷ 10 ∷ []))) =
      append_assoc (decimal (d ∷ ds)) (b'-' ∷ (decimal (e ∷ es) ++ (13 ∷ []))) (10 ∷ [])
      ∙ ap (λ x. decimal (d ∷ ds) ++ (b'-' ∷ x))
          (append_assoc (decimal (e ∷ es)) (13 ∷ []) (10 ∷ [])) in
    ap (λ x. scan_start offset end (some x)) joined
    ∙ (scan_start-decimal offset end d ds (decimal (e ∷ es) ++ (13 ∷ 10 ∷ [])) first small
        ∙ scan_end-decimal (number (d ∷ ds)) end 13 e es (10 ∷ []) second refl fits)
