-- ===== src/Web/Request/Ranges.antt =====
-- A header that asks for a part of a file.
use rb3201_rbprotocol_librar.Prelude.{
  ℕ, ◌+◌, ◌%◌, ◌^◌, ◌≤◌, ◌<◌, ◌≡◌, refl, ap, ◌∙◌, false, List, [], ◌∷◌, ◌++◌, Bytes, All,
  All-append, ◌==◌, arith, if◌then◌else◌,
}
use rb3201_rbprotocol_librar.Web.Scan.{scan_range}
use rb3201_rbprotocol_librar.Web.Scan.Range.{
  AreDigits, number, decimal, range_text, scan_range-range_text,
}
use rb3201_rbprotocol_librar.Web.Request.{Headers, with_scanned, header_line}
use rb3201_rbprotocol_librar.Web.Request.Lines.{newline, strdup-nonzero}

abbrev NonZero : ℕ → Type 0
NonZero c = (c == 0) ≡ false

decimal-nonzero : (ds : List ℕ) → All NonZero (decimal ds)
decimal-nonzero [] = tt
decimal-nonzero (d ∷ ds) = (ground arith, decimal-nonzero ds)

range_text-nonzero : (ds es : List ℕ) → All NonZero (newline (range_text ds es))
range_text-nonzero ds es =
    let digits = All-append NonZero (decimal es) (13 ∷ []) (decimal-nonzero es) (refl, tt) in
    let text =
      All-append NonZero (decimal ds) (b'-' ∷ (decimal es ++ (13 ∷ []))) (decimal-nonzero ds)
        (refl, digits) in
    let tail =
      All-append NonZero (decimal ds ++ (b'-' ∷ (decimal es ++ (13 ∷ [])))) (10 ∷ []) text
        (refl, tt) in
    (
      refl,
      (
        refl,
        (
          refl,
          (refl, (refl, (refl, (refl, (refl, (refl, (refl, (refl, (refl, (refl, tail)))))))))),
        ),
      ),
    )

-- A range header sets the offset of the request to its first number and the end to its second one plus
-- one, as the bytes from the first up to the second one are asked for. Both numbers are written with decimal digits,
-- the first one is below 2^31, and the second one is neither 0 nor above 2^32 - 2.
pub header_line-range_text :
    (local_hostname : Bytes) (h : Headers) (d e : ℕ) (ds es : List ℕ)
    → AreDigits (d ∷ ds)
    → AreDigits (e ∷ es)
    → number (d ∷ ds) < 2 ^ 31
    → 1 ≤ number (e ∷ es)
    → number (e ∷ es) + 1 < 2 ^ 32
    → header_line local_hostname (newline (range_text (d ∷ ds) (e ∷ es))) h
      ≡ record h { req = record h.req { offset = number (d ∷ ds); end = number (e ∷ es) + 1 } }
unfolding header_line with_scanned
header_line-range_text local_hostname h d e ds es first second small some_end fits =
    let text = newline (range_text (d ∷ ds) (e ∷ es)) in
    let whole = strdup-nonzero text (range_text-nonzero (d ∷ ds) (e ∷ es)) in
    let scanned =
      scan_range-range_text d e ds es h.req.offset h.req.end first second small
        (omega (arith, fits)) in
    let last : (if number (e ∷ es) == 0 then 0 else (number (e ∷ es) + 1) % 2 ^ 32)
        ≡ number (e ∷ es) + 1 =
      ground (arith, some_end, fits) in
    ap (λ p. record h { req = with_scanned h.req p })
      (ap (λ x. scan_range x h.req.offset h.req.end) whole ∙ scanned)
    ∙ ap (λ n. record h { req = record h.req { offset = number (d ∷ ds); end = n } }) last
