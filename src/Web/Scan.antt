-- ===== src/Web/Scan.antt =====
-- The calls of `sscanf` in `parse_request` of src/rbwebserver.c, and the string tests there.
pub mod Range
use rb3201_rbprotocol_librar.Prelude.{
  ℕ, zero, suc, ◌+◌, ◌-◌, ◌*◌, ◌^◌, min, ◌&&◌, Option, none, some, [], ◌∷◌, Bytes, codes, ltb, leb,
  ◌==◌, if◌then◌else◌,
}
use rb3201_rbprotocol_librar.Prelude.Int.{ℤ, pos, negsuc}
use rb3201_rbprotocol_librar.Web.UrlDecode.{is_space, skip_space}

-- Up to so many characters before the next white space, and the rest.
unfoldable pub take_word : ℕ → Bytes → Bytes × Bytes
take_word zero s = ([], s)
take_word (suc n) [] = ([], [])
take_word (suc n) (c ∷ s) =
    let (word, rest) = take_word n s in if is_space c then ([], c ∷ s) else (c ∷ word, rest)

-- What `%s` leaves in its array: nothing is stored where there is no word.
unfoldable pub stored : Bytes → Bytes → Bytes
stored old [] = old
stored old (c ∷ word) = c ∷ word

-- `sscanf(buf, "%9s %127s", method, uri)`: with no first word there is no second one.
unfoldable pub scan_request_line : Bytes → Bytes → Bytes → Bytes × Bytes
unfolding take_word stored skip_space
scan_request_line buf method uri =
    let (word, rest) = take_word 9 (skip_space buf) in
    (stored method word, stored uri (take_word 127 (skip_space rest)).0)

unfoldable pub digits : ℕ → Bytes → ℕ × Bytes
digits n [] = (n, [])
digits n (c ∷ s) =
    let more = digits (n * 10 + (c - 48)) s in if leb 48 c && leb c 57 then more else (n, c ∷ s)

unfoldable pub negated : ℕ → ℤ
negated zero = pos 0
negated (suc n) = negsuc n

-- One digit or more.
unfoldable pub scan_digits : Bytes → Option (ℕ × Bytes)
unfolding digits
scan_digits [] = none
scan_digits (c ∷ s) = if leb 48 c && leb c 57 then some (digits 0 (c ∷ s)) else none

unfoldable pub scan_signed : Bytes → Option (ℤ × Bytes)
unfolding scan_digits negated
scan_signed [] = none
scan_signed (c ∷ s) =
    if c == b'-'
    then elim (scan_digits s) [ none ↦ none | some (n, rest) ↦ some (negated n, rest) ]
    else if c == b'+'
    then elim (scan_digits s) [ none ↦ none | some (n, rest) ↦ some (pos n, rest) ]
    else elim (scan_digits (c ∷ s)) [ none ↦ none | some (n, rest) ↦ some (pos n, rest) ]

-- The characters that `%ld` and `%u` take, as a number.
unfoldable pub scan_integer : Bytes → Option (ℤ × Bytes)
unfolding skip_space scan_signed
scan_integer s = scan_signed (skip_space s)

-- The bit pattern of a `long`. A number that does not fit becomes the nearest one, as in `strtol`.
unfoldable pub to_long : ℤ → ℕ
to_long (pos n) = min n (2 ^ 31 - 1)
to_long (negsuc n) = 2 ^ 32 - 1 - min n (2 ^ 31 - 1)

-- The value of an `unsigned`, as `strtoul` gives it.
unfoldable pub to_unsigned : ℤ → ℕ
to_unsigned (pos n) = min n (2 ^ 32 - 1)
to_unsigned (negsuc n) = if ltb n (2 ^ 32 - 1) then 2 ^ 32 - 1 - n else 2 ^ 32 - 1

-- What is behind a text at the front.
unfoldable pub strip : Bytes → Bytes → Option Bytes
strip [] s = some s
strip (c ∷ t) [] = none
strip (c ∷ t) (x ∷ s) = if x == c then strip t s else none

-- The values that `sscanf(buf, "Range: bytes=%ld-%u", ...)` stores for the offset and the end.
unfoldable pub scan_end : ℕ → ℕ → Option Bytes → ℕ × ℕ
scan_end offset end none = (offset, end)
scan_end offset end (some s) = elim (scan_integer s) [
  | none ↦ (offset, end)
  | some (z, rest) ↦ (offset, to_unsigned z)
]

unfoldable pub scan_start : ℕ → ℕ → Option Bytes → ℕ × ℕ
scan_start offset end none = (offset, end)
scan_start offset end (some s) = elim (scan_integer s) [
  | none ↦ (offset, end)
  | some (z, rest) ↦ scan_end (to_long z) end (strip (codes "-") rest)
]

unfoldable pub scan_range : Bytes → ℕ → ℕ → ℕ × ℕ
scan_range buf offset end = elim (strip (codes "Range:") buf) [
  | none ↦ (offset, end)
  | some rest ↦ scan_start offset end (strip (codes "bytes=") (skip_space rest))
]
