-- ===== src/Web/UrlDecode.antt =====
-- `url_decode`: the name of the file that a request asks for.
pub mod RoundTrip
pub mod Bounds
use rb3201_rbprotocol_librar.Prelude.{
  ℕ, zero, suc, ◌+◌, ◌-◌, ◌*◌, ◌%◌, ◌^◌, Bool, true, false, not, ◌&&◌, ◌||◌, Option, none, some,
  List, [], ◌∷◌, ◌++◌, Bytes, codes, length, take, drop, ltb, leb, ◌==◌, if◌then◌else◌,
}
use rb3201_rbprotocol_librar.Json.Key.{strdup}

-- `FILENAME_SIZE`
abbrev pub filename_size : ℕ
filename_size = 64

abbrev pub is_space : ℕ → Bool
is_space c = (c == 32) || (leb 9 c && leb c 13)

unfoldable pub hex_value : ℕ → Option ℕ
hex_value c =
    if leb 48 c && leb c 57
    then some (c - 48)
    else if leb 65 c && leb c 70
    then some (c - 55)
    else if leb 97 c && leb c 102
    then some (c - 87)
    else none

unfoldable pub hex_digits : ℕ → Bytes → ℕ
unfolding hex_value
hex_digits n [] = n
hex_digits n (c ∷ s) = elim (hex_value c) [ none ↦ n | some d ↦ hex_digits (n * 16 + d) s ]

unfoldable pub skip_space : Bytes → Bytes
skip_space [] = []
skip_space (c ∷ s) = if is_space c then skip_space s else c ∷ s

unfoldable pub signed_digits : Bytes → ℕ
unfolding hex_digits
signed_digits [] = 0
signed_digits (c ∷ s) =
    if c == b'-'
    then (2 ^ 32 - hex_digits 0 s) % 2 ^ 32
    else if c == b'+'
    then hex_digits 0 s
    else hex_digits 0 (c ∷ s)

-- `strtoul(code, NULL, 16)` of two characters, too few for a digit behind "0x".
unfoldable pub strtoul : Bytes → ℕ
unfolding skip_space signed_digits
strtoul code = signed_digits (skip_space code)

unfoldable pub prepend : ℕ → Option Bytes → Option Bytes
prepend c none = none
prepend c (some s) = some (c ∷ s)

-- The loop, with room for so many bytes before the terminator. A `%` with fewer than two characters
-- behind it makes the source read past the end of the string: no result.
unfoldable pub decode_loop : ℕ → Bytes → Option Bytes
unfolding strtoul prepend
decode_loop zero p = some []
decode_loop (suc room) [] = some []
decode_loop (suc room) (c ∷ p) =
    let plain = decode_loop room p in
    let coded = decode_loop room (drop 2 p) in
    if not (c == b'%')
    then prepend c plain
    else if ltb (length p) 2
    then none
    else prepend (strtoul (take 2 p) % 256) coded

-- The name is a C string: a decoded zero byte ends it. With a working directory that does not fit, the
-- source writes behind `dest`: no result.
unfoldable pub url_decode : Bytes → Bytes → ℕ → Option Bytes
unfolding decode_loop strdup
url_decode working_directory src max =
    let prefix = working_directory ++ (b'/' ∷ []) in
    if leb filename_size (length prefix)
    then none
    else elim (decode_loop (max - length prefix - 1) src) [
      | none ↦ none
      | some name ↦ some (prefix ++ strdup name)
    ]
