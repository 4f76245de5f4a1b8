-- ===== src/Ws/Frame/Read.antt =====
-- The frame header that the device writes, as the other side reads it.
use rb3201_rbprotocol_librar.Prelude.{
  ◌+◌, ◌*◌, ◌/◌, ◌%◌, ◌^◌, ◌<◌, ◌≡◌, refl, true, not, Option, none, some, ◌∷◌, ◌++◌, Bytes, length,
  take, drop, leb, ltb, ◌==◌, if◌then◌else◌, arith, take-length, drop-length, inl, inr, Bool-cases,
}
use rb3201_rbprotocol_librar.Ws.Frame.{frame_header}

-- A 16-bit length and the payload behind it.
unfoldable read_long : Bytes → Option (Bytes × Bytes)
read_long (high ∷ low ∷ bytes) = some (take (high * 256 + low) bytes, drop (high * 256 + low) bytes)
read_long _ = none

-- RFC 6455: an unmasked text frame that stands alone, with a length of 7 or 16 bits. The result is
-- its payload and what follows it.
unfoldable pub read_frame : Bytes → Option (Bytes × Bytes)
unfolding read_long
read_frame (first ∷ len ∷ bytes) =
    if not (first == 0x81)
    then none
    else if ltb len 126
    then some (take len bytes, drop len bytes)
    else if len == 126
    then read_long bytes
    else none
read_frame _ = none

-- What the device writes for a buffer is read back as one text frame with that buffer, and nothing
-- of what follows. The length fits in the 16 bits of a queued item.
pub read_frame-frame_header :
    (buf rest : Bytes)
    → length buf < 2 ^ 16
    → read_frame (frame_header (length buf) ++ (buf ++ rest)) ≡ some (buf, rest)
unfolding read_frame read_long frame_header
read_frame-frame_header buf rest small = elim (Bool-cases (leb (length buf) 125)) [
  | inl short ↦
      let small_len : ltb (length buf % 256) 126 ≡ true = ground arith in
      let len : length buf % 256 ≡ length buf = ground arith in
      rw (short, small_len, len, take-length buf rest, drop-length buf rest) refl
  | inr long ↦
      let len : (length buf / 256 % 256) * 256 + length buf % 256 ≡ length buf = omega arith in
      rw (long, len, take-length buf rest, drop-length buf rest) refl
]
