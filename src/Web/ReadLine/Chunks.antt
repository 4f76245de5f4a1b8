-- ===== src/Web/ReadLine/Chunks.antt =====
-- Lines do not depend on the pieces in which the bytes arrive.
use rb3201_rbprotocol_librar.Prelude.{
  ℕ, zero, suc, ◌+◌, ◌-◌, ◌<◌, ◌≡◌, refl, ap, false, List, [], ◌∷◌, ◌++◌, Bytes, get_or, drop, All,
  length-append, length, ◌==◌, arith, append_assoc,
}
use rb3201_rbprotocol_librar.Web.ReadLine.{
  Recv, chunk, eagain, eintr, other_error, Rio, ReadChar, got, refill, take_char, rio_read, Line,
  line, line_loop, rio_readlineb,
}

-- All the bytes that the socket will give.
unfoldable pub bytes_of : List Recv → Bytes
bytes_of [] = []
bytes_of (chunk bytes ∷ later) = bytes ++ bytes_of later
bytes_of (eagain ∷ later) = bytes_of later
bytes_of (eintr ∷ later) = bytes_of later
bytes_of (other_error ∷ later) = bytes_of later

abbrev pub stream : Rio → Bytes
stream rp = rp.unread ++ bytes_of rp.socket

-- No error, and no end of the stream.
unfoldable pub IsOpen : List Recv → Type 0
IsOpen [] = Unit
IsOpen (chunk [] ∷ later) = ⊥
IsOpen (chunk (c ∷ bytes) ∷ later) = IsOpen later
IsOpen (eagain ∷ later) = IsOpen later
IsOpen (eintr ∷ later) = IsOpen later
IsOpen (other_error ∷ later) = ⊥

-- One byte is read and the others are still to come.
abbrev Next : ℕ → Bytes → ReadChar → Type 0
Next c s r = (rp : Rio) × (r ≡ got c rp) × (stream rp ≡ s) × IsOpen rp.socket

nil_ne_cons : (c : ℕ) (s : Bytes) → [] ≡ c ∷ s → ⊥
nil_ne_cons c s e = let n : 0 ≡ suc (length s) = ap (λ (l : Bytes). length l) e in omega arith

refill-Next :
    (socket : List Recv) (c : ℕ) (s : Bytes)
    → IsOpen socket
    → bytes_of socket ≡ c ∷ s
    → Next c s (refill socket)
unfolding refill bytes_of IsOpen
refill-Next [] c s h e = absurd (nil_ne_cons c s e)
refill-Next (chunk [] ∷ later) c s h e = absurd h
refill-Next (chunk (d ∷ bytes) ∷ later) c s h e =
    let same : d ≡ c = ap (λ (l : Bytes). get_or l 0 0) e in
    (
      record { unread = bytes; socket = later },
      ap (λ x. got x (record { unread = bytes; socket = later })) same,
      ap (λ (l : Bytes). drop 1 l) e,
      h,
    )
refill-Next (eagain ∷ later) c s h e = refill-Next later c s h e
refill-Next (eintr ∷ later) c s h e = refill-Next later c s h e
refill-Next (other_error ∷ later) c s h e = absurd h

take_char-Next :
    (unread : Bytes) (socket : List Recv) (c : ℕ) (s : Bytes)
    → IsOpen socket
    → unread ++ bytes_of socket ≡ c ∷ s
    → Next c s (take_char unread socket)
unfolding take_char
take_char-Next [] socket c s h e = refill-Next socket c s h e
take_char-Next (d ∷ bytes) socket c s h e =
    let same : d ≡ c = ap (λ (l : Bytes). get_or l 0 0) e in
    (
      record { unread = bytes; socket = socket },
      ap (λ x. got x (record { unread = bytes; socket = socket })) same,
      ap (λ (l : Bytes). drop 1 l) e,
      h,
    )

rio_read-Next :
    (rp : Rio) (c : ℕ) (s : Bytes) → IsOpen rp.socket → stream rp ≡ c ∷ s → Next c s (rio_read rp)
unfolding rio_read
rio_read-Next rp c s h e = take_char-Next rp.unread rp.socket c s h e

-- The result is this line, and the others bytes are still to come.
abbrev pub IsLine : Bytes → Bytes → Line → Type 0
IsLine text rest r =
    (rp : Rio) × (r ≡ line text (length text) rp) × (stream rp ≡ rest) × IsOpen rp.socket

line_loop-IsLine :
    (left n : ℕ) (done text rest : Bytes) (rp : Rio)
    → n ≡ length done + 1
    → IsOpen rp.socket
    → stream rp ≡ text ++ (10 ∷ rest)
    → All (λ (c : ℕ). (c == 10) ≡ false) text
    → length text < left
    → IsLine (done ++ (text ++ (10 ∷ []))) rest (line_loop left n done rp)
unfolding line_loop
line_loop-IsLine zero n done text rest rp k h e free room = absurd (omega arith)
line_loop-IsLine (suc left) n done [] rest rp k h e free room =
    let (next, r, s, h') = rio_read-Next rp 10 rest h e in
    let size : n ≡ length (done ++ (10 ∷ [])) = omega (arith, length-append done (10 ∷ [])) in
    (next, rw (line_loop, r, size) refl, s, h')
line_loop-IsLine (suc left) n done (c ∷ text) rest rp k h e (ordinary, free) room =
    let (next, r, s, h') = rio_read-Next rp c (text ++ (10 ∷ rest)) h e in
    let grown = append_assoc done (c ∷ []) (text ++ (10 ∷ [])) in
    let more =
      line_loop-IsLine left (n + 1) (done ++ (c ∷ [])) text rest next
        (omega (arith, length-append done (c ∷ []))) h' s free (omega arith) in
    rw (line_loop, r, ordinary) (rw grown at more)

-- A line comes out whole, however the bytes of the stream were cut into pieces and whatever waits
-- and interrupts lie between them, and no byte behind it is lost. The line with its end fits in the
-- buffer, and the stream neither fails nor ends.
pub rio_readlineb-IsLine :
    (rp : Rio) (text rest : Bytes) (maxlen : ℕ)
    → IsOpen rp.socket
    → stream rp ≡ text ++ (10 ∷ rest)
    → All (λ (c : ℕ). (c == 10) ≡ false) text
    → length text + 1 < maxlen
    → IsLine (text ++ (10 ∷ [])) rest (rio_readlineb rp maxlen)
unfolding rio_readlineb
rio_readlineb-IsLine rp text rest maxlen h e free room =
    line_loop-IsLine (maxlen - 1) 1 [] text rest rp (omega arith) h e free (omega arith)
