-- ===== src/Dns/Name.antt =====
-- `parseDnsName` reads the labels of a name and joins them with dots.
use rb3201_rbprotocol_librar.Prelude.{
  ℕ, zero, suc, ◌+◌, ◌-◌, ◌%◌, ◌^◌, ◌≤◌, ◌≡◌, refl, ap, min, Bool, true, false, ◌||◌, List, [], ◌∷◌,
  ◌++◌, Bytes, All, length, take, append_assoc, length-append, take-length, drop-length, ltb, leb,
  ◌==◌, if◌then◌else◌, arith,
}
use rb3201_rbprotocol_librar.Dns.{name, overrun, out_buf_size, name_loop, parse_dns_name}

-- The labels of a name as the message holds them, without the zero that ends the name.
abbrev pub encode : List Bytes → Bytes
encode [] = []
encode (l ∷ ls) = length l ∷ (l ++ encode ls)

-- The name that a first label and others stand for.
abbrev pub dotted : Bytes → List Bytes → Bytes
dotted l [] = l
dotted l (m ∷ ls) = l ++ (b'.' ∷ dotted m ls)

abbrev pub IsLabels : List Bytes → Type 0
IsLabels ls = All (λ (l : Bytes). 1 ≤ length l) ls

or_true : (b : Bool) → (b || true) ≡ true
or_true b = ground arith

drop_dot :
    (out l : Bytes)
    → take (length (out ++ (l ++ (b'.' ∷ []))) - 1) (out ++ (l ++ (b'.' ∷ []))) ≡ out ++ l
drop_dot out l =
    let shift = append_assoc out l (b'.' ∷ []) in
    let size : length ((out ++ l) ++ (b'.' ∷ [])) - 1 ≡ length (out ++ l) =
      omega (arith, length-append (out ++ l) (b'.' ∷ [])) in
    rw (← shift, size) (take-length (out ++ l) (b'.' ∷ []))

-- A label that fits, in front of a byte `c`: it is copied, and `c` says whether the name ends.
name_loop-label :
    (fuel at maxlen : ℕ) (l : Bytes) (c : ℕ) (s out : Bytes)
    → 1 ≤ length l
    → length l + 1 ≤ maxlen
    → length out + maxlen ≤ out_buf_size
    → name_loop (suc fuel) (length l ∷ (l ++ (c ∷ s))) at maxlen out ≡ (
        if c == 0
        then name (out ++ l) (at + (length l + 1) + 1)
        else name_loop fuel
            (c ∷ s)
            (at + (length l + 1))
            (maxlen - (length l + 1))
            (out ++ (l ++ (b'.' ∷ []))))
unfolding name_loop
name_loop-label fuel at maxlen l c s out some_byte fits room =
    let accepted : (ltb maxlen (length l) || (length l == 0)) ≡ false = ground arith in
    let total : length (l ++ (c ∷ s)) ≡ length l + suc (length s) = length-append l (c ∷ s) in
    let held : (leb (length (l ++ (c ∷ s))) (length l)
          || ltb out_buf_size (length out + (length l + 1)))
        ≡ false =
      ground (arith, total) in
    let left : (maxlen + 2 ^ 32 - (length l + 1)) % 2 ^ 32 ≡ maxlen - (length l + 1) =
      omega arith in
    rw (accepted, held, take-length l (c ∷ s), drop-length l (c ∷ s), left, drop_dot out l) refl

name_loop-encode :
    (fuel at maxlen : ℕ) (l : Bytes) (ls : List Bytes) (rest out : Bytes)
    → IsLabels (l ∷ ls)
    → length (encode (l ∷ ls)) ≤ maxlen
    → length out + maxlen ≤ out_buf_size
    → maxlen ≤ fuel
    → name_loop fuel (encode (l ∷ ls) ++ (0 ∷ rest)) at maxlen out
      ≡ name (out ++ dotted l ls) (at + length (encode (l ∷ ls)) + 1)
name_loop-encode zero at maxlen l ls rest out h fits room enough = absurd (omega arith)
name_loop-encode (suc fuel) at maxlen l [] rest out (h, hs) fits room enough =
    let size : length (l ++ []) ≡ length l + 0 = length-append l [] in
    let short : length l + 1 ≤ maxlen = omega (arith, size) in
    let behind : at + (length l + 1) + 1 ≡ at + suc (length (l ++ [])) + 1 = omega (arith, size) in
    rw (append_assoc l [] (0 ∷ rest), name_loop-label fuel at maxlen l 0 rest out h short room)
      (ap (name (out ++ l)) behind)
name_loop-encode (suc fuel) at maxlen l (m ∷ ls) rest out (h, (hm, hs)) fits room enough =
    let more = encode (m ∷ ls) in
    let size : length (l ++ more) ≡ length l + length more = length-append l more in
    let short : length l + 1 ≤ maxlen = omega (arith, size) in
    let goes_on : (length m == 0) ≡ false = ground arith in
    let out' = out ++ (l ++ (b'.' ∷ [])) in
    let grown : length out' ≡ length out + (length l + 1) =
      omega (arith, length-append out (l ++ (b'.' ∷ [])), length-append l (b'.' ∷ [])) in
    let behind : at + (length l + 1) + length more + 1 ≡ at + suc (length (l ++ more)) + 1 =
      omega (arith, size) in
    let joined : out' ++ dotted m ls ≡ out ++ (l ++ (b'.' ∷ dotted m ls)) =
      rw
        (
          append_assoc out (l ++ (b'.' ∷ [])) (dotted m ls),
          append_assoc l (b'.' ∷ []) (dotted m ls),
        )
        refl in
    rw
      (
        append_assoc l more (0 ∷ rest),
        name_loop-label fuel at maxlen l (length m) ((m ++ encode ls) ++ (0 ∷ rest)) out h short
            room,
        goes_on,
        name_loop-encode fuel (at + (length l + 1)) (maxlen - (length l + 1)) m ls rest out'
            (hm, hs) (omega (arith, size)) (omega (arith, grown)) (omega arith),
        joined,
      )
      (ap (name (out ++ (l ++ (b'.' ∷ dotted m ls)))) behind)

-- A name of one or more labels, none of them empty, that takes at most 64 bytes in front of the zero
-- that ends it, and no more than is left of the request, is read as its labels joined by dots; the
-- reader goes on behind the zero.
pub parse_dns_name-encode :
    (before l : Bytes) (ls : List Bytes) (rest : Bytes) (maxlen : ℕ)
    → IsLabels (l ∷ ls)
    → length (encode (l ∷ ls)) ≤ maxlen
    → length (encode (l ∷ ls)) ≤ out_buf_size
    → parse_dns_name (before ++ (encode (l ∷ ls) ++ (0 ∷ rest))) (length before) maxlen
      ≡ name (dotted l ls) (length before + length (encode (l ∷ ls)) + 1)
unfolding parse_dns_name
parse_dns_name-encode before l ls rest maxlen h left fits =
    rw (drop-length before (encode (l ∷ ls) ++ (0 ∷ rest))) (
      name_loop-encode out_buf_size (length before) (min maxlen out_buf_size) l ls rest [] h
        (omega arith) (omega arith) (omega arith))

name_loop-overrun :
    (fuel at maxlen : ℕ) (l : Bytes) (ls : List Bytes) (rest out : Bytes)
    → IsLabels (l ∷ ls)
    → length out + maxlen ≡ out_buf_size
    → length (encode (l ∷ ls)) ≡ maxlen + 1
    → maxlen ≤ fuel
    → name_loop fuel (encode (l ∷ ls) ++ (0 ∷ rest)) at maxlen out ≡ overrun
unfolding name_loop
name_loop-overrun zero at maxlen l ls rest out h room long enough = refl
name_loop-overrun (suc fuel) at maxlen l [] rest out (h, hs) room long enough =
    let size : length (l ++ []) ≡ length l + 0 = length-append l [] in
    let accepted : (ltb maxlen (length l) || (length l == 0)) ≡ false = ground (arith, size) in
    let full : ltb out_buf_size (length out + (length l + 1)) ≡ true = ground (arith, size) in
    rw (accepted, full, or_true (leb (length ((l ++ []) ++ (0 ∷ rest))) (length l))) refl
name_loop-overrun (suc fuel) at maxlen l (m ∷ ls) rest out (h, (hm, hs)) room long enough =
    let more = encode (m ∷ ls) in
    let size : length (l ++ more) ≡ length l + length more = length-append l more in
    let goes_on : (length m == 0) ≡ false = ground arith in
    let out' = out ++ (l ++ (b'.' ∷ [])) in
    let grown : length out' ≡ length out + (length l + 1) =
      omega (arith, length-append out (l ++ (b'.' ∷ [])), length-append l (b'.' ∷ [])) in
    rw
      (
        append_assoc l more (0 ∷ rest),
        name_loop-label fuel at maxlen l (length m) ((m ++ encode ls) ++ (0 ∷ rest)) out h
            (omega (arith, size)) (omega arith),
        goes_on,
      )
      (name_loop-overrun fuel (at + (length l + 1)) (maxlen - (length l + 1)) m ls rest out'
        (hm, hs) (omega (arith, grown, size)) (omega (arith, size)) (omega arith))

-- A name that takes one byte more overruns the buffer: the test that a label fits forgets the dot
-- behind it. Its labels are not empty, and 64 bytes or more of the request are left.
pub parse_dns_name-overrun :
    (before l : Bytes) (ls : List Bytes) (rest : Bytes) (maxlen : ℕ)
    → IsLabels (l ∷ ls)
    → out_buf_size ≤ maxlen
    → length (encode (l ∷ ls)) ≡ out_buf_size + 1
    → parse_dns_name (before ++ (encode (l ∷ ls) ++ (0 ∷ rest))) (length before) maxlen ≡ overrun
unfolding parse_dns_name
parse_dns_name-overrun before l ls rest maxlen h left long =
    rw (drop-length before (encode (l ∷ ls) ++ (0 ∷ rest))) (
      name_loop-overrun out_buf_size (length before) (min maxlen out_buf_size) l ls rest [] h
        (omega arith) (omega arith) (omega arith))
