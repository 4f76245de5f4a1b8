-- ===== src/Ws/Client/Payload.antt =====
-- The payload of a frame, whatever the pieces in which `process_client` reads it.
use rb3201_rbprotocol_librar.Prelude.{
  ℕ, zero, suc, ◌+◌, ◌-◌, ◌%◌, ◌^◌, ◌≤◌, ◌<◌, ◌≡◌, refl, ap, sym, ◌∙◌, min, true, false, [], ◌∷◌,
  ◌++◌, Bytes, bit_xor, get_or, length, take, drop, ltb, ◌==◌, if◌then◌else◌, arith, length-append,
  take-length, drop-length, take-append-drop, length-take, length-drop, ltb→lt, drop-drop, drop_all,
  inl, inr, Bool-cases, ==_iff, append_assoc,
}
use rb3201_rbprotocol_librar.Ws.Client.{
  Client, arrived, Progress, progress, got, read_at_least, unmask_from, overwrite, data_loop,
  finished, payload_data,
}

-- A client in the middle of a payload: `old` has arrived, `blank` is room for the rest.
abbrev pub receiving : Client → Bytes → Bytes → Client
receiving c old blank = record c {
  payload = old ++ blank;
  remaining_payload_len = length blank;
  state = payload_data;
}

-- A client behind a payload.
abbrev pub received : Client → Bytes → Client
received c whole = record c { payload = whole; remaining_payload_len = 0; state = finished c }

pub read_at_least-got :
    (bs rest : Bytes) → read_at_least (arrived (bs ++ rest)) (length bs) ≡ got bs rest
unfolding read_at_least
read_at_least-got bs rest =
    rw (take-length bs rest, drop-length bs rest, length-append bs rest) (ground arith)

length-unmask_from : (i : ℕ) (key bs : Bytes) → length (unmask_from i key bs) ≡ length bs
unfolding unmask_from
length-unmask_from i key [] = refl
length-unmask_from i key (b ∷ bs) = ap suc (length-unmask_from (i + 1) key bs)

unmask_from-append :
    (i : ℕ) (key bs ms : Bytes)
    → unmask_from i key (bs ++ ms) ≡ unmask_from i key bs ++ unmask_from (i + length bs) key ms
unfolding unmask_from
unmask_from-append i key [] ms = ap (λ j. unmask_from j key ms) (omega arith)
unmask_from-append i key (b ∷ bs) ms =
    let e : (i + 1) + length bs ≡ i + suc (length bs) = omega arith in
    ap (◌∷◌ (bit_xor b (get_or key (i % 4) 0))) (
      unmask_from-append (i + 1) key bs ms
      ∙ ap (λ k. unmask_from (i + 1) key bs ++ unmask_from k key ms) e)

-- The key has four bytes.
unmask_from_period :
    (i j : ℕ) (key bs : Bytes) → i % 4 ≡ j % 4 → unmask_from i key bs ≡ unmask_from j key bs
unfolding unmask_from
unmask_from_period i j key [] h = refl
unmask_from_period i j key (b ∷ bs) h = rw h (
    ap (◌∷◌ (bit_xor b (get_or key (j % 4) 0)))
      (unmask_from_period (i + 1) (j + 1) key bs (omega arith)))

overwrite-append :
    (old bs room blank : Bytes)
    → length bs ≡ length room
    → overwrite (length old) bs (old ++ (room ++ blank)) ≡ (old ++ bs) ++ blank
unfolding overwrite
overwrite-append old bs room blank h =
    rw
      (
        take-length old (room ++ blank),
        drop-drop (length old) (length bs) (old ++ (room ++ blank)),
        drop-length old (room ++ blank),
        h,
        drop-length room blank,
      )
      (sym (append_assoc old bs blank))

data_loop-chunk :
    (fuel : ℕ) (c : Client) (old bs room blank rest : Bytes)
    → length bs ≡ length room
    → min (length (room ++ blank)) 64 ≡ length bs
    → length old + length (room ++ blank) < 2 ^ 16
    → let done = old ++ unmask_from 0 c.masking_key bs in
      data_loop (suc fuel) (receiving c old (room ++ blank)) (arrived (bs ++ rest)) ≡ (
        if length blank == 0
        then progress (record (receiving c done blank) { state = finished c }) (arrived rest) true
        else data_loop fuel (receiving c done blank) (arrived rest))
unfolding data_loop
data_loop-chunk fuel c old bs room blank rest h n small =
    let at : (length (old ++ (room ++ blank)) - length (room ++ blank)) % 2 ^ 16 ≡ length old =
      omega (arith, length-append old (room ++ blank)) in
    let left : length (room ++ blank) - length bs ≡ length blank =
      omega (arith, length-append room blank) in
    rw (data_loop, n, read_at_least-got bs rest)
      (rw
        (
          left,
          at,
          overwrite-append old (unmask_from 0 c.masking_key bs) room blank
              (length-unmask_from 0 c.masking_key bs ∙ h),
        )
        refl)

ltb→le : (a b : ℕ) → ltb a b ≡ false → b ≤ a
ltb→le a b h = ground arith

-- A piece whose length is a multiple of four may be unmasked by itself.
unmask_from-take-drop :
    (n : ℕ) (key msg : Bytes)
    → n % 4 ≡ 0
    → unmask_from 0 key (take n msg) ++ unmask_from 0 key (drop n msg) ≡ unmask_from 0 key msg
unfolding unmask_from
unmask_from-take-drop n key msg h =
    let bs = take n msg in
    let whole : unmask_from 0 key msg
        ≡ unmask_from 0 key bs ++ unmask_from (0 + length bs) key (drop n msg) =
      ap (unmask_from 0 key) (sym (take-append-drop n msg))
      ∙ unmask_from-append 0 key bs (drop n msg) in
    elim (Bool-cases (ltb n (length msg))) [
      | inl long ↦
          let e : 0 % 4 ≡ (0 + length bs) % 4 =
            omega (arith, length-take n msg, ltb→lt n (length msg) long) in
          ap (◌++◌ (unmask_from 0 key bs)) (unmask_from_period 0 (0 + length bs) key (drop n msg) e)
          ∙ sym whole
      | inr short ↦
          let none_left : drop n msg ≡ [] = drop_all n msg (ltb→le n (length msg) short) in
          ap (λ ms. unmask_from 0 key bs ++ unmask_from 0 key ms) none_left
          ∙ (sym (ap (λ ms. unmask_from 0 key bs ++ unmask_from (0 + length bs) key ms) none_left)
              ∙ sym whole)
    ]

pub data_loop-all :
    (fuel : ℕ) (c : Client) (old msg blank rest : Bytes)
    → length msg ≡ length blank
    → 0 < length msg
    → length msg ≤ fuel
    → length old + length msg < 2 ^ 16
    → data_loop fuel (receiving c old blank) (arrived (msg ++ rest))
      ≡ progress (received c (old ++ unmask_from 0 c.masking_key msg)) (arrived rest) true
unfolding unmask_from
data_loop-all zero c old msg blank rest h some_left enough small = absurd (omega arith)
data_loop-all (suc fuel) c old msg blank rest h some_left enough small =
    let key = c.masking_key in
    let bs = take 64 msg in
    let ms = drop 64 msg in
    let room = take 64 blank in
    let left = drop 64 blank in
    let all_room : room ++ left ≡ blank = take-append-drop 64 blank in
    let all_msg : bs ++ (ms ++ rest) ≡ msg ++ rest =
      sym (append_assoc bs ms rest) ∙ ap (λ x. x ++ rest) (take-append-drop 64 msg) in
    let n_room : min (length (room ++ left)) 64 ≡ length bs =
      rw all_room (omega (arith, length-take 64 msg)) in
    let fits : length old + length (room ++ left) < 2 ^ 16 = rw all_room (omega arith) in
    let first =
      data_loop-chunk fuel c old bs room left (ms ++ rest)
        (omega (arith, length-take 64 msg, length-take 64 blank)) n_room fits in
    let unmasked : (old ++ unmask_from 0 key bs) ++ unmask_from 0 key ms
        ≡ old ++ unmask_from 0 key msg =
      append_assoc old (unmask_from 0 key bs) (unmask_from 0 key ms)
      ∙ ap (◌++◌ old) (unmask_from-take-drop 64 key msg refl) in
    let step = rw (all_room, all_msg) at first in
    let behind_ms : length ms ≡ length msg - 64 = length-drop 64 msg in
    let behind_left : length left ≡ length blank - 64 = length-drop 64 blank in
    let result : Bytes → Progress = λ whole. progress (received c whole) (arrived rest) true in
    elim (Bool-cases (length left == 0)) [
      | inl e ↦
          let none_left : length left ≡ 0 = (==_iff (length left) 0).0 e in
          let no_ms : ms ≡ [] = drop_all 64 msg (omega arith) in
          let no_room : left ≡ [] = drop_all 64 blank (omega arith) in
          rw (step, e, no_ms, no_room) (ap result (rw no_ms at unmasked))
      | inr e ↦
          let more : 64 < length msg = ground (arith, behind_left, h) in
          let later =
            data_loop-all fuel c (old ++ unmask_from 0 key bs) ms left rest (omega arith)
              (omega arith) (omega arith)
              (omega (
                arith,
                length-append old (unmask_from 0 key bs),
                length-unmask_from 0 key bs,
                length-take 64 msg,
              )) in
          rw (step, e, later) (ap result unmasked)
    ]
