-- ===== src/Ws/Client/Message.antt =====
-- A whole frame of the browser, from its header to the end of its payload.
use rb3201_rbprotocol_librar.Prelude.{
  ℕ, zero, suc, ◌+◌, ◌*◌, ◌/◌, ◌%◌, ◌^◌, ◌≤◌, ◌<◌, ◌≡◌, refl, ap, sym, ◌∙◌, Bool, true, false, not,
  [], ◌∷◌, ◌++◌, Bytes, length, replicate, ltb, leb, ◌==◌, if◌then◌else◌, arith, lt→ltb, inl, inr,
  Bool-cases, append_assoc, ltb→lt,
}
use rb3201_rbprotocol_librar.Ws.Client.{
  Client, read_at_least, got, initial, len1, mask, Socket, arrived, Progress, progress, unmask_from,
  process_client, process_client_header, process_mask,
}
use rb3201_rbprotocol_librar.Ws.Client.Payload.{
  receiving, received, read_at_least-got, data_loop-all,
}

-- RFC 6455: the first byte, the length with the mask bit, the key, and the masked payload.
abbrev pub client_frame : ℕ → Bytes → Bytes → Bytes
client_frame flags key masked =
    if ltb (length masked) 126
    then flags ∷ (128 + length masked) ∷ (key ++ masked)
    else flags ∷ 254 ∷ (length masked / 256) ∷ (length masked % 256) ∷ (key ++ masked)

-- Calls of `process_client`, until one fails.
unfoldable pub polls : ℕ → Client → Socket → Progress
polls zero c s = progress c s true
polls (suc n) c s =
    let p = process_client c s in
    let next = polls n p.client p.socket in if p.alive then next else p

-- What a frame adds to: nothing, unless it continues the frame before.
abbrev pub before : Client → ℕ → Bytes
before c flags = if flags % 16 == 0 then c.payload else []

abbrev headed : Client → ℕ → Client
headed c flags = record c { flags = flags; payload = before c flags }

if_not {ℓ} : {A : Type ℓ} (b : Bool) (x y : A) → (if not b then x else y) ≡ (if b then y else x)
if_not true x y = refl
if_not false x y = refl

header-short :
    (c : Client) (flags n : ℕ) (more : Bytes)
    → n < 126
    → process_client (record c { state = initial }) (arrived (flags ∷ (128 + n) ∷ more))
      ≡ progress
          (record (headed c flags) { remaining_payload_len = n; state = mask })
          (arrived more)
          true
unfolding process_client process_client_header
header-short c flags n more h =
    let low : (128 + n) % 128 ≡ n = omega arith in
    let high : (128 + n) / 128 ≡ 1 = omega arith in
    let no_huge : leb 127 n ≡ false = ground arith in
    rw
      (
        process_client,
        read_at_least-got (flags ∷ (128 + n) ∷ []) more,
        low,
        high,
        no_huge,
        lt→ltb n 126 h,
      )
      (rw (if_not (flags % 16 == 0) [] c.payload) refl)

header-long :
    (c : Client) (flags : ℕ) (more : Bytes)
    → process_client (record c { state = initial }) (arrived (flags ∷ 254 ∷ more))
      ≡ progress (record (headed c flags) { state = len1 }) (arrived more) true
unfolding process_client process_client_header
header-long c flags more =
    rw
      (
        process_client,
        read_at_least-got (flags ∷ 254 ∷ []) more,
        if_not (flags % 16 == 0) [] c.payload,
      )
      refl

len1-step :
    (c : Client) (high low : ℕ) (more : Bytes)
    → process_client (record c { state = len1 }) (arrived (high ∷ low ∷ more))
      ≡ progress
          (record c { remaining_payload_len = high * 256 + low; state = mask })
          (arrived more)
          true
unfolding process_client
len1-step c high low more = rw (process_client, read_at_least-got (high ∷ low ∷ []) more) refl

length-replicate : (n : ℕ) (x : ℕ) → length (replicate n x) ≡ n
length-replicate zero x = refl
length-replicate (suc n) x = ap suc (length-replicate n x)

mask-step :
    (c : Client) (key more : Bytes)
    → length key ≡ 4
    → 0 < c.remaining_payload_len
    → length c.payload + c.remaining_payload_len ≤ 32 * 1024
    → process_client (record c { state = mask }) (arrived (key ++ more))
      ≡ progress
          (receiving
            (record c { masking_key = key })
            c.payload
            (replicate c.remaining_payload_len 0))
          (arrived more)
          true
unfolding process_client process_mask
mask-step c key more h some_left fits =
    let key_read : read_at_least (arrived (key ++ more)) 4 ≡ got key more =
      rw h at (read_at_least-got key more) in
    let some : (c.remaining_payload_len == 0) ≡ false = ground arith in
    let short : ltb (32 * 1024) (length c.payload + c.remaining_payload_len) ≡ false =
      ground arith in
    rw
      (
        process_client,
        length-replicate c.remaining_payload_len 0,
        key_read,
        process_mask,
        some,
        short,
      )
      refl

data-step :
    (c : Client) (old msg blank rest : Bytes)
    → length msg ≡ length blank
    → 0 < length msg
    → length old + length msg < 2 ^ 16
    → process_client (receiving c old blank) (arrived (msg ++ rest))
      ≡ progress (received c (old ++ unmask_from 0 c.masking_key msg)) (arrived rest) true
unfolding process_client
data-step c old msg blank rest h some_left small =
    data_loop-all (length blank + 1) c old msg blank rest h some_left (omega arith) small

polls_next :
    (n : ℕ) (c d : Client) (s t : Socket)
    → process_client c s ≡ progress d t true
    → polls (suc n) c s ≡ polls n d t
unfolding polls
polls_next n c d s t e = rw e refl

polls_done : (c : Client) (s : Socket) → polls 0 c s ≡ progress c s true
unfolding polls
polls_done c s = refl

-- From the key on.
polls-body :
    (c : Client) (key msg rest : Bytes)
    → length key ≡ 4
    → 0 < length msg
    → length c.payload + length msg ≤ 32 * 1024
    → polls 2
        (record c { remaining_payload_len = length msg; state = mask })
        (arrived ((key ++ msg) ++ rest))
      ≡ progress
          (received (record c { masking_key = key }) (c.payload ++ unmask_from 0 key msg))
          (arrived rest)
          true
polls-body c key msg rest h some_left fits =
    let sized : Client = record c { remaining_payload_len = length msg } in
    let keyed : Client = record sized { masking_key = key } in
    let room : Bytes = replicate (length msg) 0 in
    let small : length c.payload + length msg < 2 ^ 16 = omega arith in
    rw (append_assoc key msg rest) (
      polls_next 1 (record sized { state = mask }) (receiving keyed c.payload room)
        (arrived (key ++ (msg ++ rest))) (arrived (msg ++ rest))
        (mask-step sized key (msg ++ rest) h some_left fits)
      ∙ polls_next 0 (receiving keyed c.payload room)
          (received keyed (c.payload ++ unmask_from 0 key msg)) (arrived (msg ++ rest))
          (arrived rest)
          (data-step keyed c.payload msg room rest (sym (length-replicate (length msg) 0)) some_left
            small)
      ∙ polls_done (received keyed (c.payload ++ unmask_from 0 key msg)) (arrived rest))

-- However long the message, a frame of the browser is received whole: three calls, or four if its
-- length takes two more bytes, append the unmasked bytes to what the client had of an unfinished
-- message, read nothing behind the frame, and leave the client with a full message if the frame is
-- the last of it. The frame is not empty and the message at most 32 KiB in all.
pub polls-client_frame :
    (c : Client) (flags : ℕ) (key msg rest : Bytes)
    → length key ≡ 4
    → 0 < length msg
    → length (before c flags) + length msg ≤ 32 * 1024
    → polls
        (if ltb (length msg) 126 then 3 else 4)
        (record c { state = initial })
        (arrived (client_frame flags key msg ++ rest))
      ≡ progress
          (received
            (record c { flags = flags; masking_key = key })
            (before c flags ++ unmask_from 0 key msg))
          (arrived rest)
          true
polls-client_frame c flags key msg rest h some_left fits =
    let body = polls-body (headed c flags) key msg rest h some_left fits in
    let start : Client = record c { state = initial } in
    let tail : Bytes = (key ++ msg) ++ rest in
    elim (Bool-cases (ltb (length msg) 126)) [
      | inl short ↦ rw short (
          polls_next 2 start
            (record (headed c flags) { remaining_payload_len = length msg; state = mask })
            (arrived (flags ∷ (128 + length msg) ∷ tail)) (arrived tail)
            (header-short c flags (length msg) tail (ltb→lt (length msg) 126 short))
          ∙ body)
      | inr long ↦
          let sum : (length msg / 256) * 256 + length msg % 256 ≡ length msg = omega arith in
          let len_read =
            rw sum at (len1-step (headed c flags) (length msg / 256) (length msg % 256) tail) in
          let rest_len : Bytes = (length msg / 256) ∷ (length msg % 256) ∷ tail in
          rw long (
            polls_next 3 start (record (headed c flags) { state = len1 })
              (arrived (flags ∷ 254 ∷ rest_len)) (arrived rest_len) (header-long c flags rest_len)
            ∙ (polls_next 2 (record (headed c flags) { state = len1 })
                  (record (headed c flags) { remaining_payload_len = length msg; state = mask })
                  (arrived rest_len) (arrived tail) len_read
                ∙ body))
    ]
