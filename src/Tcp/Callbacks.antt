-- ===== src/Tcp/Callbacks.antt =====
-- The callbacks of a connection and their handles.
use rb3201_rbprotocol_librar.Prelude.{
  ℕ, ◌+◌, ◌-◌, ◌^◌, ◌≤◌, ◌<◌, ◌≡◌, refl, ap, ◌∙◌, false, inl, inr, some, List, [], ◌∷◌, ◌++◌, All,
  All-append, All-imp, leb, ltb, ◌==◌, ==_refl, Bool-cases, arith,
}
use rb3201_rbprotocol_librar.Tcp.{
  TcpCallback, TcpSocketReal, insert_callback, erase_callback, on_receive, remove_callback,
}

module _ {C : Type 0} where
  -- Every handle was given by the counter.
  abbrev pub IsCounted : TcpSocketReal C → Type 0
  IsCounted t = All (λ (cb : TcpCallback C). cb.handle ≤ t.cb_counter) t.callbacks

  insert_callback_last :
      (h : ℕ) (f : C) (cbs : List (TcpCallback C))
      → All (λ (cb : TcpCallback C). cb.handle < h) cbs
      → insert_callback h f cbs ≡ cbs ++ (record { handle = h; callback = f } ∷ [])
  unfolding insert_callback
  insert_callback_last h f [] below = refl
  insert_callback_last h f (cb ∷ cbs) (b, below) =
      let behind : ltb h cb.handle ≡ false = ground (arith, b) in
      let other : (h == cb.handle) ≡ false = ground (arith, b) in
      rw (behind, other, insert_callback_last h f cbs below) refl

  erase_callback_last :
      (h : ℕ) (f : C) (cbs : List (TcpCallback C))
      → All (λ (cb : TcpCallback C). cb.handle < h) cbs
      → erase_callback h (cbs ++ (record { handle = h; callback = f } ∷ [])) ≡ cbs
  unfolding erase_callback
  erase_callback_last h f [] below = rw (==_refl h) refl
  erase_callback_last h f (cb ∷ cbs) (b, below) =
      let other : (cb.handle == h) ≡ false = ground (arith, b) in
      rw (other, erase_callback_last h f cbs below) refl

  erase_callback-All :
      (n h : ℕ) (cbs : List (TcpCallback C))
      → All (λ (cb : TcpCallback C). cb.handle ≤ n) cbs
      → All (λ (cb : TcpCallback C). cb.handle ≤ n) (erase_callback h cbs)
  unfolding erase_callback
  erase_callback-All n h [] below = tt
  erase_callback-All n h (cb ∷ cbs) (b, below) = elim (Bool-cases (cb.handle == h)) [
    | inl same ↦ rw same below
    | inr other ↦ rw other (b, erase_callback-All n h cbs below)
  ]

  remove_callback-IsCounted :
      (t : TcpSocketReal C) (h : ℕ) → IsCounted t → IsCounted (remove_callback t h)
  unfolding remove_callback
  remove_callback-IsCounted t h counted = erase_callback-All t.cb_counter h t.callbacks counted

  -- A callback that is registered gets a handle that no other one has, stands behind the others, and goes away
  -- without a trace but the counter when it is removed; handles stay those that the counter
  -- gave. There are fewer than 2^31 - 1 handles so far, and each was given by the counter.
  remove_callback-on_receive :
      (t : TcpSocketReal C) (f : C)
      → IsCounted t
      → t.cb_counter < 2 ^ 31 - 1
      → (h : ℕ) × (t' : TcpSocketReal C) × (on_receive t f ≡ some (h, t'))
        × All (λ (cb : TcpCallback C). cb.handle < h) t.callbacks
        × (t'.callbacks ≡ t.callbacks ++ (record { handle = h; callback = f } ∷ []))
        × (remove_callback t' h ≡ record t { cb_counter = h })
        × IsCounted t'
        × ((other : ℕ) → IsCounted (remove_callback t' other))
  unfolding on_receive remove_callback
  remove_callback-on_receive t f counted few =
      let h = t.cb_counter + 1 in
      let below : All (λ (cb : TcpCallback C). cb.handle < h) t.callbacks =
        All-imp (λ (cb : TcpCallback C). cb.handle ≤ t.cb_counter)
          (λ (cb : TcpCallback C). cb.handle < h) t.callbacks (λ cb k. omega arith) counted in
      let last = insert_callback_last h f t.callbacks below in
      let room : leb (2 ^ 31 - 1) t.cb_counter ≡ false = ground arith in
      let t' : TcpSocketReal C = record t {
        cb_counter = h;
        callbacks = insert_callback h f t.callbacks;
      } in
      let counted' : IsCounted t' = rw last (
        All-append (λ (cb : TcpCallback C). cb.handle ≤ h) t.callbacks
          (record { handle = h; callback = f } ∷ [])
          (All-imp (λ (cb : TcpCallback C). cb.handle ≤ t.cb_counter)
            (λ (cb : TcpCallback C). cb.handle ≤ h) t.callbacks (λ cb k. omega arith) counted)
          (omega arith, tt)) in
      (
        h,
        t',
        rw (on_receive, room) refl,
        below,
        last,
        ap (λ cbs. record t { cb_counter = h; callbacks = erase_callback h cbs }) last
            ∙ ap (λ cbs. record t { cb_counter = h; callbacks = cbs })
                (erase_callback_last h f t.callbacks below),
        counted',
        λ other. remove_callback-IsCounted t' other counted',
      )
