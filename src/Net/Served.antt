-- ===== src/Net/Served.antt =====
-- The sockets of `Udp` follow its callbacks.
use rb3201_rbprotocol_librar.Prelude.{
  ℕ, ◌+◌, ◌-◌, ◌^◌, ◌≡◌, refl, sym, ap, ◌∙◌, Bool, true, false, not, ◌&&◌, ◌||◌, ◌⊎◌, Option, none,
  some, inl, inr, Bool-cases, Option-cases, List, [], ◌∷◌, ◌++◌, leb, ◌==◌, ==_iff, ==_refl,
  true_ne_false, arith,
}
use rb3201_rbprotocol_librar.Net.{
  Callback, Udp, Sockets, find_socket, insert_socket, erase_socket, register, take_callback, serves,
  drop_socket, remove_taken, remove_callback,
}

-- Whether a port has a socket.
abbrev pub is_open : Sockets → ℕ → Bool
is_open socks port = elim (find_socket port socks) [ none ↦ false | some fd ↦ true ]

-- A port has a socket exactly if a callback is for it.
abbrev pub IsServed : {C : Type 0} → Udp C → Type 0
IsServed u = (port : ℕ) → serves u.callbacks port ≡ is_open u.open_sockets port

pub is_open-insert_socket :
    (port fd : ℕ) (socks : Sockets) (q : ℕ)
    → is_open (insert_socket port fd socks) q ≡ (port == q) || is_open socks q
unfolding find_socket insert_socket
is_open-insert_socket port fd [] q = ground arith
is_open-insert_socket port fd ((p, fd') ∷ socks) q =
    let later = is_open-insert_socket port fd socks q in ground (arith, later)

pub is_open-erase_socket :
    (port : ℕ) (socks : Sockets) (q : ℕ)
    → is_open (erase_socket port socks) q ≡ is_open socks q && not (port == q)
unfolding find_socket erase_socket
is_open-erase_socket port [] q = refl
is_open-erase_socket port ((p, fd') ∷ socks) q =
    let later = is_open-erase_socket port socks q in ground (arith, later)

shut_open :
    (socks : Sockets) (port : ℕ) → find_socket port socks ≡ none → is_open socks port ≡ true → ⊥
shut_open socks port e o = true_ne_false (sym (rw (is_open, e) at o))

module _ {C : Type 0} where
  serves-append :
      (cbs : List (Callback C)) (cb : Callback C) (q : ℕ)
      → serves (cbs ++ (cb ∷ [])) q ≡ (cb.port == q) || serves cbs q
  unfolding serves
  serves-append [] cb q = refl
  serves-append (x ∷ cbs) cb q = let later = serves-append cbs cb q in ground (arith, later)

  -- The callback taken served its port, and the others serve the rest.
  take_callback-cases :
      (h : ℕ) (cbs : List (Callback C))
      → (take_callback h cbs ≡ none)
        ⊎ ((cb : Callback C) × (others : List (Callback C)) × (take_callback h cbs
              ≡ some (cb, others))
            × ((q : ℕ) → serves cbs q ≡ (cb.port == q) || serves others q))
  unfolding serves take_callback
  take_callback-cases h [] = inl refl
  take_callback-cases h (x ∷ cbs) = elim (Bool-cases (x.handle == h)) [
    | inl same ↦ inr (x, cbs, rw same refl, λ q. refl)
    | inr other ↦ elim (take_callback-cases h cbs) [
      | inl e ↦ inl (rw (other, e) refl)
      | inr (cb, others, e, served) ↦
          inr (cb, x ∷ others, rw (other, e) refl, λ q. let s = served q in ground (arith, s))
    ]
  ]

  still_served :
      (port : ℕ) (others : List (Callback C)) (q : ℕ) (b : Bool)
      → b ≡ (port == q) || serves others q
      → serves others port ≡ true
      → serves others q ≡ b
  still_served port others q b e more = elim (Bool-cases (port == q)) [
    | inl same ↦ let at_q = rw ((==_iff port q).0 same) at more in ground arith
    | inr other ↦ ground arith
  ]

  not_served :
      (port : ℕ) (others : List (Callback C)) (q : ℕ) (b : Bool)
      → b ≡ (port == q) || serves others q
      → serves others port ≡ false
      → serves others q ≡ b && not (port == q)
  not_served port others q b e last = elim (Bool-cases (port == q)) [
    | inl same ↦ let at_q = rw ((==_iff port q).0 same) at last in ground arith
    | inr other ↦ ground arith
  ]

  -- An invariant of what `onReceive` leaves, where it has a result.
  abbrev pub Keeps : {A : Type 0} → Option (A × Udp C) → Type 0
  Keeps none = Unit
  Keeps (some (a, u)) = IsServed u

  module _ (u : Udp C) (h : IsServed u) where
    pub register-IsServed :
        (socks : Sockets) (port : ℕ) (callback : C)
        → ((q : ℕ) → is_open socks q ≡ (port == q) || is_open u.open_sockets q)
        → Keeps (register u socks port callback)
    unfolding register
    register-IsServed socks port callback opened =
        elim (Bool-cases (leb (2 ^ 31 - 1) u.callback_id_counter)) [
          | inl full ↦ rw full tt
          | inr room ↦ rw room (λ q.
              serves-append u.callbacks
                (record { handle = u.callback_id_counter + 1; callback = callback; port = port }) q
              ∙ ap (λ b. (port == q) || b) (h q)
              ∙ sym (opened q))
        ]

    pub remove_callback-IsServed :
        (handle : ℕ) (erased : ℕ → ℕ) → IsServed (remove_callback u handle erased).0
    unfolding remove_callback remove_taken drop_socket
    remove_callback-IsServed handle erased q = elim (take_callback-cases handle u.callbacks) [
      | inl e ↦ rw e (h q)
      | inr (cb, others, e, served) ↦ elim (Bool-cases (serves others cb.port)) [
        | inl more ↦
            rw (e, more)
              (still_served cb.port others q (serves u.callbacks q) (served q) more ∙ h q)
        | inr last ↦ elim (Option-cases (find_socket cb.port u.open_sockets)) [
          | inl shut ↦
              let open_port : is_open u.open_sockets cb.port ≡ true =
                sym (h cb.port) ∙ served cb.port ∙ rw (==_refl cb.port) refl in
              absurd (shut_open u.open_sockets cb.port shut open_port)
          | inr (fd, opened) ↦
              rw (e, last, opened)
                (not_served cb.port others q (is_open u.open_sockets q) (sym (h q) ∙ served q) last
                  ∙ sym (is_open-erase_socket cb.port u.open_sockets q))
        ]
      ]
    ]
