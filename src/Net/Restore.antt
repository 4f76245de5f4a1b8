-- ===== src/Net/Restore.antt =====
-- A callback that is registered gets its datagrams, and is removed without a trace.
use rb3201_rbprotocol_librar.Prelude.{
  ℕ, suc, ◌+◌, ◌-◌, ◌^◌, ◌≤◌, ◌≡◌, refl, ◌∙◌, true, false, ◌⊎◌, Option, none, some, inl, inr,
  Bool-cases, Option-cases, List, [], ◌∷◌, ◌++◌, All, All-imp, ltb, leb, ◌==◌, ==_refl, arith, sym,
  true_ne_false,
}
use rb3201_rbprotocol_librar.Net.{
  Callback, Udp, Sockets, Opening, open_socket, find_socket, insert_socket, erase_socket, register,
  closed, Effect, register_on, on_receive, take_callback, serves, drop_socket, remove_taken,
  remove_callback,
}
use rb3201_rbprotocol_librar.Net.Served.{is_open, IsServed}

-- The handles in use come from the counter.
abbrev pub IsCounted : {C : Type 0} → Udp C → Type 0
IsCounted {C = C} u = All (λ (cb : Callback C). cb.handle ≤ u.callback_id_counter) u.callbacks

-- What closes with a callback of a port that had one socket or none, if the other was opened for it.
abbrev pub given_back : Option ℕ → Option ℕ → List Effect
given_back (some fd) opened = []
given_back none none = []
given_back none (some fd) = closed fd ∷ []

given_back-is_open :
    (port : ℕ) (socks : Sockets) (opened : Option ℕ)
    → is_open socks port ≡ true
    → given_back (find_socket port socks) opened ≡ []
given_back-is_open port socks opened h = elim (Option-cases (find_socket port socks)) [
  | inl shut ↦ absurd (true_ne_false (sym (rw (is_open, shut) at h)))
  | inr (fd, e) ↦ rw e refl
]

find_socket-tail :
    (port p fd : ℕ) (socks : Sockets)
    → find_socket port ((p, fd) ∷ socks) ≡ none
    → ((p == port) ≡ false) × (find_socket port socks ≡ none)
unfolding find_socket
find_socket-tail port p fd socks e = elim (Bool-cases (p == port)) [
  | inl same ↦ absurd (some_ne_none (rw (find_socket, same) at e))
  | inr other ↦ (other, rw (find_socket, other) at e)
]
  where
    some_ne_none : some fd ≡ none → ⊥
    some_ne_none x = cc

erase_socket_absent :
    (port : ℕ) (socks : Sockets) → find_socket port socks ≡ none → erase_socket port socks ≡ socks
unfolding erase_socket
erase_socket_absent port [] e = refl
erase_socket_absent port ((p, fd) ∷ socks) e =
    let (other, later) = find_socket-tail port p fd socks e in
    rw (erase_socket, other, erase_socket_absent port socks later) refl

find-insert_socket :
    (port fd : ℕ) (socks : Sockets)
    → find_socket port socks ≡ none
    → find_socket port (insert_socket port fd socks) ≡ some fd
unfolding find_socket insert_socket
find-insert_socket port fd [] e = rw (==_refl port) refl
find-insert_socket port fd ((p, fd') ∷ socks) e =
    let (other, later) = find_socket-tail port p fd' socks e in
    elim (Bool-cases (ltb port p)) [
      | inl before ↦ rw (before, find_socket, ==_refl port) refl
      | inr behind ↦ rw (behind, find_socket, other, find-insert_socket port fd socks later) refl
    ]

erase-insert_socket :
    (port fd : ℕ) (socks : Sockets)
    → find_socket port socks ≡ none
    → erase_socket port (insert_socket port fd socks) ≡ socks
unfolding insert_socket erase_socket
erase-insert_socket port fd [] e = rw (==_refl port) refl
erase-insert_socket port fd ((p, fd') ∷ socks) e =
    let (other, later) = find_socket-tail port p fd' socks e in
    elim (Bool-cases (ltb port p)) [
      | inl before ↦
          rw (before, erase_socket, ==_refl port) (erase_socket_absent port ((p, fd') ∷ socks) e)
      | inr behind ↦ rw (behind, erase_socket, other, erase-insert_socket port fd socks later) refl
    ]

module _ {C : Type 0} where
  take_callback-append :
      (h : ℕ) (cbs : List (Callback C)) (cb : Callback C)
      → All (λ (x : Callback C). suc x.handle ≤ h) cbs
      → cb.handle ≡ h
      → take_callback h (cbs ++ (cb ∷ [])) ≡ some (cb, cbs)
  unfolding take_callback
  take_callback-append h [] cb below e =
      let same : (cb.handle == h) ≡ true = ground arith in rw same refl
  take_callback-append h (x ∷ cbs) cb (b, below) e =
      let other : (x.handle == h) ≡ false = ground arith in
      rw (other, take_callback-append h cbs cb below e) refl

module _ {C : Type 0} (u : Udp C) (port : ℕ) (callback : C) where
  abbrev pub new_callback : Callback C
  new_callback = record { handle = u.callback_id_counter + 1; callback = callback; port = port }

  -- What `onReceive` leaves, where `openSocket` gives `opened` if it is called: the members with the
  -- callback and the sockets, or nothing new.
  abbrev pub Registers : Option ℕ → Option (Option ℕ × Udp C) → Type 0
  Registers opened none = Unit
  Registers opened (some (none, u')) =
      (u' ≡ u) × (find_socket port u.open_sockets ≡ none) × (opened ≡ none)
  Registers opened (some (some handle, u')) =
      (handle ≡ u.callback_id_counter + 1)
      × (socks : Sockets) × (u' ≡ record {
        open_sockets = socks;
        callbacks = u.callbacks ++ (new_callback ∷ []);
        callback_id_counter = u.callback_id_counter + 1;
        has_read_task = true;
      })
      × (((is_open u.open_sockets port ≡ true) × (socks ≡ u.open_sockets))
          ⊎ ((find_socket port u.open_sockets ≡ none)
              × (fd : ℕ) × (opened ≡ some fd)
              × (socks ≡ insert_socket port fd u.open_sockets)))

  pub on_receive-Registers :
      (opening : Opening) → Registers (open_socket opening).0 (on_receive u port callback opening)
  unfolding on_receive register_on register
  on_receive-Registers opening = elim (Option-cases (find_socket port u.open_sockets)) [
    | inr (fd, e) ↦ elim (Bool-cases (leb (2 ^ 31 - 1) u.callback_id_counter)) [
      | inl full ↦ rw (e, register_on, full) tt
      | inr room ↦
          rw (e, register_on, room) (refl, u.open_sockets, refl, inl (rw (is_open, e) refl, refl))
    ]
    | inl e ↦ elim (Option-cases (open_socket opening).0) [
      | inl failed ↦ rw (e, failed) (refl, e, refl)
      | inr (fd, opened) ↦ elim (Bool-cases (leb (2 ^ 31 - 1) u.callback_id_counter)) [
        | inl full ↦ rw (e, opened, register_on, full) tt
        | inr room ↦
            rw (e, opened, register_on, room)
              (refl, insert_socket port fd u.open_sockets, refl, inr (e, fd, refl, refl))
      ]
    ]
  ]

  -- To remove a callback as soon as it is registered leaves what was there, but for the counter and the
  -- task, and closes the socket that was opened for it and nothing else; one that others use stays
  -- open. The ports with sockets are those with callbacks, the handles come from the counter, and the
  -- erased entry still reads as its descriptor.
  pub remove_callback-on_receive :
      (opening : Opening) (handle : ℕ) (u' : Udp C) (erased : ℕ → ℕ)
      → ((fd : ℕ) → erased fd ≡ fd)
      → IsServed u
      → IsCounted u
      → on_receive u port callback opening ≡ some (some handle, u')
      → remove_callback u' handle erased ≡ (
        record u { callback_id_counter = handle; has_read_task = true },
        given_back (find_socket port u.open_sockets) (open_socket opening).0,
      )
  unfolding remove_callback remove_taken drop_socket
  remove_callback-on_receive opening handle u' erased intact served counted e =
      let (h, socks, shape, rest) = rw e at (on_receive-Registers opening) in
      let below =
        All-imp (λ (cb : Callback C). cb.handle ≤ u.callback_id_counter)
          (λ (cb : Callback C). suc cb.handle ≤ u.callback_id_counter + 1) u.callbacks
          (λ cb k. omega arith) counted in
      let taken =
        take_callback-append (u.callback_id_counter + 1) u.callbacks new_callback below refl in
      elim rest [
        | inl (shared, same) ↦
            let none_closed =
              given_back-is_open port u.open_sockets (open_socket opening).0 shared in
            rw (h, shape, same, taken, served port, shared, none_closed) refl
        | inr (shut, fd, opened, same) ↦
            let unserved : serves u.callbacks port ≡ false =
              served port ∙ rw (is_open, shut) refl in
            rw
              (
                h,
                shape,
                same,
                taken,
                unserved,
                find-insert_socket port fd u.open_sockets shut,
                erase-insert_socket port fd u.open_sockets shut,
                shut,
                opened,
                intact fd,
              )
              refl
      ]
