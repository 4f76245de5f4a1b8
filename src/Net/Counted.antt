-- ===== src/Net/Counted.antt =====
-- The handles of `Udp` come from its counter, after every run.
use rb3201_rbprotocol_librar.Prelude.{
  ℕ, ◌+◌, ◌≤◌, inl, inr, Option, none, some, List, [], ◌∷◌, All, All-append, All-imp, Bool-cases,
  ◌==◌, arith,
}
use rb3201_rbprotocol_librar.Net.{
  Callback, Udp, Sockets, Effect, find_socket, take_callback, serves, open_socket, drop_socket,
  remove_taken, remove_callback,
}
use rb3201_rbprotocol_librar.Net.Read.{Call, Visit, read_sockets, read_task}
use rb3201_rbprotocol_librar.Net.Run.{Run, constructed, registered, removed, read}
use rb3201_rbprotocol_librar.Net.Restore.{IsCounted, Registers, new_callback, on_receive-Registers}

module _ {C : Type 0} where
  abbrev Below : ℕ → List (Callback C) → Type 0
  Below n cbs = All (λ (cb : Callback C). cb.handle ≤ n) cbs

  -- The callbacks that are left were there before.
  abbrev TakenBelow : ℕ → Option (Callback C × List (Callback C)) → Type 0
  TakenBelow n none = Unit
  TakenBelow n (some (cb, others)) = Below n others

  take_callback-Below :
      (n h : ℕ) (cbs : List (Callback C)) → Below n cbs → TakenBelow n (take_callback h cbs)
  unfolding take_callback
  take_callback-Below n h [] b = tt
  take_callback-Below n h (x ∷ cbs) (bx, b) = elim (Bool-cases (x.handle == h)) [
    | inl same ↦ rw same b
    | inr other ↦ rw other (behind (take_callback h cbs) (take_callback-Below n h cbs b))
  ]
    where
      behind :
          (o : Option (Callback C × List (Callback C)))
          → TakenBelow n o
          → TakenBelow n (elim o [ none ↦ none | some (found, others) ↦ some (found, x ∷ others) ])
      behind none k = tt
      behind (some (found, others)) k = (bx, k)

  registered-IsCounted :
      (u : Udp C) (port : ℕ) (callback : C) (opened r : Option ℕ) (u' : Udp C)
      → IsCounted u
      → Registers u port callback opened (some (r, u'))
      → IsCounted u'
  registered-IsCounted u port callback opened none u' c (same, shut, failed) = rw same c
  registered-IsCounted u port callback opened (some handle) u' c (h, socks, shape, rest) =
      rw shape (
        All-append (λ (cb : Callback C). cb.handle ≤ u.callback_id_counter + 1) u.callbacks
          (new_callback u port callback ∷ [])
          (All-imp (λ (cb : Callback C). cb.handle ≤ u.callback_id_counter)
            (λ (cb : Callback C). cb.handle ≤ u.callback_id_counter + 1) u.callbacks
            (λ cb k. omega arith) c)
          (omega arith, tt))

  drop_socket-IsCounted :
      (u : Udp C) (port : ℕ) (erased : ℕ → ℕ) (o : Option ℕ)
      → IsCounted u
      → IsCounted (drop_socket u port erased o).0
  unfolding drop_socket
  drop_socket-IsCounted u port erased none c = c
  drop_socket-IsCounted u port erased (some fd) c = c

  remove_taken-IsCounted :
      (u : Udp C) (erased : ℕ → ℕ) (o : Option (Callback C × List (Callback C)))
      → IsCounted u
      → TakenBelow u.callback_id_counter o
      → IsCounted (remove_taken u erased o).0
  unfolding remove_taken
  remove_taken-IsCounted u erased none c k = c
  remove_taken-IsCounted u erased (some (info, others)) c k =
      elim (Bool-cases (serves others info.port)) [
        | inl more ↦ rw more k
        | inr last ↦ rw last (
            drop_socket-IsCounted (record u { callbacks = others }) info.port erased
              (find_socket info.port u.open_sockets) k)
      ]

  abbrev CountedRound : Option (Udp C × List (Call C) × List Effect) → Type 0
  CountedRound none = Unit
  CountedRound (some (u, calls, effects)) = IsCounted u

  read_task-IsCounted :
      (u : Udp C) (visits : ℕ → Visit) → IsCounted u → CountedRound (read_task u visits)
  unfolding read_task
  read_task-IsCounted u visits c = round (read_sockets u.callbacks u.open_sockets visits)
    where
      round :
          (o : Option (Sockets × List (Call C) × List Effect))
          → CountedRound (elim o [
            | none ↦ none
            | some (socks, calls, effects) ↦
                some (record u { open_sockets = socks }, calls, effects)
          ])
      round none = tt
      round (some (socks, calls, effects)) = c

module _ {C : Type 0} (reads : (ℕ → ℕ) → Type 0) where
  -- After every run, the handle of each callback has been given out by the counter, so that the next one
  -- is new.
  pub Run-IsCounted : (u : Udp C) (done : List Effect) → Run reads u done → IsCounted u
  unfolding remove_callback
  Run-IsCounted _ _ constructed = tt
  Run-IsCounted _ _ (registered u done port callback opening r u' run e) =
      registered-IsCounted u port callback (open_socket opening).0 r u' (Run-IsCounted u done run)
        (rw e at (on_receive-Registers u port callback opening))
  Run-IsCounted _ _ (removed u done handle erased run reading) =
      remove_taken-IsCounted u erased (take_callback handle u.callbacks) (Run-IsCounted u done run)
        (take_callback-Below u.callback_id_counter handle u.callbacks (Run-IsCounted u done run))
  Run-IsCounted _ _ (read u done visits u' calls effects run e) =
      rw e at (read_task-IsCounted u visits (Run-IsCounted u done run))
