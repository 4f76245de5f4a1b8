-- ===== src/Net/Run.antt =====
-- Runs of `Udp`: its methods and the rounds of its task, in any order.
use rb3201_rbprotocol_librar.Prelude.{
  ℕ, ◌≡◌, refl, sym, ◌∙◌, false, ◌||◌, Option, none, some, inl, inr, Bool-cases, Option-cases, List,
  [], ◌∷◌, ◌++◌, ◌==◌, ==_iff, arith,
}
use rb3201_rbprotocol_librar.Net.{
  Callback, Udp, Sockets, Opening, Effect, open_socket, find_socket, insert_socket, register,
  register_on, on_receive, on_receive_effects, serves, remove_callback,
}
use rb3201_rbprotocol_librar.Net.Served.{
  is_open, is_open-insert_socket, IsServed, Keeps, register-IsServed, remove_callback-IsServed,
}
use rb3201_rbprotocol_librar.Net.Read.{Call, Visit, read_socket, follow, read_sockets, read_task}

open_already :
    (socks : Sockets) (port fd q : ℕ)
    → find_socket port socks ≡ some fd
    → is_open socks q ≡ (port == q) || is_open socks q
open_already socks port fd q e = elim (Bool-cases (port == q)) [
  | inl same ↦ let at_q = rw ((==_iff port q).0 same) at e in rw (is_open, at_q, same) refl
  | inr other ↦ rw other refl
]

module _ {C : Type 0} where
  -- The constructor.
  abbrev pub fresh : Udp C
  fresh = record {
    open_sockets = [];
    callbacks = [];
    callback_id_counter = 0;
    has_read_task = false;
  }

module _ {C : Type 0} (reads : (ℕ → ℕ) → Type 0) where
  -- What a run leads to, with all that it did to descriptors in order. `reads` says how the map entries
  -- that were erased may still read.
  pub data Run : Udp C → List Effect → Type 0 where
    constructed : Run fresh []
    registered :
        (u : Udp C) (done : List Effect) (port : ℕ) (callback : C) (opening : Opening)
        (r : Option ℕ) (u' : Udp C)
        → Run u done
        → on_receive u port callback opening ≡ some (r, u')
        → Run u' (done ++ on_receive_effects u port opening)
    removed :
        (u : Udp C) (done : List Effect) (handle : ℕ) (erased : ℕ → ℕ)
        → Run u done
        → reads erased
        → Run (remove_callback u handle erased).0 (done ++ (remove_callback u handle erased).1)
    read :
        (u : Udp C) (done : List Effect) (visits : ℕ → Visit) (u' : Udp C) (calls : List (Call C))
        (effects : List Effect)
        → Run u done
        → read_task u visits ≡ some (u', calls, effects)
        → Run u' (done ++ effects)

module _ {C : Type 0} where
  handle-Keeps :
      (o : Option (ℕ × Udp C))
      → Keeps o
      → Keeps {A = Option ℕ} (elim o [ none ↦ none | some (h, u) ↦ some (some h, u) ])
  handle-Keeps none k = tt
  handle-Keeps (some (h, u)) k = k

  register_on-IsServed :
      (u : Udp C) (port : ℕ) (callback : C) (opened : Option ℕ)
      → IsServed u
      → Keeps (register_on u port callback (find_socket port u.open_sockets) opened)
  unfolding register_on
  register_on-IsServed u port callback opened h =
      elim (Option-cases (find_socket port u.open_sockets)) [
        | inr (fd, e) ↦ rw e (
            handle-Keeps (register u u.open_sockets port callback) (
              register-IsServed u h u.open_sockets port callback
                (λ q. open_already u.open_sockets port fd q e)))
        | inl e ↦ rw e (open_new opened)
      ]
    where
      open_new : (o : Option ℕ) → Keeps (register_on u port callback none o)
      open_new none = h
      open_new (some fd) =
          handle-Keeps (register u (insert_socket port fd u.open_sockets) port callback) (
            register-IsServed u h (insert_socket port fd u.open_sockets) port callback
              (is_open-insert_socket port fd u.open_sockets))

  -- The sockets that a round leaves are on the same ports.
  abbrev pub SamePorts : Sockets → Option (Sockets × List (Call C) × List Effect) → Type 0
  SamePorts socks none = Unit
  SamePorts socks (some (socks', calls, effects)) = (q : ℕ) → is_open socks' q ≡ is_open socks q

  follow-SamePorts :
      (port fd : ℕ) (socks : Sockets) (visit : Option (ℕ × List (Call C) × List Effect))
      (later : Option (Sockets × List (Call C) × List Effect))
      → SamePorts socks later
      → SamePorts ((port, fd) ∷ socks) (follow port visit later)
  unfolding follow find_socket
  follow-SamePorts port fd socks none later h = tt
  follow-SamePorts port fd socks (some (fd', calls, effects)) none h = tt
  follow-SamePorts port fd socks (some (fd', calls, effects)) (some (socks', calls', effects')) h =
      λ q. let same = h q in ground (arith, same)

  pub read_sockets-SamePorts :
      (cbs : List (Callback C)) (socks : Sockets) (visits : ℕ → Visit)
      → SamePorts socks (read_sockets cbs socks visits)
  unfolding read_sockets
  read_sockets-SamePorts cbs [] visits = λ q. refl
  read_sockets-SamePorts cbs ((port, fd) ∷ socks) visits =
      follow-SamePorts port fd socks
        (read_socket cbs port fd (visits port).capacity (visits port).attempts
          (visits port).pending)
        (read_sockets cbs socks visits) (read_sockets-SamePorts cbs socks visits)

  abbrev KeepsRound : Option (Udp C × List (Call C) × List Effect) → Type 0
  KeepsRound none = Unit
  KeepsRound (some (u, calls, effects)) = IsServed u

  read_task-IsServed :
      (u : Udp C) (visits : ℕ → Visit) → IsServed u → KeepsRound (read_task u visits)
  unfolding read_task
  read_task-IsServed u visits h =
      go (read_sockets u.callbacks u.open_sockets visits)
        (read_sockets-SamePorts u.callbacks u.open_sockets visits)
    where
      go :
          (o : Option (Sockets × List (Call C) × List Effect))
          → SamePorts u.open_sockets o
          → KeepsRound (elim o [
            | none ↦ none
            | some (socks, calls, effects) ↦
                some (record u { open_sockets = socks }, calls, effects)
          ])
      go none k = tt
      go (some (socks, calls, effects)) k = λ q. h q ∙ sym (k q)

module _ {C : Type 0} (reads : (ℕ → ℕ) → Type 0) where
  -- After every run, a port has a map entry exactly if a callback is registered for it.
  pub Run-IsServed : (u : Udp C) (done : List Effect) → Run reads u done → IsServed u
  unfolding serves find_socket on_receive
  Run-IsServed _ _ constructed = λ port. refl
  Run-IsServed _ _ (registered u done port callback opening r u' run e) =
      let k =
        register_on-IsServed u port callback (open_socket opening).0 (Run-IsServed u done run) in
      rw e at k
  Run-IsServed _ _ (removed u done handle erased run reading) =
      remove_callback-IsServed u (Run-IsServed u done run) handle erased
  Run-IsServed _ _ (read u done visits u' calls effects run e) =
      let k = read_task-IsServed u visits (Run-IsServed u done run) in rw e at k
