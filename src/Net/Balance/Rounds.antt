-- ===== src/Net/Balance/Rounds.antt =====
-- A round of the reading task creates and closes in balance: a socket that is opened again takes the
-- place of the one that was closed for it.
use rb3201_rbprotocol_librar.Prelude.{
  ℕ, ◌+◌, ◌≡◌, refl, Option, none, some, List, [], ◌∷◌, ◌++◌, ◌==◌, arith,
}
use rb3201_rbprotocol_librar.Net.{Callback, Sockets, Opening, Effect, closed, open_socket}
use rb3201_rbprotocol_librar.Net.Read.{
  Call, Visit, Pending, no_datagram, bad_descriptor, datagram, popped, pop_ebadf, pop_error,
  attempt, reopen_socket_locked, reopened, read_socket, follow, read_sockets,
}
use rb3201_rbprotocol_librar.Net.Balance.{
  one_if, opens, closes, holders, of_option, opens-append, closes-append, open_socket_balance,
}

-- What a visit that has a result did, from the descriptor it began with.
abbrev Balanced : {A : Type 0} → ℕ → ℕ → Option (ℕ × A × List Effect) → Type 0
Balanced g before none = Unit
Balanced g before (some (fd, a, es)) = opens g es + before ≡ closes g es + one_if (fd == g)

abbrev BalancedPair : ℕ → ℕ → Option (ℕ × List Effect) → Type 0
BalancedPair g before none = Unit
BalancedPair g before (some (fd, es)) = opens g es + before ≡ closes g es + one_if (fd == g)

attempt-BalancedPair : (g : ℕ) (os : List Opening) → BalancedPair g 0 (attempt os)
unfolding attempt
attempt-BalancedPair g [] = tt
attempt-BalancedPair g (o ∷ os) =
    go (open_socket o).0 (open_socket o).1 (open_socket_balance g o) (attempt os)
      (attempt-BalancedPair g os)
  where
    go :
        (r : Option ℕ) (es : List Effect)
        → opens g es ≡ closes g es + of_option g r
        → (later : Option (ℕ × List Effect)) → BalancedPair g 0 later
        → BalancedPair g 0 (elim r [
          | some fd ↦ some (fd, es)
          | none ↦ elim later [ none ↦ none | some (fd, effects) ↦ some (fd, es ++ effects) ]
        ])
    go (some fd) es b later k = omega arith
    go none es b none k = tt
    go none es b (some (fd, effects)) k =
        omega (arith, opens-append g es effects, closes-append g es effects)

reopen_socket_locked-BalancedPair :
    (g fd : ℕ) (os : List Opening) → BalancedPair g (one_if (fd == g)) (reopen_socket_locked fd os)
unfolding reopen_socket_locked
reopen_socket_locked-BalancedPair g fd os = go (attempt os) (attempt-BalancedPair g os)
  where
    go :
        (r : Option (ℕ × List Effect))
        → BalancedPair g 0 r
        → BalancedPair g
            (one_if (fd == g))
            (elim r [ none ↦ none | some (fd', effects) ↦ some (fd', closed fd ∷ effects) ])
    go none k = tt
    go (some (fd', effects)) k = omega arith

reopened-Balanced :
    (C : Type 0) (g before : ℕ) (r : Option (ℕ × List Effect))
    → BalancedPair g before r
    → Balanced g before (reopened {C = C} r)
unfolding reopened
reopened-Balanced C g before none k = tt
reopened-Balanced C g before (some (fd, es)) k = k

module _ {C : Type 0} where
  read_socket-Balanced :
      (g : ℕ) (cbs : List (Callback C)) (port fd capacity : ℕ) (os : List Opening) (p : Pending)
      → Balanced g (one_if (fd == g)) (read_socket cbs port fd capacity os p)
  unfolding read_socket
  read_socket-Balanced g cbs port fd capacity os no_datagram = refl
  read_socket-Balanced g cbs port fd capacity os bad_descriptor =
      reopened-Balanced C g (one_if (fd == g)) (reopen_socket_locked fd os)
        (reopen_socket_locked-BalancedPair g fd os)
  read_socket-Balanced g cbs port fd capacity os (datagram message ip popped) = refl
  read_socket-Balanced g cbs port fd capacity os (datagram message ip pop_ebadf) =
      reopened-Balanced C g (one_if (fd == g)) (reopen_socket_locked fd os)
        (reopen_socket_locked-BalancedPair g fd os)
  read_socket-Balanced g cbs port fd capacity os (datagram message ip pop_error) = refl

  abbrev pub BalancedRound : ℕ → Sockets → Option (Sockets × List (Call C) × List Effect) → Type 0
  BalancedRound g socks none = Unit
  BalancedRound g socks (some (socks', calls, es)) =
      opens g es + holders g socks ≡ closes g es + holders g socks'

  follow-BalancedRound :
      (g port fd : ℕ) (socks : Sockets) (visit : Option (ℕ × List (Call C) × List Effect))
      (later : Option (Sockets × List (Call C) × List Effect))
      → Balanced g (one_if (fd == g)) visit
      → BalancedRound g socks later
      → BalancedRound g ((port, fd) ∷ socks) (follow port visit later)
  unfolding follow
  follow-BalancedRound g port fd socks none later b k = tt
  follow-BalancedRound g port fd socks (some (fd', calls, es)) none b k = tt
  follow-BalancedRound g port fd socks (some (fd', calls, es)) (some (socks', calls', es')) b k =
      omega (arith, opens-append g es es', closes-append g es es')

  pub read_sockets-BalancedRound :
      (g : ℕ) (cbs : List (Callback C)) (socks : Sockets) (visits : ℕ → Visit)
      → BalancedRound g socks (read_sockets cbs socks visits)
  unfolding read_sockets
  read_sockets-BalancedRound g cbs [] visits = refl
  read_sockets-BalancedRound g cbs ((port, fd) ∷ socks) visits =
      follow-BalancedRound g port fd socks
        (read_socket cbs port fd (visits port).capacity (visits port).attempts
          (visits port).pending)
        (read_sockets cbs socks visits)
        (read_socket-Balanced g cbs port fd (visits port).capacity (visits port).attempts
          (visits port).pending)
        (read_sockets-BalancedRound g cbs socks visits)
