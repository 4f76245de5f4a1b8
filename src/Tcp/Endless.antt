-- ===== src/Tcp/Endless.antt =====
-- Rounds of `readTask` that go on for ever.
use rb3201_rbprotocol_librar.Prelude.{
  ℕ, suc, ◌-◌, ◌≤◌, ◌≡◌, refl, ap, ◌∙◌, true, false, Option, none, some, List, [], ◌∷◌, ◌++◌, Bytes,
  All, ltb, arith, Option-cases, inl, inr,
}
use rb3201_rbprotocol_librar.Net.{Effect}
use rb3201_rbprotocol_librar.Tcp.{TcpCallback, TcpSocketReal, is_some_fd, destroy}
use rb3201_rbprotocol_librar.Tcp.Read.{
  Ending, closed_by_peer, bad_descriptor, would_block, other_failure, Conn, arrive, at_ending,
  take_unread, recv, Inner, ran_out, dropped, delivers, inner_loop, Visit, TcpCall, call_all,
  redial, reopen_socket_locked, reconnected, after_inner, read_round, read_task,
}
use rb3201_rbprotocol_librar.Tcp.Stream.{stream, Accounts, inner_loop-open, read_task-round}
use rb3201_rbprotocol_librar.Tcp.Whole.{calm}

inner_loop-closed :
    (fuel fd size : ℕ)
    → 1 ≤ size
    → inner_loop (suc fuel) (some fd) size [] (calm closed_by_peer [])
      ≡ delivers [] (calm closed_by_peer [])
unfolding inner_loop recv take_unread arrive at_ending
inner_loop-closed fuel fd size room =
    let some_room : ltb 0 (size - 0) ≡ true = ground arith in rw some_room refl

module _ {C : Type 0} where
  -- So many rounds that call every callback with nothing.
  abbrev pub empty_calls : List (TcpCallback C) → List Visit → List (TcpCall C)
  empty_calls cbs [] = []
  empty_calls cbs (v ∷ vs) = call_all cbs [] ++ empty_calls cbs vs

  read_round-closed :
      (t : TcpSocketReal C) (v : Visit) (fd : ℕ)
      → t.fd ≡ some fd
      → 1 ≤ v.capacity
      → read_round t v (calm closed_by_peer [])
        ≡ some (t, calm closed_by_peer [], call_all t.callbacks [], [])
  unfolding read_round after_inner
  read_round-closed t v fd e room = ap (after_inner t v) (
      ap (λ o. inner_loop 66 o v.capacity [] (calm closed_by_peer [])) e
      ∙ inner_loop-closed 65 fd v.capacity room)

  -- Behind the end of the stream, every round calls every callback with no bytes at all: the task never ends and
  -- never connects again, however many rounds there are.
  read_task-closed :
      (vs : List Visit) (t : TcpSocketReal C) (fd : ℕ)
      → t.fd ≡ some fd
      → All (λ (v : Visit). 1 ≤ v.capacity) vs
      → read_task t (calm closed_by_peer []) vs
        ≡ some (false, t, calm closed_by_peer [], empty_calls t.callbacks vs)
  unfolding read_task is_some_fd
  read_task-closed [] t fd e room = refl
  read_task-closed (v ∷ vs) t fd e (r, room) =
      read_task-round t t (calm closed_by_peer []) (calm closed_by_peer []) (calm closed_by_peer [])
        v vs (call_all t.callbacks []) (empty_calls t.callbacks vs) []
        (read_round-closed t v fd e r) (ap is_some_fd e) (read_task-closed vs t fd e room)

-- Some attempt to connect again succeeds.
abbrev pub IsReachable : Visit → Type 0
IsReachable v = (p : ℕ × List Effect) × (redial v.dials ≡ some p)

module _ {C : Type 0} where
  abbrev Lives : Option (TcpSocketReal C × Conn × List (TcpCall C) × List Effect) → Type 0
  Lives none = ⊥
  Lives (some (t, c, calls, effects)) = is_some_fd t.fd ≡ true

  reconnected-Lives :
      (t : TcpSocketReal C) (v : Visit)
      → IsReachable v
      → Lives (reconnected t v.next (reopen_socket_locked t.fd v.dials))
  unfolding reconnected reopen_socket_locked is_some_fd
  reconnected-Lives t v (p, e) = rw (Lives, reopen_socket_locked, e) refl

  after_inner-Lives :
      (t : TcpSocketReal C) (v : Visit) (s : Bytes) (ending : Ending) (i : Inner)
      → is_some_fd t.fd ≡ true
      → IsReachable v
      → Accounts s ending i
      → Lives (after_inner t v i)
  unfolding after_inner
  after_inner-Lives t v s ending ran_out alive reachable h = h
  after_inner-Lives t v s ending (dropped content bad_descriptor c) alive reachable h =
      reconnected-Lives t v reachable
  after_inner-Lives t v s ending (dropped content would_block c) alive reachable h = alive
  after_inner-Lives t v s ending (dropped content closed_by_peer c) alive reachable h = alive
  after_inner-Lives t v s ending (dropped content other_failure c) alive reachable h = alive
  after_inner-Lives t v s ending (delivers content c) alive reachable h = alive

  inner_loop-none :
      (t : TcpSocketReal C) (size : ℕ) (c : Conn)
      → t.fd ≡ none
      → inner_loop 66 t.fd size [] c ≡ dropped [] bad_descriptor c
  unfolding inner_loop recv
  inner_loop-none t size c e = ap (λ o. inner_loop 66 o size [] c) e

  read_round-Lives :
      (t : TcpSocketReal C) (v : Visit) (c : Conn) → IsReachable v → Lives (read_round t v c)
  unfolding read_round is_some_fd after_inner
  read_round-Lives t v c reachable = elim (Option-cases t.fd) [
    | inl gone ↦ rw (inner_loop-none t v.capacity c gone) (reconnected-Lives t v reachable)
    | inr (fd, e) ↦
        after_inner-Lives t v (stream c) c.ending (inner_loop 66 t.fd v.capacity [] c)
          (ap is_some_fd e) reachable (inner_loop-open fd t.fd v.capacity c e)
  ]

  Lives-some :
      (o : Option (TcpSocketReal C × Conn × List (TcpCall C) × List Effect))
      → Lives o
      → (t : TcpSocketReal C) × (c : Conn) × (calls : List (TcpCall C)) × (effects : List Effect)
        × (o ≡ some (t, c, calls, effects))
        × (is_some_fd t.fd ≡ true)
  Lives-some none h = absurd h
  Lives-some (some (t, c, calls, effects)) h = (t, c, calls, effects, refl, h)

  read_task_endless :
      (vs : List Visit) (t : TcpSocketReal C) (c : Conn)
      → All IsReachable vs
      → (t' : TcpSocketReal C) × (c' : Conn) × (calls : List (TcpCall C)) × (read_task t c vs
          ≡ some (false, t', c', calls))
  unfolding read_task
  read_task_endless [] t c reachable = (t, c, [], refl)
  read_task_endless (v ∷ vs) t c (r, reachable) =
      let (t', c', calls, effects, done, alive) =
        Lives-some (read_round t v c) (read_round-Lives t v c r) in
      let (t'', c'', calls', later) = read_task_endless vs t' c' reachable in
      (
        t'',
        c'',
        calls ++ calls',
        read_task-round t t' c c' c'' v vs calls calls' effects done alive later,
      )

  -- The destructor waits for a task that never ends: if the task is in its delay when the destructor closes the
  -- connection, then it connects again and reads on, however many rounds it gets, as long as some attempt to connect
  -- succeeds in each of them.
  pub destroy-read_task :
      (vs : List Visit) (t : TcpSocketReal C) (c : Conn)
      → All IsReachable vs
      → ((destroy t).0.fd ≡ none)
        × (t' : TcpSocketReal C) × (c' : Conn) × (calls : List (TcpCall C)) × (read_task
              (destroy t).0
              c
              vs
            ≡ some (false, t', c', calls))
  unfolding destroy
  destroy-read_task vs t c reachable =
      let (t', c', calls, later) = read_task_endless vs (destroy t).0 c reachable in
      (refl, t', c', calls, later)
