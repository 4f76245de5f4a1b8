-- ===== src/Dns/Server/Reached.antt =====
-- Starts and stops of the DNS responder in any order, while its tasks run.
use rb3201_rbprotocol_librar.Prelude.{
  ℕ, zero, suc, ◌+◌, ◌-◌, ◌≤◌, ◌≡◌, refl, Bool, true, false, Option, none, some, Bytes, [],
  Bool-cases, inl, inr, arith,
}
use rb3201_rbprotocol_librar.Dns.Server.{
  DnsServer, Binding, new_server, or_default, start_with, start, stop,
}

-- The states that a server comes to. A task ends only while the socket is closed.
pub data Reached {F : Type 0} (wifi_ip : F) : DnsServer F → Type 0 where
  constructed : Reached wifi_ip new_server
  started :
      (s : DnsServer F) (hostname : Bytes) (get_ip : Option F) (b : Binding)
      → Reached wifi_ip s
      → Reached wifi_ip (start wifi_ip s hostname get_ip b).0
  stopped : (s : DnsServer F) → Reached wifi_ip s → Reached wifi_ip (stop s).0
  task_ended :
      (s : DnsServer F)
      → s.socket ≡ none
      → 1 ≤ s.tasks
      → Reached wifi_ip s
      → Reached wifi_ip (record s { tasks = s.tasks - 1 })

module _ {F : Type 0} (wifi_ip : F) where
  -- Of the members: whether the server counts as started, its socket, its running tasks, and its function for the address.
  abbrev pub Consistent : Bool → Option ℕ → ℕ → Option F → Type 0
  Consistent false (some fd) tasks get_ip = ⊥
  Consistent false none tasks get_ip = Unit
  Consistent true none tasks get_ip = ⊥
  Consistent true (some fd) tasks none = ⊥
  Consistent true (some fd) tasks (some f) = 1 ≤ tasks

  abbrev pub IsConsistent : DnsServer F → Type 0
  IsConsistent s = Consistent s.has_task s.socket s.tasks s.get_local_ip

  start_with-IsConsistent :
      (s : DnsServer F) (f : F) (fd : Option ℕ) (bound : Bool)
      → s.has_task ≡ false
      → s.get_local_ip ≡ some f
      → IsConsistent (start_with s fd bound).0
  unfolding start_with
  start_with-IsConsistent s f none bound idle known = rw idle tt
  start_with-IsConsistent s f (some fd) false idle known = rw idle tt
  start_with-IsConsistent s f (some fd) true idle known = rw known (omega arith)

  start-IsConsistent :
      (s : DnsServer F) (hostname : Bytes) (get_ip : Option F) (b : Binding)
      → IsConsistent s
      → IsConsistent (start wifi_ip s hostname get_ip b).0
  unfolding start
  start-IsConsistent s hostname get_ip b h = elim (Bool-cases s.has_task) [
    | inl running ↦ rw (start, running) (rw running at h)
    | inr idle ↦
        let f = or_default wifi_ip get_ip in
        rw (start, idle)
          (start_with-IsConsistent
            (record s { local_hostname = hostname; get_local_ip = some f; has_task = false }) f b.fd
            b.bound refl refl)
  ]

  stop-IsConsistent : (s : DnsServer F) → IsConsistent s → IsConsistent (stop s).0
  unfolding stop
  stop-IsConsistent s h = elim (Bool-cases s.has_task) [
    | inl running ↦ rw (stop, running) tt
    | inr idle ↦ rw (stop, idle) (rw idle at h)
  ]

  task_ended-IsConsistent :
      (has_task : Bool) (socket : Option ℕ) (tasks : ℕ) (get_ip : Option F)
      → socket ≡ none
      → Consistent has_task socket tasks get_ip
      → Consistent has_task socket (tasks - 1) get_ip
  task_ended-IsConsistent false none tasks get_ip closed_ h = tt
  task_ended-IsConsistent false (some fd) tasks get_ip closed_ h = h
  task_ended-IsConsistent true none tasks get_ip closed_ h = h
  task_ended-IsConsistent true (some fd) tasks get_ip closed_ h = cc

  -- In every state that starts, stops and ends of tasks come to, in any order, a server that counts as started has an open socket,
  -- at least one task that reads it, and a function for the address; one that does not has no
  -- socket.
  pub Reached-IsConsistent : (s : DnsServer F) → Reached wifi_ip s → IsConsistent s
  Reached-IsConsistent s constructed = tt
  Reached-IsConsistent s (started s' hostname get_ip b r) =
      start-IsConsistent s' hostname get_ip b (Reached-IsConsistent s' r)
  Reached-IsConsistent s (stopped s' r) = stop-IsConsistent s' (Reached-IsConsistent s' r)
  Reached-IsConsistent s (task_ended s' closed_ more r) =
      task_ended-IsConsistent s'.has_task s'.socket s'.tasks s'.get_local_ip closed_
        (Reached-IsConsistent s' r)

  restarted :
      (s : DnsServer F) (fd : ℕ)
      → s.has_task ≡ true
      → ((start wifi_ip (stop s).0 [] none (record { fd = some fd; bound = true })).0.tasks
          ≡ s.tasks + 1)
        × ((start wifi_ip (stop s).0 [] none (record { fd = some fd; bound = true })).0.has_task
            ≡ true)
  unfolding start stop start_with
  restarted s fd running = rw (running) (refl, refl)

  -- Any number of tasks can come to run at the same time: a start right behind a stop gives a socket to the
  -- tasks that have not yet seen that theirs was closed, and one more task.
  Reached-tasks :
      (n : ℕ) → (s : DnsServer F) × Reached wifi_ip s × (s.has_task ≡ true) × (s.tasks ≡ n + 1)
  unfolding start start_with
  Reached-tasks zero = (
    (start wifi_ip new_server [] none (record { fd = some 1; bound = true })).0,
    started new_server [] none (record { fd = some 1; bound = true }) constructed,
    refl,
    refl,
  )
  Reached-tasks (suc n) =
      let (s, r, running, count) = Reached-tasks n in
      let (more, still) = restarted s 1 running in
      (
        (start wifi_ip (stop s).0 [] none (record { fd = some 1; bound = true })).0,
        started (stop s).0 [] none (record { fd = some 1; bound = true }) (stopped s r),
        still,
        omega (arith, more, count),
      )
