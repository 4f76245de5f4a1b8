-- ===== src/Protocol/Tasks/Resend.antt =====
-- One pass of `resend_mustarrive_locked`, and fifteen of them.
use rb3201_rbprotocol_librar.Prelude.{
  ℕ, zero, suc, ◌+◌, ◌≤◌, ◌<◌, ◌≡◌, refl, ap, ◌∙◌, inl, inr, true, List, [], ◌∷◌, All, All-imp,
  Bool-cases, leb, arith,
}
use rb3201_rbprotocol_librar.Json.Value.{Members, NumberOps}
use rb3201_rbprotocol_librar.Protocol.State.{
  ProtocolAddr, udp, MustArrive, Protocol, must_arrive_attempts, is_mustarrive_complete,
}
use rb3201_rbprotocol_librar.Protocol.Invariant.Entries.{Ordered, Ordered-mono}
use rb3201_rbprotocol_librar.Protocol.Tasks.{resend_to, resend_loop, resend_mustarrive_locked}

module _ {F : Type 0} (nums : NumberOps F) where
  resend_to-eq :
      (p : Protocol F) (addr : ProtocolAddr) (pkt : Members F)
      → (resend_to nums p addr pkt).0
        ≡ record p { write_counter = (resend_to nums p addr pkt).0.write_counter }
  unfolding resend_to
  resend_to-eq p (udp ip port) pkt = elim (Bool-cases p.has_udp) [ inl e ↦ rw e | inr e ↦ rw e ]
  resend_to-eq p _ pkt = refl

  resend_loop-eq :
      (p : Protocol F) (ms : List (MustArrive F))
      → (resend_loop nums p ms).0
        ≡ record p { write_counter = (resend_loop nums p ms).0.write_counter }
  unfolding resend_loop
  resend_loop-eq p [] = refl
  resend_loop-eq p (m ∷ ms) =
      let q = (resend_to nums p p.possessed_addr m.pkt).0 in
      let counter = (resend_loop nums q ms).0.write_counter in
      resend_loop-eq q ms
      ∙ ap (λ (x : Protocol F). record x { write_counter = counter })
          (resend_to-eq p p.possessed_addr m.pkt)

  -- The entries that one pass keeps.
  abbrev pub kept : Protocol F → List (MustArrive F) → List (MustArrive F)
  kept p ms = (resend_loop nums p ms).1

  -- A pass changes the counter and the entries only.
  pub resend-eq :
      (p : Protocol F)
      → (resend_mustarrive_locked nums p).0 ≡ record p {
        write_counter = (resend_mustarrive_locked nums p).0.write_counter;
        mustarrive_queue = kept p p.mustarrive_queue;
      }
  unfolding resend_mustarrive_locked
  resend-eq p =
      ap (λ (x : Protocol F). record x { mustarrive_queue = kept p p.mustarrive_queue })
        (resend_loop-eq p p.mustarrive_queue)

  pub kept-Ordered :
      (lo e : ℕ) (p : Protocol F) (ms : List (MustArrive F))
      → Ordered lo e ms
      → Ordered lo e (kept p ms)
  unfolding resend_loop
  kept-Ordered lo e p [] o = o
  kept-Ordered lo e p (m ∷ ms) (a, b, o) =
      let q = (resend_to nums p p.possessed_addr m.pkt).0 in
      let later = kept-Ordered (m.id + 1) e q ms o in
      elim (Bool-cases (leb must_arrive_attempts (m.attempts + 1))) [
        | inl h ↦ rw h (Ordered-mono (m.id + 1) lo e (kept q ms) (omega arith) later)
        | inr h ↦ rw h (a, ground arith, later)
      ]

  -- Every entry that a pass keeps has one attempt more, and still less than the limit.
  pub kept_aged :
      (k : ℕ) (p : Protocol F) (ms : List (MustArrive F))
      → All (λ m. k ≤ m.attempts) ms
      → All (λ m. (k + 1 ≤ m.attempts) × (m.attempts < must_arrive_attempts)) (kept p ms)
  unfolding resend_loop
  kept_aged k p [] h = tt
  kept_aged k p (m ∷ ms) (a, h) =
      let q = (resend_to nums p p.possessed_addr m.pkt).0 in
      elim (Bool-cases (leb must_arrive_attempts (m.attempts + 1))) [
        | inl e ↦ rw e (kept_aged k q ms h)
        | inr e ↦ rw e ((omega arith, ground arith), kept_aged k q ms h)
      ]

  -- Several passes with no other call between them.
  unfoldable pub passes : ℕ → Protocol F → Protocol F
  passes zero p = p
  passes (suc n) p = passes n (resend_mustarrive_locked nums p).0

  -- At least `k` attempts made, and some left.
  abbrev pub Tried : ℕ → MustArrive F → Type 0
  Tried k m = (k ≤ m.attempts) × (m.attempts < must_arrive_attempts)

  Tried-All : (ms : List (MustArrive F)) → All (Tried must_arrive_attempts) ms → ms ≡ []
  Tried-All [] h = refl
  Tried-All (m ∷ ms) ((a, b), h) = absurd (omega arith)

  passes_empty :
      (n k : ℕ) (p : Protocol F)
      → must_arrive_attempts ≤ k + n
      → All (Tried k) p.mustarrive_queue
      → (passes n p).mustarrive_queue ≡ []
  unfolding passes
  passes_empty zero k p h t = Tried-All p.mustarrive_queue (
      All-imp (Tried k) (Tried must_arrive_attempts) p.mustarrive_queue (λ m t. (omega arith, t.1))
        t)
  passes_empty (suc n) k p h t =
      passes_empty n (k + 1) (resend_mustarrive_locked nums p).0 (omega arith) (
        rw (ap (λ (x : Protocol F). x.mustarrive_queue) (resend-eq p)) (
          kept_aged k p p.mustarrive_queue
            (All-imp (Tried k) (λ m. k ≤ m.attempts) p.mustarrive_queue (λ m t. t.0) t)))

  Ordered-Tried : (lo e : ℕ) (ms : List (MustArrive F)) → Ordered lo e ms → All (Tried 0) ms
  Ordered-Tried lo e [] o = tt
  Ordered-Tried lo e (m ∷ ms) (a, b, o) = ((omega arith, b), Ordered-Tried (m.id + 1) e ms o)

  -- Fifteen passes with no other call between them leave no entry, so every message counts as
  -- complete. The entries are in the order that every run of the protocol keeps.
  pub passes-is_mustarrive_complete :
      (lo : ℕ) (p : Protocol F) (id : ℕ)
      → Ordered lo p.mustarrive_e p.mustarrive_queue
      → ((passes must_arrive_attempts p).mustarrive_queue ≡ [])
        × (is_mustarrive_complete (passes must_arrive_attempts p) id ≡ true)
  unfolding is_mustarrive_complete
  passes-is_mustarrive_complete lo p id o =
      let done =
        passes_empty must_arrive_attempts 0 p (omega arith)
          (Ordered-Tried lo p.mustarrive_e p.mustarrive_queue o) in
      (done, rw done (ground arith))
