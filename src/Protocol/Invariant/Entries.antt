-- ===== src/Protocol/Invariant/Entries.antt =====
-- The entries of `m_mustarrive_queue`: increasing ids below the next one, and attempts to spare.
use rb3201_rbprotocol_librar.Prelude.{
  ℕ, ◌+◌, ◌≤◌, ◌<◌, ◌≡◌, refl, inl, inr, true, false, List, [], ◌∷◌, ◌++◌, Bool-cases, ==_iff, ◌==◌,
  arith, if◌then◌else◌,
}
use rb3201_rbprotocol_librar.Protocol.State.{MustArrive, must_arrive_attempts, no_entry}
use rb3201_rbprotocol_librar.Protocol.Handle.{erase_id}

module _ {F : Type 0} where
  -- Ids from `lo` on, increasing, below `e`; fewer attempts than the limit.
  abbrev pub Ordered : ℕ → ℕ → List (MustArrive F) → Type 0
  Ordered lo e [] = lo ≤ e
  Ordered lo e (m ∷ ms) =
      (lo ≤ m.id) × (m.attempts < must_arrive_attempts) × Ordered (m.id + 1) e ms

  pub Ordered-mono :
      (lo lo' e : ℕ) (ms : List (MustArrive F)) → lo' ≤ lo → Ordered lo e ms → Ordered lo' e ms
  Ordered-mono lo lo' e [] h o = omega arith
  Ordered-mono lo lo' e (m ∷ ms) h (a, b, o) = (omega arith, b, o)

  pub Ordered-snoc :
      (lo e : ℕ) (ms : List (MustArrive F)) (m : MustArrive F)
      → m.id ≡ e
      → m.attempts ≡ 0
      → Ordered lo e ms
      → Ordered lo (e + 1) (ms ++ (m ∷ []))
  Ordered-snoc lo e [] m h z o = (omega arith, omega arith, omega arith)
  Ordered-snoc lo e (k ∷ ms) m h z (a, b, o) = (a, b, Ordered-snoc (k.id + 1) e ms m h z o)

  pub Ordered-erase_id :
      (lo e id : ℕ) (ms : List (MustArrive F)) → Ordered lo e ms → Ordered lo e (erase_id id ms)
  unfolding erase_id
  Ordered-erase_id lo e id [] o = o
  Ordered-erase_id lo e id (m ∷ ms) (a, b, o) = elim (Bool-cases (m.id == id)) [
    | inl h ↦ rw h (Ordered-mono (m.id + 1) lo e ms (omega arith) o)
    | inr h ↦ rw h (a, b, Ordered-erase_id (m.id + 1) e id ms o)
  ]

  -- An id below all of them has no entry.
  pub no_entry_below :
      (id lo e : ℕ) (ms : List (MustArrive F)) → id < lo → Ordered lo e ms → no_entry id ms ≡ true
  unfolding no_entry
  no_entry_below id lo e [] h o = refl
  no_entry_below id lo e (m ∷ ms) h (a, b, o) =
      ground (arith, no_entry_below id (m.id + 1) e ms (omega arith) o)

  -- An erased id has no entry left: ids do not repeat.
  pub no_entry-erase_id :
      (id lo e : ℕ) (ms : List (MustArrive F))
      → Ordered lo e ms
      → no_entry id (erase_id id ms) ≡ true
  unfolding no_entry erase_id
  no_entry-erase_id id lo e [] o = refl
  no_entry-erase_id id lo e (m ∷ ms) (a, b, o) = elim (Bool-cases (m.id == id)) [
    | inl h ↦ rw h (no_entry_below id (m.id + 1) e ms (omega (arith, (==_iff m.id id).0 h)) o)
    | inr h ↦ rw (h, h) (no_entry-erase_id id (m.id + 1) e ms o)
  ]

  -- Another id has an entry as before.
  pub no_entry-erase_id_ne :
      (id other : ℕ) (ms : List (MustArrive F))
      → (other == id) ≡ false
      → no_entry other (erase_id id ms) ≡ no_entry other ms
  unfolding no_entry erase_id
  no_entry-erase_id_ne id other [] h = refl
  no_entry-erase_id_ne id other (m ∷ ms) h = ground (arith, no_entry-erase_id_ne id other ms h)

  pub no_entry-snoc :
      (id : ℕ) (ms : List (MustArrive F)) (m : MustArrive F)
      → no_entry id (ms ++ (m ∷ [])) ≡ (if m.id == id then false else no_entry id ms)
  unfolding no_entry
  no_entry-snoc id [] m = refl
  no_entry-snoc id (k ∷ ms) m = ground (arith, no_entry-snoc id ms m)
