-- ===== src/Json/Object/Sorted.antt =====
-- The invariant of the member vector, and the map laws of the operations under it.
use rb3201_rbprotocol_librar.Prelude.{
  ◌≡◌, refl, inl, inr, true, none, some, Bytes, Bool-cases, if◌then◌else◌,
}
use rb3201_rbprotocol_librar.Json.Value.{Value, Members, nil, no_members, member}
use rb3201_rbprotocol_librar.Json.Key.{clip}
use rb3201_rbprotocol_librar.Json.Key.Order.{lex, equal_bytes, IsText, lex_total, clip-IsText}
use rb3201_rbprotocol_librar.Json.Object.{get, set, remove}
use rb3201_rbprotocol_librar.Json.Object.Lookup.{
  IsNamed, put, delete, get-find, set-put, remove-delete, find-put, find-delete, Above, IsSorted,
  Above-lex,
}

module _ {F : Type 0} where
  -- The names are text of the stated lengths, in strictly increasing order.
  pub record IsValid (ms : Members F) : Type 0 where
    pub named : IsNamed ms
    pub sorted : IsSorted ms

  put-IsNamed :
      (ms : Members F) (k : Bytes) (v : Value F) → IsText k → IsNamed ms → IsNamed (put ms k v)
  unfolding put
  put-IsNamed no_members k v hk h = (hk, refl, tt)
  put-IsNamed (member n l old ms) k v hk (hn, hl, h) = elim (Bool-cases (lex n k)) [
    | inl e ↦ rw e (hn, hl, put-IsNamed ms k v hk h)
    | inr e ↦ rw e (elim (Bool-cases (equal_bytes n k)) [
      | inl d ↦ rw d (hn, hl, h)
      | inr d ↦ rw d (hk, refl, (hn, hl, h))
    ])
  ]

  Above-put :
      (ms : Members F) (n k : Bytes) (v : Value F)
      → lex n k ≡ true
      → Above n ms
      → Above n (put ms k v)
  unfolding put
  Above-put no_members n k v h a = h
  Above-put (member m l old ms) n k v h a = elim (Bool-cases (lex m k)) [
    | inl e ↦ rw e a
    | inr e ↦ rw e (elim (Bool-cases (equal_bytes m k)) [ inl d ↦ rw d a | inr d ↦ rw d h ])
  ]

  put-IsSorted : (ms : Members F) (k : Bytes) (v : Value F) → IsSorted ms → IsSorted (put ms k v)
  unfolding put
  put-IsSorted no_members k v h = (tt, tt)
  put-IsSorted (member n l old ms) k v (a, h) = elim (Bool-cases (lex n k)) [
    | inl e ↦ rw e (Above-put ms n k v e a, put-IsSorted ms k v h)
    | inr e ↦ rw e (elim (Bool-cases (equal_bytes n k)) [
      | inl d ↦ rw d (a, h)
      | inr d ↦ rw d (lex_total n k e d, (a, h))
    ])
  ]

  delete-IsNamed : (ms : Members F) (k : Bytes) → IsNamed ms → IsNamed (delete ms k)
  unfolding delete
  delete-IsNamed no_members k h = tt
  delete-IsNamed (member n l old ms) k (hn, hl, h) = elim (Bool-cases (lex n k)) [
    | inl e ↦ rw e (hn, hl, delete-IsNamed ms k h)
    | inr e ↦
        rw e (elim (Bool-cases (equal_bytes n k)) [ inl d ↦ rw d h | inr d ↦ rw d (hn, hl, h) ])
  ]

  Above-tail : (ms : Members F) (n m : Bytes) → lex n m ≡ true → Above m ms → Above n ms
  Above-tail ms n m h a = Above-lex ms n m h a

  Above-delete : (ms : Members F) (n k : Bytes) → IsSorted ms → Above n ms → Above n (delete ms k)
  unfolding delete
  Above-delete no_members n k h a = tt
  Above-delete (member m l old ms) n k (b, h) a = elim (Bool-cases (lex m k)) [
    | inl e ↦ rw e a
    | inr e ↦ rw e (elim (Bool-cases (equal_bytes m k)) [
      | inl d ↦ rw d (Above-lex ms n m a b)
      | inr d ↦ rw d a
    ])
  ]

  delete-IsSorted : (ms : Members F) (k : Bytes) → IsSorted ms → IsSorted (delete ms k)
  unfolding delete
  delete-IsSorted no_members k h = tt
  delete-IsSorted (member n l old ms) k (a, h) = elim (Bool-cases (lex n k)) [
    | inl e ↦ rw e (Above-delete ms n k h a, delete-IsSorted ms k h)
    | inr e ↦ rw e (elim (Bool-cases (equal_bytes n k)) [ inl d ↦ rw d h | inr d ↦ rw d (a, h) ])
  ]

  -- Setting and removing keep the vector sorted, so that its binary search stays defined.
  pub set-remove-IsValid :
      (ms : Members F) (key : Bytes) (v : Value F)
      → IsValid ms
      → IsText key
      → IsValid (set ms key v) × IsValid (remove ms key)
  set-remove-IsValid ms key v h hk = (
    rw (set-put ms key v h.named hk) (record {
      named = put-IsNamed ms (clip key) v (clip-IsText key hk) h.named;
      sorted = put-IsSorted ms (clip key) v h.sorted;
    }),
    rw (remove-delete ms key h.named hk) (record {
      named = delete-IsNamed ms (clip key) h.named;
      sorted = delete-IsSorted ms (clip key) h.sorted;
    }),
  )

  -- Reading after a write: the written value under every key with the same first 254 bytes, and
  -- what was there under any other key.
  pub get-set :
      (ms : Members F) (key other : Bytes) (v : Value F)
      → IsValid ms
      → IsText key
      → IsText other
      → get (set ms key v) other
        ≡ (if equal_bytes (clip key) (clip other) then some v else get ms other)
  get-set ms key other v h hk ho =
      rw
        (
          get-find (set ms key v) other (set-remove-IsValid ms key v h hk).0.named ho,
          set-put ms key v h.named hk,
          get-find ms other h.named ho,
        )
        (find-put ms (clip key) (clip other) v)

  -- Reading after a removal: nothing under every key with the same first 254 bytes, and what was
  -- there under any other key.
  pub get-remove :
      (ms : Members F) (key other : Bytes)
      → IsValid ms
      → IsText key
      → IsText other
      → get (remove ms key) other
        ≡ (if equal_bytes (clip key) (clip other) then none else get ms other)
  get-remove ms key other h hk ho =
      rw
        (
          get-find (remove ms key) other (set-remove-IsValid ms key nil h hk).1.named ho,
          remove-delete ms key h.named hk,
          get-find ms other h.named ho,
        )
        (find-delete ms (clip key) (clip other) h.sorted)
