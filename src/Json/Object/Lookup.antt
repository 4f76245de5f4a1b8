-- ===== src/Json/Object/Lookup.antt =====
-- The operations over `lower_bound` as recursions on the member list, and the map laws.
use rb3201_rbprotocol_librar.Prelude.{
  ◌≡◌, refl, ap, ◌∙◌, inl, inr, true, false, Option, none, some, Bytes, length, Bool-cases, arith,
  if◌then◌else◌,
}
use rb3201_rbprotocol_librar.Json.Value.{Value, Members, no_members, member}
use rb3201_rbprotocol_librar.Json.Key.{key_len, clip}
use rb3201_rbprotocol_librar.Json.Key.Order.{
  lex, equal_bytes, IsText, equal_bytes_iff, lex_irrefl, lex_trans, lex_total, key_less-lex,
  key_equal_str-equal_bytes, length-clip,
}
use rb3201_rbprotocol_librar.Json.Object.{
  lower_bound, member_at, found, get, assign, emplace, erase, set, remove,
}

module _ {F : Type 0} where
  -- Every name is text of the stated length.
  abbrev pub IsNamed : Members F → Type 0
  IsNamed no_members = Unit
  IsNamed (member name len v ms) = IsText name × (len ≡ length name) × IsNamed ms

  -- The specification: a list of entries in the order of their names.
  unfoldable pub find : Members F → Bytes → Option (Value F)
  find no_members k = none
  find (member n l v ms) k = if lex n k then find ms k else if equal_bytes n k then some v else none

  unfoldable pub put : Members F → Bytes → Value F → Members F
  put no_members k v = member k (length k) v no_members
  put (member n l old ms) k v =
      if lex n k
      then member n l old (put ms k v)
      else if equal_bytes n k
      then member n l v ms
      else member k (length k) v (member n l old ms)

  unfoldable pub delete : Members F → Bytes → Members F
  delete no_members k = no_members
  delete (member n l old ms) k =
      if lex n k
      then member n l old (delete ms k)
      else if equal_bytes n k
      then ms
      else member n l old ms

  pub get-find :
      (ms : Members F) (key : Bytes) → IsNamed ms → IsText key → get ms key ≡ find ms (clip key)
  unfolding get find
  get-find no_members key h hk = refl
  get-find (member n l v ms) key (hn, hl, h) hk =
      rw (hl, key_less-lex n key hn hk)
        (elim (Bool-cases (lex n (clip key))) [
          | inl e ↦ rw e (get-find ms key h hk)
          | inr e ↦ rw (e, key_equal_str-equal_bytes n key)
        ])

  pub set-put :
      (ms : Members F) (key : Bytes) (v : Value F)
      → IsNamed ms
      → IsText key
      → set ms key v ≡ put ms (clip key) v
  unfolding set put
  set-put no_members key v h hk = rw (length-clip key)
  set-put (member n l old ms) key v (hn, hl, h) hk =
      rw (hl, key_less-lex n key hn hk)
        (elim (Bool-cases (lex n (clip key))) [
          | inl e ↦ rw e (push ∙ ap (member n (length n) old) (set-put ms key v h hk))
          | inr e ↦ rw (e, key_equal_str-equal_bytes n key, length-clip key)
        ])
    where
      push :
          (if found (member_at ms (lower_bound ms key)) key
            then member n (length n) old (assign ms (lower_bound ms key) v)
            else member n
                (length n)
                old
                (emplace ms (lower_bound ms key) (clip key) (key_len key) v))
          ≡ member n (length n) old (set ms key v)
      push = elim (Bool-cases (found (member_at ms (lower_bound ms key)) key)) [
        | inl e ↦ rw e
        | inr e ↦ rw e
      ]

  pub remove-delete :
      (ms : Members F) (key : Bytes)
      → IsNamed ms
      → IsText key
      → remove ms key ≡ delete ms (clip key)
  unfolding remove delete
  remove-delete no_members key h hk = refl
  remove-delete (member n l old ms) key (hn, hl, h) hk =
      rw (hl, key_less-lex n key hn hk)
        (elim (Bool-cases (lex n (clip key))) [
          | inl e ↦ rw e (push ∙ ap (member n (length n) old) (remove-delete ms key h hk))
          | inr e ↦ rw (e, key_equal_str-equal_bytes n key)
        ])
    where
      push :
          (if found (member_at ms (lower_bound ms key)) key
            then member n (length n) old (erase ms (lower_bound ms key))
            else member n (length n) old ms)
          ≡ member n (length n) old (remove ms key)
      push = elim (Bool-cases (found (member_at ms (lower_bound ms key)) key)) [
        | inl e ↦ rw e
        | inr e ↦ rw e
      ]

  pub find-put :
      (ms : Members F) (k j : Bytes) (v : Value F)
      → find (put ms k v) j ≡ (if equal_bytes k j then some v else find ms j)
  unfolding find put
  find-put no_members k j v = ground (arith, equal_bytes_iff k j, lex_irrefl k, lex_irrefl j)
  find-put (member n l old ms) k j v = ground (
    arith,
    find-put ms k j v,
    equal_bytes_iff k j,
    equal_bytes_iff n j,
    equal_bytes_iff n k,
    lex_irrefl j,
    lex_irrefl k,
    lex_irrefl n,
    lex_trans j k n,
    lex_trans n j k,
    lex_total k j,
  )

  -- The names stand in strictly increasing order.
  abbrev pub Above : Bytes → Members F → Type 0
  Above k no_members = Unit
  Above k (member n l v ms) = lex k n ≡ true

  abbrev pub IsSorted : Members F → Type 0
  IsSorted no_members = Unit
  IsSorted (member n l v ms) = Above n ms × IsSorted ms

  pub find-Above : (ms : Members F) (k : Bytes) → Above k ms → find ms k ≡ none
  unfolding find
  find-Above no_members k h = refl
  find-Above (member n l v ms) k h =
      ground (arith, lex_irrefl k, lex_trans n k n, lex_irrefl n, equal_bytes_iff n k)

  pub Above-lex : (ms : Members F) (j n : Bytes) → lex j n ≡ true → Above n ms → Above j ms
  Above-lex no_members j n h a = tt
  Above-lex (member m l v ms) j n h a = lex_trans j n m h a

  find_before :
      (ms : Members F) (n j : Bytes)
      → Above n ms
      → lex n j ≡ false
      → equal_bytes n j ≡ false
      → find ms j ≡ none
  find_before ms n j a h e = find-Above ms j (Above-lex ms j n (lex_total n j h e) a)

  pub find-delete :
      (ms : Members F) (k j : Bytes)
      → IsSorted ms
      → find (delete ms k) j ≡ (if equal_bytes k j then none else find ms j)
  unfolding find delete
  find-delete no_members k j h = ground arith
  find-delete (member n l old ms) k j (ha, h) = ground (
    arith,
    find-delete ms k j h,
    find-Above ms n ha,
    find_before ms n j ha,
    equal_bytes_iff k j,
    equal_bytes_iff n j,
    equal_bytes_iff n k,
    lex_irrefl j,
    lex_irrefl n,
  )
