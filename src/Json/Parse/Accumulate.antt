-- ===== src/Json/Parse/Accumulate.antt =====
-- Members that come in the order of their names go to the end of the vector.
use rb3201_rbprotocol_librar.Prelude.{ℕ, ◌≡◌, ◌≤◌, refl, ap, ◌∙◌, true, Bytes, length, take_all}
use rb3201_rbprotocol_librar.Json.Value.{Value, Members, Items, no_members, member, no_items, item}
use rb3201_rbprotocol_librar.Json.Key.{clip}
use rb3201_rbprotocol_librar.Json.Key.Order.{lex, lex_trans}
use rb3201_rbprotocol_librar.Json.Object.{set}
use rb3201_rbprotocol_librar.Json.Object.Lookup.{IsNamed, IsSorted, put, set-put}

module _ {F : Type 0} where
  abbrev pub append_members : Members F → Members F → Members F
  append_members no_members ms = ms
  append_members (member n l v rest) ms = member n l v (append_members rest ms)

  pub append_members_assoc :
      (a b c : Members F)
      → append_members (append_members a b) c ≡ append_members a (append_members b c)
  append_members_assoc no_members b c = refl
  append_members_assoc (member n l v a) b c = ap (member n l v) (append_members_assoc a b c)

  pub append_members-no_members : (a : Members F) → append_members a no_members ≡ a
  append_members-no_members no_members = refl
  append_members-no_members (member n l v a) = ap (member n l v) (append_members-no_members a)

  abbrev Below : Bytes → Members F → Type 0
  Below n no_members = Unit
  Below n (member m l v ms) = (lex m n ≡ true) × Below n ms

  sorted-Below :
      (acc : Members F) (n : Bytes) (l : ℕ) (v : Value F) (ms : Members F)
      → IsSorted (append_members acc (member n l v ms))
      → Below n acc
  sorted-Below no_members n l v ms h = tt
  sorted-Below (member m k w no_members) n l v ms (a, h) = (a, tt)
  sorted-Below (member m k w (member m' k' w' acc)) n l v ms (a, h) =
      let below = sorted-Below (member m' k' w' acc) n l v ms h in
      (lex_trans m m' n a below.0, below)

  put-Below :
      (acc : Members F) (n : Bytes) (v : Value F)
      → Below n acc
      → put acc n v ≡ append_members acc (member n (length n) v no_members)
  unfolding put
  put-Below no_members n v h = refl
  put-Below (member m k w acc) n v (e, h) = rw e (ap (member m k w) (put-Below acc n v h))

  IsNamed-append_members :
      (acc ms : Members F) → IsNamed (append_members acc ms) → IsNamed acc × IsNamed ms
  IsNamed-append_members no_members ms h = (tt, h)
  IsNamed-append_members (member m k w acc) ms (t, e, h) =
      let (a, b) = IsNamed-append_members acc ms h in ((t, e, a), b)

  pub set-append_members :
      (acc : Members F) (n : Bytes) (v : Value F) (ms : Members F)
      → IsSorted (append_members acc (member n (length n) v ms))
      → IsNamed (append_members acc (member n (length n) v ms))
      → length n ≤ 254
      → set acc n v ≡ append_members acc (member n (length n) v no_members)
  unfolding clip
  set-append_members acc n v ms sorted named short =
      let (a, (text, same, b)) = IsNamed-append_members acc (member n (length n) v ms) named in
      let whole : clip n ≡ n = take_all 254 n short in
      set-put acc n v a text
      ∙ (rw whole (put-Below acc n v (sorted-Below acc n (length n) v ms sorted)))

  abbrev pub append_items : Items F → Items F → Items F
  append_items no_items vs = vs
  append_items (item v rest) vs = item v (append_items rest vs)

  pub append_items_assoc :
      (a b c : Items F) → append_items (append_items a b) c ≡ append_items a (append_items b c)
  append_items_assoc no_items b c = refl
  append_items_assoc (item v a) b c = ap (item v) (append_items_assoc a b c)

  pub append_items-no_items : (a : Items F) → append_items a no_items ≡ a
  append_items-no_items no_items = refl
  append_items-no_items (item v a) = ap (item v) (append_items-no_items a)
