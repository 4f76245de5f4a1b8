-- ===== src/Json/Array.antt =====
-- The class `Array` of src/rbjson.cpp: a vector of values.
use rb3201_rbprotocol_librar.Prelude.{
  ℕ, zero, suc, ◌≤◌, ◌<◌, ◌≡◌, refl, ap, Bool, Option, none, some, Bytes, arith, ltb, ◌==◌,
  if◌then◌else◌,
}
use rb3201_rbprotocol_librar.Prelude.Int.{ℤ}
use rb3201_rbprotocol_librar.Json.Value.{
  Value, Members, Items, NumberOps, object, array, string, number, bool, no_items, item,
}

module _ {F : Type 0} where
  unfoldable pub size : Items F → ℕ
  size no_items = 0
  size (item v vs) = suc (size vs)

  -- `m_items[idx]`, of an index below the size.
  unfoldable pub value_at : Items F → ℕ → Option (Value F)
  value_at no_items i = none
  value_at (item v vs) zero = some v
  value_at (item v vs) (suc i) = value_at vs i

  unfoldable pub get : Items F → ℕ → Option (Value F)
  unfolding size value_at
  get vs i = if ltb i (size vs) then value_at vs i else none

  unfoldable pub get_object : Items F → ℕ → Option (Members F)
  get_object vs i = elim (get vs i) [ some (object o) ↦ some o | _ ↦ none ]

  unfoldable pub get_array : Items F → ℕ → Option (Items F)
  get_array vs i = elim (get vs i) [ some (array a) ↦ some a | _ ↦ none ]

  unfoldable pub get_string : Items F → ℕ → Bytes → Bytes
  get_string vs i def = elim (get vs i) [ some (string s) ↦ s | _ ↦ def ]

  unfoldable pub get_int : NumberOps F → Items F → ℕ → ℤ → ℤ
  get_int nums vs i def = elim (get vs i) [ some (number x) ↦ nums.to_int x | _ ↦ def ]

  unfoldable pub get_double : Items F → ℕ → F → F
  get_double vs i def = elim (get vs i) [ some (number x) ↦ x | _ ↦ def ]

  unfoldable pub get_bool : Items F → ℕ → Bool → Bool
  get_bool vs i def = elim (get vs i) [ some (bool b) ↦ b | _ ↦ def ]

  unfoldable pub assign : Items F → ℕ → Value F → Items F
  assign no_items i v = no_items
  assign (item old vs) zero v = item v vs
  assign (item old vs) (suc i) v = item old (assign vs i v)

  unfoldable pub set : Items F → ℕ → Value F → Items F
  unfolding size assign
  set vs i v = if ltb i (size vs) then assign vs i v else vs

  -- `m_items.insert(m_items.begin() + idx, value)`, undefined past the end.
  unfoldable pub insert : Items F → ℕ → Value F → Option (Items F)
  insert vs zero v = some (item v vs)
  insert no_items (suc i) v = none
  insert (item old vs) (suc i) v = elim (insert vs i v) [
    | none ↦ none
    | some ws ↦ some (item old ws)
  ]

  unfoldable pub push_back : Items F → Value F → Option (Items F)
  unfolding size insert
  push_back vs v = insert vs (size vs) v

  unfoldable pub erase : Items F → ℕ → Items F
  erase no_items i = no_items
  erase (item old vs) zero = vs
  erase (item old vs) (suc i) = item old (erase vs i)

  unfoldable pub remove : Items F → ℕ → Items F
  unfolding size erase
  remove vs i = if ltb i (size vs) then erase vs i else vs

  value_at-size : (vs : Items F) (i : ℕ) → size vs ≤ i → value_at vs i ≡ none
  unfolding size value_at
  value_at-size no_items i h = refl
  value_at-size (item v vs) zero h = absurd (omega arith)
  value_at-size (item v vs) (suc i) h = value_at-size vs i (omega arith)

  -- The bounds check is the one of `value_at`.
  pub get-value_at : (vs : Items F) (i : ℕ) → get vs i ≡ value_at vs i
  unfolding get
  get-value_at vs i = ground (arith, value_at-size vs i)

  value_at-assign :
      (vs : Items F) (i j : ℕ) (v : Value F)
      → i < size vs
      → value_at (assign vs i v) j ≡ (if i == j then some v else value_at vs j)
  unfolding size value_at assign
  value_at-assign no_items i j v h = absurd (omega arith)
  value_at-assign (item old vs) zero zero v h = ground arith
  value_at-assign (item old vs) zero (suc j) v h = ground arith
  value_at-assign (item old vs) (suc i) zero v h = ground arith
  value_at-assign (item old vs) (suc i) (suc j) v h =
      ground (arith, value_at-assign vs i j v (omega arith))

  value_at-erase :
      (vs : Items F) (i j : ℕ)
      → value_at (erase vs i) j ≡ (if ltb j i then value_at vs j else value_at vs (suc j))
  unfolding value_at erase
  value_at-erase no_items i j = ground arith
  value_at-erase (item old vs) zero j = ground arith
  value_at-erase (item old vs) (suc i) zero = ground arith
  value_at-erase (item old vs) (suc i) (suc j) = ground (arith, value_at-erase vs i j)

  -- A write changes the one element at an index in range, and nothing out of range.
  get-set_items :
      (vs : Items F) (i j : ℕ) (v : Value F)
      → get (set vs i v) j
        ≡ (if ltb i (size vs) then (if i == j then some v else get vs j) else get vs j)
  unfolding set
  get-set_items vs i j v =
      ground (arith, get-value_at (assign vs i v) j, get-value_at vs j, value_at-assign vs i j v)

  -- A removal in range moves the later elements down by one, and one out of range does nothing.
  get-remove_items :
      (vs : Items F) (i j : ℕ)
      → get (remove vs i) j
        ≡ (if ltb i (size vs) then (if ltb j i then get vs j else get vs (suc j)) else get vs j)
  unfolding remove
  get-remove_items vs i j = ground (
    arith,
    get-value_at (erase vs i) j,
    get-value_at vs j,
    get-value_at vs (suc j),
    value_at-erase vs i j,
  )

  pub insert_size :
      (vs : Items F) (v : Value F)
      → (ws : Items F) × (push_back vs v ≡ some ws)
        × (size ws ≡ suc (size vs))
        × (value_at ws (size vs) ≡ some v)
  unfolding push_back value_at
  insert_size no_items v = (item v no_items, refl, refl, refl)
  insert_size (item old vs) v =
      let (ws, e, s, a) = insert_size vs v in (item old ws, rw e, ap suc s, a)
