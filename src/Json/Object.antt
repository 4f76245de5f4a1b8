-- ===== src/Json/Object.antt =====
-- The class `Object` of src/rbjson.cpp: a vector of members, sorted by name, read by binary search.
pub mod Lookup
pub mod Sorted
use rb3201_rbprotocol_librar.Prelude.{
  ℕ, zero, suc, Bool, true, false, Option, none, some, ◌&&◌, Bytes, length, if◌then◌else◌,
}
use rb3201_rbprotocol_librar.Prelude.Int.{ℤ}
use rb3201_rbprotocol_librar.Json.Value.{
  Value, Members, Items, NumberOps, object, array, string, number, bool, nil, no_members, member,
}
use rb3201_rbprotocol_librar.Json.Key.{key_less, key_equal_str, key_len, clip}

module _ {F : Type 0} where
  -- `std::lower_bound` over `keyLess`: the index of the first member that is not less than the key.
  unfoldable pub lower_bound : Members F → Bytes → ℕ
  lower_bound no_members key = 0
  lower_bound (member name len v ms) key =
      let rest = suc (lower_bound ms key) in if key_less name key then rest else 0

  -- The member at an iterator, none at `end()`.
  unfoldable pub member_at : Members F → ℕ → Option (Bytes × ℕ × Value F)
  member_at no_members i = none
  member_at (member name len v ms) zero = some (name, len, v)
  member_at (member name len v ms) (suc i) = member_at ms i

  -- `lower != m_members.end() && keyEqualStr(*lower, key)`
  unfoldable pub found : Option (Bytes × ℕ × Value F) → Bytes → Bool
  found none key = false
  found (some (name, len, v)) key = key_equal_str name len key

  unfoldable pub contains : Members F → Bytes → Bool
  unfolding lower_bound member_at found
  contains ms key = found (member_at ms (lower_bound ms key)) key

  -- `lower->value`
  unfoldable pub value_of : Option (Bytes × ℕ × Value F) → Option (Value F)
  value_of none = none
  value_of (some (name, len, v)) = some v

  unfoldable pub get : Members F → Bytes → Option (Value F)
  unfolding lower_bound member_at found value_of
  get ms key =
      let lower = member_at ms (lower_bound ms key) in
      if found lower key then value_of lower else none

  -- `lower->value = value`
  unfoldable pub assign : Members F → ℕ → Value F → Members F
  assign no_members i v = no_members
  assign (member name len old ms) zero v = member name len v ms
  assign (member name len old ms) (suc i) v = member name len old (assign ms i v)

  -- `m_members.emplace(lower, MemberItem { ... })`
  unfoldable pub emplace : Members F → ℕ → Bytes → ℕ → Value F → Members F
  emplace no_members i name len v = member name len v no_members
  emplace (member n l old ms) zero name len v = member name len v (member n l old ms)
  emplace (member n l old ms) (suc i) name len v = member n l old (emplace ms i name len v)

  -- `m_members.erase(lower)`
  unfoldable pub erase : Members F → ℕ → Members F
  erase no_members i = no_members
  erase (member n l old ms) zero = ms
  erase (member n l old ms) (suc i) = member n l old (erase ms i)

  unfoldable pub set : Members F → Bytes → Value F → Members F
  unfolding lower_bound member_at found assign emplace
  set ms key v =
      let i = lower_bound ms key in
      if found (member_at ms i) key then assign ms i v else emplace ms i (clip key) (key_len key) v

  -- The overloads of `set` that make the value.
  unfoldable pub set_string : Members F → Bytes → Bytes → Members F
  unfolding set
  set_string ms key str = set ms key (string str)

  unfoldable pub set_number : Members F → Bytes → F → Members F
  unfolding set
  set_number ms key x = set ms key (number x)

  -- The members of the object and of the other one.
  unfoldable pub swap_data : Members F → Members F → Members F × Members F
  swap_data ms other = (other, ms)

  unfoldable pub remove : Members F → Bytes → Members F
  unfolding lower_bound member_at found erase
  remove ms key =
      let i = lower_bound ms key in if found (member_at ms i) key then erase ms i else ms

  -- The getters with a type, over what `get` returns.
  unfoldable pub get_object : Members F → Bytes → Option (Members F)
  get_object ms key = elim (get ms key) [ some (object o) ↦ some o | _ ↦ none ]

  unfoldable pub get_array : Members F → Bytes → Option (Items F)
  get_array ms key = elim (get ms key) [ some (array a) ↦ some a | _ ↦ none ]

  unfoldable pub get_string : Members F → Bytes → Bytes → Bytes
  get_string ms key def = elim (get ms key) [ some (string s) ↦ s | _ ↦ def ]

  unfoldable pub get_bool : Members F → Bytes → Bool → Bool
  get_bool ms key def = elim (get ms key) [ some (bool b) ↦ b | _ ↦ def ]

  unfoldable pub get_double : Members F → Bytes → F → F
  get_double ms key def = elim (get ms key) [ some (number x) ↦ x | _ ↦ def ]

  unfoldable pub get_int : NumberOps F → Members F → Bytes → ℤ → ℤ
  get_int nums ms key def = elim (get ms key) [ some (number x) ↦ nums.to_int x | _ ↦ def ]
