-- ===== src/Json/Text.antt =====
-- `serialize` of the value classes in src/rbjson.cpp, with `write_string_escaped`.
pub mod Escape
use rb3201_rbprotocol_librar.Prelude.{
  ℕ, zero, suc, Bool, true, false, ◌||◌, Option, none, some, [], ◌∷◌, ◌++◌, Bytes, codes, length,
  ◌==◌, if◌then◌else◌,
}
use rb3201_rbprotocol_librar.Json.Value.{
  Value, Members, Items, NumberOps, object, array, string, number, bool, nil, no_members, member,
  no_items, item,
}
use rb3201_rbprotocol_librar.Json.Key.{strdup}

-- The bytes of "\"\\\b\f\n\r\t".
abbrev pub is_special : ℕ → Bool
is_special c =
    c == b'"' || c == b'\\' || c == 8 || c == 12 || c == b'\n' || c == b'\r' || c == b'\t'

-- `strpbrk(start, "\"\\\b\f\n\r\t")`: the bytes before `end`, `*end`, and the bytes behind it.
unfoldable pub strpbrk : Bytes → Option (Bytes × ℕ × Bytes)
strpbrk [] = none
strpbrk (c ∷ s) =
    let rest : Option (Bytes × ℕ × Bytes) = elim (strpbrk s) [
      | none ↦ none
      | some (a, e, b) ↦ some (c ∷ a, e, b)
    ] in
    if is_special c then some ([], c, s) else rest

-- The switch on `*end`.
unfoldable pub escape_letter : ℕ → ℕ
escape_letter c =
    if c == b'"' || c == b'\\'
    then c
    else if c == 8
    then b'b'
    else if c == 12
    then b'f'
    else if c == b'\n'
    then b'n'
    else if c == b'\r'
    then b'r'
    else if c == b'\t'
    then b't'
    else b'?'

-- The loop, on fuel: each round passes one special byte.
unfoldable pub escape_loop : ℕ → Bytes → Bytes
unfolding strpbrk escape_letter
escape_loop zero start = []
escape_loop (suc fuel) start = elim (strpbrk start) [
  | none ↦ start ++ (b'"' ∷ [])
  | some (before, c, behind) ↦ before ++ (b'\\' ∷ escape_letter c ∷ escape_loop fuel behind)
]

-- The argument is a C string: it ends at its first zero byte.
unfoldable pub write_string_escaped : Bytes → Bytes
unfolding escape_loop strdup
write_string_escaped s = let str = strdup s in b'"' ∷ escape_loop (suc (length str)) str

unfoldable pub write_bool : Bool → Bytes
write_bool b = if b then codes "true" else codes "false"

module _ {F : Type 0} where
  -- `if (++itr != m_members.cend()) ss.put(',')`
  unfoldable pub comma_members : Members F → Bytes
  comma_members no_members = []
  comma_members (member n l v ms) = b',' ∷ []

  unfoldable pub comma_items : Items F → Bytes
  comma_items no_items = []
  comma_items (item v vs) = b',' ∷ []

  unfoldable pub write_number : NumberOps F → F → Bytes
  write_number nums x = if nums.is_whole x then nums.print_lld (nums.to_int x) else nums.print_4f x

  unfoldable mutual
    unfolding comma_members comma_items write_number write_bool write_string_escaped

    pub serialize : NumberOps F → Value F → Bytes
    serialize nums (object ms) = b'{' ∷ (serialize_members nums ms ++ (b'}' ∷ []))
    serialize nums (array vs) = b'[' ∷ (serialize_items nums vs ++ (b']' ∷ []))
    serialize nums (string s) = write_string_escaped s
    serialize nums (number x) = write_number nums x
    serialize nums (bool b) = write_bool b
    serialize nums nil = codes "null"

    pub serialize_members : NumberOps F → Members F → Bytes
    serialize_members nums no_members = []
    serialize_members nums (member n l v ms) =
        write_string_escaped n
        ++ (b':' ∷ (serialize nums v ++ (comma_members ms ++ serialize_members nums ms)))

    pub serialize_items : NumberOps F → Items F → Bytes
    serialize_items nums no_items = []
    serialize_items nums (item v vs) =
        serialize nums v ++ (comma_items vs ++ serialize_items nums vs)
