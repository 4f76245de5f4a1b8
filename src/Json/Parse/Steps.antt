-- ===== src/Json/Parse/Steps.antt =====
-- Which values are printed so that they parse back, and the rounds of the parser's loops.
use rb3201_rbprotocol_librar.Prelude.{
  ℕ, suc, ◌+◌, ◌-◌, ◌≤◌, ◌≡◌, refl, Bool, true, false, some, Option, List, ◌∷◌, ◌++◌, Bytes, codes,
  length, take-length, drop-length, arith,
}
use rb3201_rbprotocol_librar.Json.Value.{
  Value, Members, Items, NumberOps, object, array, string, number, bool, nil, no_members, member,
  no_items, item,
}
use rb3201_rbprotocol_librar.Json.Array.{size, push_back, insert}
use rb3201_rbprotocol_librar.Json.Object.{set}
use rb3201_rbprotocol_librar.Json.Object.Sorted.{IsValid}
use rb3201_rbprotocol_librar.Json.Text.{write_number, write_bool}
use rb3201_rbprotocol_librar.Json.Text.Escape.{IsUnescaped}
use rb3201_rbprotocol_librar.Json.Parse.{
  next_token, Token, TokenType, jsmn_string, text_of, Parsed, parsed, parse_members, parse_items,
  parse_primitive, set_parsed, push_parsed,
}
use rb3201_rbprotocol_librar.Json.Parse.Layout.{token}
use rb3201_rbprotocol_librar.Json.Parse.Accumulate.{append_items}

-- The text that a token stands for.
pub text_of-token :
    (type : TokenType) (n at : ℕ) (buf pre s post : Bytes)
    → at ≡ length pre
    → buf ≡ pre ++ (s ++ post)
    → text_of buf (token type at (length s) n) ≡ s
text_of-token type n at buf pre s post e f =
    let size : (length pre + length s) - length pre ≡ length s = omega arith in
    rw (e, f, drop-length pre (s ++ post), size) (take-length s post)

module _ {F : Type 0} (nums : NumberOps F) (strtod : Bytes → Option F) where
  -- Names and strings with no byte that is escaped, names of at most 254 bytes in order, and numbers
  -- whose text reads back.
  unfoldable mutual
    pub IsPrintable : Value F → Type 0
    IsPrintable (object ms) = IsValid ms × ArePrintable ms
    IsPrintable (array vs) = AllPrintable vs
    IsPrintable (string s) = IsUnescaped s
    IsPrintable (number x) = parse_primitive strtod (write_number nums x) ≡ parsed (number x)
    IsPrintable (bool b) = Unit
    IsPrintable nil = Unit

    pub ArePrintable : Members F → Type 0
    ArePrintable no_members = Unit
    ArePrintable (member n l v ms) =
        IsUnescaped n × (l ≡ length n) × (length n ≤ 254) × IsPrintable v × ArePrintable ms

    pub AllPrintable : Items F → Type 0
    AllPrintable no_items = Unit
    AllPrintable (item v vs) = IsPrintable v × AllPrintable vs

  pub primitive_bool : (b : Bool) → parse_primitive strtod (write_bool b) ≡ parsed (bool b)
  unfolding parse_primitive write_bool
  primitive_bool true = refl
  primitive_bool false = refl

  pub primitive_nil : parse_primitive strtod (codes "null") ≡ parsed nil
  unfolding parse_primitive
  primitive_nil = refl

  push_back-append_items :
      (acc : Items F) (v : Value F) → push_back acc v ≡ some (append_items acc (item v no_items))
  unfolding push_back insert size
  push_back-append_items no_items v = refl
  push_back-append_items (item w acc) v = rw (insert, push_back-append_items acc v) refl

  pub parse_members-suc :
      (value : List Token → Parsed (Value F)) (buf : Bytes) (i : ℕ) (key : Token)
      (rest later : List Token) (acc : Members F) (v : Value F)
      → key.type ≡ jsmn_string
      → key.size ≡ 1
      → value rest ≡ parsed v
      → next_token (key ∷ rest) ≡ some later
      → parse_members value buf (suc i) (key ∷ rest) acc
        ≡ parse_members value buf i later (set acc (text_of buf key) v)
  unfolding parse_members set_parsed
  parse_members-suc value buf i key rest later acc v t one e e' =
      rw (parse_members, t, one, e, e') refl

  pub parse_items-suc :
      (value : List Token → Parsed (Value F)) (i : ℕ) (tok later : List Token) (acc : Items F)
      (v : Value F)
      → value tok ≡ parsed v
      → next_token tok ≡ some later
      → parse_items value (suc i) tok acc
        ≡ parse_items value i later (append_items acc (item v no_items))
  unfolding parse_items push_parsed
  parse_items-suc value i tok later acc v e e' =
      rw (parse_items, e, push_back-append_items acc v, e') refl
