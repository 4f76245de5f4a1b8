-- ===== src/Json/Parse.antt =====
-- The parser of src/rbjson.cpp, over the tokens that jsmn finds in the buffer.
pub mod Layout
pub mod Sizes
pub mod Accumulate
pub mod Positions
pub mod Steps
pub mod RoundTrip
use rb3201_rbprotocol_librar.Prelude.{
  ℕ, zero, suc, ◌+◌, ◌-◌, ◌*◌, Bool, true, false, not, ◌&&◌, Option, none, some, List, [], ◌∷◌,
  ◌++◌, Bytes, length, take, drop, leb, ◌==◌, if◌then◌else◌,
}
use rb3201_rbprotocol_librar.Json.Value.{
  Value, Members, Items, object, array, string, number, bool, nil, no_members, no_items, item,
}
use rb3201_rbprotocol_librar.Json.Key.{strdup}
use rb3201_rbprotocol_librar.Json.Object.{set}
use rb3201_rbprotocol_librar.Json.Array.{push_back}

pub data TokenType : Type 0 where
  jsmn_undefined jsmn_object jsmn_array jsmn_string jsmn_primitive : TokenType

-- `jsmntok_t`; jsmn fills both positions of every token that it returns.
pub record Token : Type 0 where
  pub type : TokenType
  pub start : ℕ
  pub end : ℕ
  pub size : ℕ

-- `jsmn_parse`: the tokens, JSMN_ERROR_NOMEM, or another error.
pub data JsmnResult : Type 0 where
  tokens : List Token → JsmnResult
  nomem : JsmnResult
  invalid : JsmnResult

-- What a parse function returns: NULL or an object; `past_end` if it reads a token behind the last.
pub data Parsed (A : Type 0) : Type 0 where
  past_end : Parsed A
  null : Parsed A
  parsed : A → Parsed A

abbrev pub plus : ℕ → Option ℕ → Option ℕ
plus k none = none
plus k (some n) = some (k + n)

-- The loop of `count_tok_size` over the children.
unfoldable pub count_children : (List Token → Option ℕ) → ℕ → List Token → Option ℕ
count_children count zero itr = some 0
count_children count (suc n) itr = elim (count itr) [
  | none ↦ none
  | some k ↦ plus k (count_children count n (drop k itr))
]

-- `count_tok_size`, on fuel: a child has fewer tokens behind it.
unfoldable pub count_tok_size : ℕ → List Token → Option ℕ
unfolding count_children
count_tok_size zero tok = none
count_tok_size (suc fuel) [] = none
count_tok_size (suc fuel) (t ∷ rest) = plus 1 (count_children (count_tok_size fuel) t.size rest)

-- `tok += count_tok_size(tok)`
unfoldable pub next_token : List Token → Option (List Token)
unfolding count_tok_size
next_token tok = elim (count_tok_size (length tok) tok) [ none ↦ none | some k ↦ some (drop k tok) ]

-- `std::string(buf + tok->start, tok->end - tok->start)`
abbrev pub text_of : Bytes → Token → Bytes
text_of buf t = take (t.end - t.start) (drop t.start buf)

abbrev pub is_string : TokenType → Bool
is_string jsmn_string = true
is_string _ = false

module _ {F : Type 0} where
  -- `res->set(key, val)` if there is a value.
  unfoldable pub set_parsed : Members F → Bytes → Parsed (Value F) → Option (Members F)
  set_parsed res key past_end = none
  set_parsed res key null = some res
  set_parsed res key (parsed v) = some (set res key v)

  -- The loop of `parse_object`, with `parse_value` as an argument. A token that is no key stays the
  -- current one for the rounds that are left.
  unfoldable pub parse_members :
      (List Token → Parsed (Value F)) → Bytes → ℕ → List Token → Members F → Option (Members F)
  unfolding set_parsed next_token
  parse_members value buf zero tok res = some res
  parse_members value buf (suc i) [] res = none
  parse_members value buf (suc i) (t ∷ rest) res =
      let skipped = parse_members value buf i (t ∷ rest) res in
      let taken : Option (Members F) = elim (set_parsed res (text_of buf t) (value rest)) [
        | none ↦ none
        | some more ↦ elim (next_token (t ∷ rest)) [
          | none ↦ none
          | some tok ↦ parse_members value buf i tok more
        ]
      ] in
      if is_string t.type && (t.size == 1) then taken else skipped

  -- `res->push_back(val)` if there is a value.
  unfoldable pub push_parsed : Items F → Parsed (Value F) → Option (Items F)
  push_parsed res past_end = none
  push_parsed res null = some res
  push_parsed res (parsed v) = push_back res v

  -- The loop of `parse_array`.
  unfoldable pub parse_items :
      (List Token → Parsed (Value F)) → ℕ → List Token → Items F → Option (Items F)
  unfolding push_parsed next_token
  parse_items value zero tok res = some res
  parse_items value (suc i) tok res = elim (push_parsed res (value tok)) [
    | none ↦ none
    | some more ↦ elim (next_token tok) [
      | none ↦ none
      | some later ↦ parse_items value i later more
    ]
  ]

  unfoldable pub as_object : Option (Members F) → Parsed (Value F)
  as_object none = past_end
  as_object (some ms) = parsed (object ms)

  unfoldable pub as_members : Option (Members F) → Parsed (Members F)
  as_members none = past_end
  as_members (some ms) = parsed ms

  -- A read behind the tokens is undefined: it gives no packet here.
  unfoldable pub packet_of : Parsed (Members F) → Option (Members F)
  packet_of past_end = none
  packet_of null = none
  packet_of (parsed ms) = some ms

  unfoldable pub as_array : Option (Items F) → Parsed (Value F)
  as_array none = past_end
  as_array (some vs) = parsed (array vs)

  unfoldable pub as_number : Option F → Parsed (Value F)
  as_number none = null
  as_number (some x) = parsed (number x)

-- `strtod` on a C string, as the float that `Number` keeps: none if nothing was read.
module _ {F : Type 0} (strtod : Bytes → Option F) where
  -- `case JSMN_PRIMITIVE`. `snprintf` keeps 31 bytes, and stops at a zero byte.
  unfoldable pub parse_primitive : Bytes → Parsed (Value F)
  unfolding as_number strdup
  parse_primitive [] = null
  parse_primitive (c ∷ s) =
      if c == b't'
      then parsed (bool true)
      else if c == b'f'
      then parsed (bool false)
      else if c == b'n'
      then parsed nil
      else as_number (strtod (strdup (take 31 (c ∷ s))))

  -- `parse_value` with `parse_object` and `parse_array`, on fuel: a child has fewer tokens behind it.
  unfoldable pub parse_value : ℕ → Bytes → List Token → Parsed (Value F)
  unfolding parse_members parse_items as_object as_array parse_primitive
  parse_value zero buf tok = past_end
  parse_value (suc fuel) buf [] = past_end
  parse_value (suc fuel) buf (t ∷ rest) = elim t.type [
    | jsmn_object ↦ as_object (parse_members (parse_value fuel buf) buf t.size rest no_members)
    | jsmn_array ↦ as_array (parse_items (parse_value fuel buf) t.size rest no_items)
    | jsmn_string ↦ parsed (string (text_of buf t))
    | jsmn_primitive ↦ parse_primitive (text_of buf t)
    | jsmn_undefined ↦ null
  ]

  -- `parse_object(buf, &tokens[0])`
  unfoldable pub parse_root : Bytes → List Token → Parsed (Members F)
  unfolding parse_value as_members
  parse_root buf [] = past_end
  parse_root buf (t ∷ rest) = elim t.type [
    | jsmn_object ↦
        as_members (parse_members (parse_value (length rest) buf) buf t.size rest no_members)
    | _ ↦ null
  ]

  -- The loop of `parse`, on fuel: 32 tokens, then 64, then it gives up.
  unfoldable pub parse_loop : (Bytes → ℕ → JsmnResult) → ℕ → Bytes → ℕ → Parsed (Members F)
  unfolding parse_root
  parse_loop jsmn_parse zero buf tokens_size = null
  parse_loop jsmn_parse (suc fuel) buf tokens_size = elim (jsmn_parse buf tokens_size) [
    | tokens toks ↦ parse_root buf toks
    | nomem ↦
        let again = parse_loop jsmn_parse fuel buf (tokens_size * 2) in
        if leb 128 (tokens_size * 2) then null else again
    | invalid ↦ null
  ]

  unfoldable pub parse : (Bytes → ℕ → JsmnResult) → Bytes → Parsed (Members F)
  unfolding parse_loop
  parse jsmn_parse buf = parse_loop jsmn_parse 2 buf 32

  -- How the backends take the result: `std::unique_ptr<rbjson::Object> pkt(rbjson::parse(...))`.
  unfoldable pub parse_packet : (Bytes → ℕ → JsmnResult) → Bytes → Option (Members F)
  unfolding parse packet_of
  parse_packet jsmn_parse buf = packet_of (parse jsmn_parse buf)
