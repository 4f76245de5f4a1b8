-- ===== src/Json/Parse/Layout.antt =====
-- The tokens of a printed value: what jsmn documents for it.
use rb3201_rbprotocol_librar.Prelude.{ℕ, ◌+◌, List, [], ◌∷◌, ◌++◌, length}
use rb3201_rbprotocol_librar.Json.Value.{
  Value, Members, Items, NumberOps, object, array, string, no_members, member, no_items, item,
}
use rb3201_rbprotocol_librar.Json.Array.{size}
use rb3201_rbprotocol_librar.Json.Compare.{member_count}
use rb3201_rbprotocol_librar.Json.Text.{serialize, comma_members, comma_items}
use rb3201_rbprotocol_librar.Json.Parse.{
  Token, TokenType, jsmn_object, jsmn_array, jsmn_string, jsmn_primitive,
}

abbrev pub token : TokenType → ℕ → ℕ → ℕ → Token
token type start length size = record {
  type = type;
  start = start;
  end = start + length;
  size = size;
}

-- A token for each value, the children behind their parent, a member as its key with one child. A
-- string's token leaves out the quotes.
module _ {F : Type 0} where
  unfoldable mutual
    unfolding serialize comma_members comma_items size member_count

    pub tokens_of : NumberOps F → ℕ → Value F → List Token
    tokens_of nums at (object ms) =
        token jsmn_object at (length (serialize nums (object ms))) (member_count ms)
        ∷ tokens_of_members nums (at + 1) ms
    tokens_of nums at (array vs) =
        token jsmn_array at (length (serialize nums (array vs))) (size vs)
        ∷ tokens_of_items nums (at + 1) vs
    tokens_of nums at (string s) = token jsmn_string (at + 1) (length s) 0 ∷ []
    tokens_of nums at v = token jsmn_primitive at (length (serialize nums v)) 0 ∷ []

    pub tokens_of_members : NumberOps F → ℕ → Members F → List Token
    tokens_of_members nums at no_members = []
    tokens_of_members nums at (member n l v ms) =
        token jsmn_string (at + 1) (length n) 1
        ∷ (tokens_of nums (at + length n + 3) v
            ++ tokens_of_members nums
                (at + length n + 3 + length (serialize nums v) + length (comma_members ms)) ms)

    pub tokens_of_items : NumberOps F → ℕ → Items F → List Token
    tokens_of_items nums at no_items = []
    tokens_of_items nums at (item v vs) =
        tokens_of nums at v
        ++ tokens_of_items nums (at + length (serialize nums v) + length (comma_items vs)) vs
