-- ===== src/Json/Parse/Sizes.antt =====
-- `count_tok_size` passes exactly the tokens of a value.
use rb3201_rbprotocol_librar.Prelude.{
  ℕ, zero, suc, ◌+◌, ◌≤◌, ◌≡◌, refl, some, Option, List, ◌∷◌, ◌++◌, length, length-append,
  drop-length, append_assoc, arith,
}
use rb3201_rbprotocol_librar.Json.Value.{
  Value, Members, Items, NumberOps, object, array, string, number, bool, nil, no_members, member,
  no_items, item,
}
use rb3201_rbprotocol_librar.Json.Array.{size}
use rb3201_rbprotocol_librar.Json.Compare.{member_count}
use rb3201_rbprotocol_librar.Json.Text.{serialize, comma_members, comma_items}
use rb3201_rbprotocol_librar.Json.Parse.{
  Token, jsmn_string, count_children, count_tok_size, next_token,
}
use rb3201_rbprotocol_librar.Json.Parse.Layout.{
  token, tokens_of, tokens_of_members, tokens_of_items,
}

module _ {F : Type 0} (nums : NumberOps F) where
  -- The tokens in front of `rest` are passed.
  abbrev Passes : Option ℕ → List Token → Type 0
  Passes r toks = r ≡ some (length toks)

  -- The loop passes the first child and then the others.
  count_children-suc :
      (count : List Token → Option ℕ) (n : ℕ) (first more rest : List Token)
      → count (first ++ (more ++ rest)) ≡ some (length first)
      → count_children count n (more ++ rest) ≡ some (length more)
      → count_children count (suc n) ((first ++ more) ++ rest) ≡ some (length (first ++ more))
  unfolding count_children
  count_children-suc count n first more rest e e' =
      rw
        (
          append_assoc first more rest,
          count_children,
          e,
          append_assoc first more rest,
          drop-length first (more ++ rest),
          e',
          length-append first more,
        )
        refl

  -- A key stands before its value.
  count_key :
      (fuel : ℕ) (key : Token) (toks : List Token) (k : ℕ)
      → key.size ≡ 1
      → count_tok_size fuel toks ≡ some k
      → count_tok_size (suc fuel) (key ∷ toks) ≡ some (suc k)
  unfolding count_tok_size count_children
  count_key fuel key toks k one e = rw (count_tok_size, one, count_children, e) (ground arith)

  mutual
    unfolding tokens_of count_tok_size count_children size member_count

    count_tok_size-tokens_of :
        (fuel at : ℕ) (v : Value F) (rest : List Token)
        → length (tokens_of nums at v) ≤ fuel
        → count_tok_size fuel (tokens_of nums at v ++ rest) ≡ some (length (tokens_of nums at v))
    count_tok_size-tokens_of zero at (object ms) rest h = absurd (omega arith)
    count_tok_size-tokens_of zero at (array vs) rest h = absurd (omega arith)
    count_tok_size-tokens_of zero at (string s) rest h = absurd (omega arith)
    count_tok_size-tokens_of zero at (number x) rest h = absurd (omega arith)
    count_tok_size-tokens_of zero at (bool b) rest h = absurd (omega arith)
    count_tok_size-tokens_of zero at nil rest h = absurd (omega arith)
    count_tok_size-tokens_of (suc fuel) at (object ms) rest h =
        rw (count_tok_size, count_children-members fuel (at + 1) ms rest (omega arith))
          (ground arith)
    count_tok_size-tokens_of (suc fuel) at (array vs) rest h =
        rw (count_tok_size, count_children-items fuel (at + 1) vs rest (omega arith)) (ground arith)
    count_tok_size-tokens_of (suc fuel) at (string s) rest h = refl
    count_tok_size-tokens_of (suc fuel) at (number x) rest h = refl
    count_tok_size-tokens_of (suc fuel) at (bool b) rest h = refl
    count_tok_size-tokens_of (suc fuel) at nil rest h = refl

    count_children-members :
        (fuel at : ℕ) (ms : Members F) (rest : List Token)
        → length (tokens_of_members nums at ms) ≤ fuel
        → count_children
            (count_tok_size fuel)
            (member_count ms)
            (tokens_of_members nums at ms ++ rest)
          ≡ some (length (tokens_of_members nums at ms))
    count_children-members fuel at no_members rest h = refl
    count_children-members zero at (member n l v ms) rest h = absurd (omega arith)
    count_children-members (suc fuel) at (member n l v ms) rest h =
        let start : ℕ = at + length n + 3 in
        let first = tokens_of nums start v in
        let next : ℕ = start + length (serialize nums v) + length (comma_members ms) in
        let more = tokens_of_members nums next ms in
        let key = token jsmn_string (at + 1) (length n) 1 in
        let k = length-append first more in
        count_children-suc (count_tok_size (suc fuel)) (member_count ms) (key ∷ first) more rest
          (count_key fuel key (first ++ (more ++ rest)) (length first) refl
            (count_tok_size-tokens_of fuel start v (more ++ rest) (omega (arith, k))))
          (count_children-members (suc fuel) next ms rest (omega (arith, k)))

    count_children-items :
        (fuel at : ℕ) (vs : Items F) (rest : List Token)
        → length (tokens_of_items nums at vs) ≤ fuel
        → count_children (count_tok_size fuel) (size vs) (tokens_of_items nums at vs ++ rest)
          ≡ some (length (tokens_of_items nums at vs))
    count_children-items fuel at no_items rest h = refl
    count_children-items fuel at (item v vs) rest h =
        let first = tokens_of nums at v in
        let next : ℕ = at + length (serialize nums v) + length (comma_items vs) in
        let more = tokens_of_items nums next vs in
        let n = length-append first more in
        count_children-suc (count_tok_size fuel) (size vs) first more rest
          (count_tok_size-tokens_of fuel at v (more ++ rest) (omega (arith, n)))
          (count_children-items fuel next vs rest (omega (arith, n)))

  -- `tok += count_tok_size(tok)` goes to what follows a value.
  pub next_token-tokens_of :
      (at : ℕ) (v : Value F) (rest : List Token)
      → next_token (tokens_of nums at v ++ rest) ≡ some rest
  unfolding next_token
  next_token-tokens_of at v rest =
      let toks = tokens_of nums at v in
      let k = length-append toks rest in
      rw
        (
          next_token,
          count_tok_size-tokens_of (length (toks ++ rest)) at v rest (omega (arith, k)),
          drop-length toks rest,
        )
        refl

  -- And from a key to the next one.
  pub next_token-key :
      (key : Token) (at : ℕ) (v : Value F) (rest : List Token)
      → key.size ≡ 1
      → next_token (key ∷ (tokens_of nums at v ++ rest)) ≡ some rest
  unfolding next_token
  next_token-key key at v rest one =
      let toks = tokens_of nums at v in
      let k = length-append toks rest in
      rw
        (
          next_token,
          count_key (length (toks ++ rest)) key (toks ++ rest) (length toks) one
              (count_tok_size-tokens_of (length (toks ++ rest)) at v rest (omega (arith, k))),
          drop-length toks rest,
        )
        refl
