-- ===== src/Json/Parse/RoundTrip.antt =====
-- A printed value parses back, given its tokens.
use mathlib.Core.List.{append-nil}
use rb3201_rbprotocol_librar.Prelude.{
  ℕ, zero, suc, ◌+◌, ◌≤◌, ◌≡◌, refl, ap, sym, ◌∙◌, true, some, Option, List, [], ◌∷◌, ◌++◌, Bytes,
  codes, length, length-append, append_assoc, arith, leb, if◌then◌else◌, Bool-cases, inl, inr,
}
use rb3201_rbprotocol_librar.Json.Value.{
  Value, Members, Items, NumberOps, object, array, string, number, bool, nil, no_members, member,
  no_items, item,
}
use rb3201_rbprotocol_librar.Json.Array.{size}
use rb3201_rbprotocol_librar.Json.Compare.{member_count}
use rb3201_rbprotocol_librar.Json.Object.{set}
use rb3201_rbprotocol_librar.Json.Object.Sorted.{IsValid}
use rb3201_rbprotocol_librar.Json.Text.{
  serialize, serialize_members, serialize_items, comma_members, comma_items, write_number,
  write_bool,
}
use rb3201_rbprotocol_librar.Json.Text.Escape.{write_string_escaped-IsUnescaped}
use rb3201_rbprotocol_librar.Json.Parse.{
  jsmn_primitive, Token, jsmn_string, text_of, parsed, parse_members, parse_items, parse_value,
  as_object, as_array, JsmnResult, tokens, nomem, null, parse_root, parse_loop, parse, as_members,
}
use rb3201_rbprotocol_librar.Json.Parse.Positions.{
  enclosed, behind_key, key_lies, value_lies, more_lies, item_lies, more_items_lie,
  length-behind_key,
}
use rb3201_rbprotocol_librar.Json.Parse.Layout.{
  token, tokens_of, tokens_of_members, tokens_of_items,
}
use rb3201_rbprotocol_librar.Json.Parse.Sizes.{next_token-tokens_of, next_token-key}
use rb3201_rbprotocol_librar.Json.Parse.Accumulate.{
  append_members-no_members, append_items-no_items, append_members, append_members_assoc,
  set-append_members, append_items, append_items_assoc,
}
use rb3201_rbprotocol_librar.Json.Parse.Steps.{
  IsPrintable, ArePrintable, AllPrintable, text_of-token, primitive_bool, primitive_nil,
  parse_members-suc, parse_items-suc,
}

module _ {F : Type 0} (nums : NumberOps F) (strtod : Bytes → Option F) where
  mutual
    unfolding IsPrintable tokens_of parse_value serialize comma_members comma_items member_count
        size as_object as_array

    parse_value-tokens_of :
        (fuel at : ℕ) (v : Value F) (buf pre post : Bytes) (rest : List Token)
        → at ≡ length pre
        → buf ≡ pre ++ (serialize nums v ++ post)
        → IsPrintable nums strtod v
        → length (tokens_of nums at v) ≤ fuel
        → parse_value strtod fuel buf (tokens_of nums at v ++ rest) ≡ parsed v
    parse_value-tokens_of zero at (object ms) buf pre post rest e f h enough = absurd (omega arith)
    parse_value-tokens_of zero at (array vs) buf pre post rest e f h enough = absurd (omega arith)
    parse_value-tokens_of zero at (string s) buf pre post rest e f h enough = absurd (omega arith)
    parse_value-tokens_of zero at (number x) buf pre post rest e f h enough = absurd (omega arith)
    parse_value-tokens_of zero at (bool b) buf pre post rest e f h enough = absurd (omega arith)
    parse_value-tokens_of zero at nil buf pre post rest e f h enough = absurd (omega arith)
    parse_value-tokens_of (suc fuel) at (object ms) buf pre post rest e f (valid, h) enough =
        rw
          (parse_members-tokens fuel (at + 1) ms buf (pre ++ (b'{' ∷ [])) (b'}' ∷ post) rest
            no_members (omega (arith, length-append pre (b'{' ∷ [])))
            (f ∙ enclosed b'{' b'}' pre (serialize_members nums ms) post) h valid (omega arith))
          refl
    parse_value-tokens_of (suc fuel) at (array vs) buf pre post rest e f h enough =
        rw
          (parse_items-tokens fuel (at + 1) vs buf (pre ++ (b'[' ∷ [])) (b']' ∷ post) rest no_items
            (omega (arith, length-append pre (b'[' ∷ [])))
            (f ∙ enclosed b'[' b']' pre (serialize_items nums vs) post) h (omega arith))
          refl
    parse_value-tokens_of (suc fuel) at (string s) buf pre post rest e f h enough =
        let written = ap (λ t. pre ++ (t ++ post)) (write_string_escaped-IsUnescaped s h) in
        ap (λ t. parsed (string t))
          (text_of-token jsmn_string 0 (at + 1) buf (pre ++ (b'"' ∷ [])) s (b'"' ∷ post)
            (omega (arith, length-append pre (b'"' ∷ [])))
            (f ∙ (written ∙ enclosed b'"' b'"' pre s post)))
    parse_value-tokens_of (suc fuel) at (number x) buf pre post rest e f h enough =
        rw (text_of-token jsmn_primitive 0 at buf pre (write_number nums x) post e f) h
    parse_value-tokens_of (suc fuel) at (bool b) buf pre post rest e f h enough =
        rw (text_of-token jsmn_primitive 0 at buf pre (write_bool b) post e f)
          (primitive_bool nums strtod b)
    parse_value-tokens_of (suc fuel) at nil buf pre post rest e f h enough =
        rw (text_of-token jsmn_primitive 0 at buf pre (codes "null") post e f)
          (primitive_nil nums strtod)

    parse_members-tokens :
        (fuel at : ℕ) (ms : Members F) (buf pre post : Bytes) (rest : List Token) (acc : Members F)
        → at ≡ length pre
        → buf ≡ pre ++ (serialize_members nums ms ++ post)
        → ArePrintable nums strtod ms
        → IsValid (append_members acc ms)
        → length (tokens_of_members nums at ms) ≤ fuel
        → parse_members
            (parse_value strtod fuel buf)
            buf
            (member_count ms)
            (tokens_of_members nums at ms ++ rest)
            acc
          ≡ some (append_members acc ms)
    parse_members-tokens fuel at no_members buf pre post rest acc e f h valid enough =
        ap some (sym (append_members-no_members acc))
    parse_members-tokens fuel at (member n l v ms) buf pre post rest acc e f
          (plain, same, short, hv, h) valid enough =
        let value = parse_value strtod fuel buf in
        let s = serialize nums v in
        let comma = comma_members ms in
        let more = serialize_members nums ms in
        let written =
          f
          ∙ ap (λ t. pre ++ ((t ++ (b':' ∷ (s ++ (comma ++ more)))) ++ post))
              (write_string_escaped-IsUnescaped n plain) in
        let start : ℕ = at + length n + 3 in
        let next : ℕ = start + length s + length comma in
        let first = tokens_of nums start v in
        let others = tokens_of_members nums next ms in
        let key = token jsmn_string (at + 1) (length n) 1 in
        let k = length-append first others in
        let one : Members F = member n (length n) v no_members in
        let valid' : IsValid (append_members acc (member n (length n) v ms)) = rw same at valid in
        let valid'' : IsValid (append_members (append_members acc one) ms) =
          rw (append_members_assoc acc one ms) valid' in
        let text : text_of buf key ≡ n =
          text_of-token jsmn_string 1 (at + 1) buf (pre ++ (b'"' ∷ [])) n
            (b'"' ∷ b':' ∷ (s ++ (comma ++ (more ++ post))))
            (omega (arith, length-append pre (b'"' ∷ [])))
            (written ∙ key_lies pre n s comma more post) in
        let read : value (first ++ (others ++ rest)) ≡ parsed v =
          parse_value-tokens_of fuel start v buf (behind_key pre n) (comma ++ (more ++ post))
            (others ++ rest) (omega (arith, length-behind_key pre n))
            (written ∙ value_lies pre n s comma more post) hv (omega (arith, k)) in
        let later =
          parse_members-tokens fuel next ms buf (behind_key pre n ++ (s ++ comma)) post rest
            (append_members acc one)
            (omega (
              arith,
              length-behind_key pre n,
              length-append (behind_key pre n) (s ++ comma),
              length-append s comma,
            ))
            (written ∙ more_lies pre n s comma more post) h valid'' (omega (arith, k)) in
        ap (λ l. parse_members value buf (suc (member_count ms)) (key ∷ l) acc)
          (append_assoc first others rest)
        ∙ (parse_members-suc nums strtod value buf (member_count ms) key (first ++ (others ++ rest))
              (others ++ rest) acc v refl refl read
              (next_token-key nums key start v (others ++ rest) refl)
            ∙ (ap (λ t. parse_members value buf (member_count ms) (others ++ rest) (set acc t v))
                  text
                ∙ (ap (parse_members value buf (member_count ms) (others ++ rest))
                      (set-append_members acc n v ms valid'.sorted valid'.named short)
                    ∙ (later
                        ∙ (ap some (append_members_assoc acc one ms)
                            ∙ ap (λ size. some (append_members acc (member n size v ms)))
                                (sym same))))))

    parse_items-tokens :
        (fuel at : ℕ) (vs : Items F) (buf pre post : Bytes) (rest : List Token) (acc : Items F)
        → at ≡ length pre
        → buf ≡ pre ++ (serialize_items nums vs ++ post)
        → AllPrintable nums strtod vs
        → length (tokens_of_items nums at vs) ≤ fuel
        → parse_items
            (parse_value strtod fuel buf)
            (size vs)
            (tokens_of_items nums at vs ++ rest)
            acc
          ≡ some (append_items acc vs)
    parse_items-tokens fuel at no_items buf pre post rest acc e f h enough =
        ap some (sym (append_items-no_items acc))
    parse_items-tokens fuel at (item v vs) buf pre post rest acc e f (hv, h) enough =
        let value = parse_value strtod fuel buf in
        let s = serialize nums v in
        let comma = comma_items vs in
        let more = serialize_items nums vs in
        let next : ℕ = at + length s + length comma in
        let first = tokens_of nums at v in
        let others = tokens_of_items nums next vs in
        let k = length-append first others in
        let one : Items F = item v no_items in
        let read : value (first ++ (others ++ rest)) ≡ parsed v =
          parse_value-tokens_of fuel at v buf pre (comma ++ (more ++ post)) (others ++ rest) e
            (f ∙ item_lies pre s comma more post) hv (omega (arith, k)) in
        let later =
          parse_items-tokens fuel next vs buf (pre ++ (s ++ comma)) post rest (append_items acc one)
            (omega (arith, length-append pre (s ++ comma), length-append s comma))
            (f ∙ more_items_lie pre s comma more post) h (omega (arith, k)) in
        ap (λ l. parse_items value (suc (size vs)) l acc) (append_assoc first others rest)
        ∙ (parse_items-suc nums strtod value (size vs) (first ++ (others ++ rest)) (others ++ rest)
              acc v read (next_token-tokens_of nums at v (others ++ rest))
            ∙ (later ∙ ap some (append_items_assoc acc one vs)))

  parse_root-tokens_of :
      (ms : Members F)
      → IsPrintable nums strtod (object ms)
      → parse_root strtod (serialize nums (object ms)) (tokens_of nums 0 (object ms)) ≡ parsed ms
  unfolding parse_root tokens_of serialize IsPrintable
  parse_root-tokens_of ms (valid, h) =
      let toks = tokens_of_members nums 1 ms in
      let read =
        parse_members-tokens (length toks) 1 ms (serialize nums (object ms)) (b'{' ∷ []) (b'}' ∷ [])
          [] no_members refl refl h valid (omega arith) in
      let whole = rw (append-nil toks) at read in ap as_members whole

  -- A packet that was printed parses back, if it needs at most 64 tokens, and is refused if it needs
  -- more. Its names are in order, names and strings hold no byte that is escaped, a name has at most
  -- 254 bytes, and the text of each number reads back. jsmn returns the tokens of the text where they
  -- fit, and JSMN_ERROR_NOMEM where they do not.
  pub parse-serialize :
      (jsmn_parse : Bytes → ℕ → JsmnResult) (ms : Members F)
      → IsPrintable nums strtod (object ms)
      → ((n : ℕ)
          → jsmn_parse (serialize nums (object ms)) n ≡ (
              if leb (length (tokens_of nums 0 (object ms))) n
              then tokens (tokens_of nums 0 (object ms))
              else nomem))
      → parse strtod jsmn_parse (serialize nums (object ms))
        ≡ (if leb (length (tokens_of nums 0 (object ms))) 64 then parsed ms else null)
  unfolding parse parse_loop
  parse-serialize jsmn_parse ms h jsmn =
      let toks = tokens_of nums 0 (object ms) in
      let root = parse_root-tokens_of ms h in
      elim (Bool-cases (leb (length toks) 32)) [
        | inl small ↦
            let fits : leb (length toks) 64 ≡ true = ground arith in
            rw (parse_loop, jsmn 32, small, fits) root
        | inr big ↦ elim (Bool-cases (leb (length toks) 64)) [
          | inl fits ↦ rw (parse_loop, jsmn 32, big, parse_loop, jsmn 64, fits) root
          | inr over ↦ rw (parse_loop, jsmn 32, big, parse_loop, jsmn 64, over) refl
        ]
      ]
