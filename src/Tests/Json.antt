-- ===== src/Tests/Json.antt =====
-- The JSON values on concrete inputs, and their theorems at inputs that meet their premises.
use rb3201_rbprotocol_librar.Prelude.{
  ◌≡◌, ◌↔◌, inl, inr, refl, true, false, none, some, ◌∷◌, ◌++◌, codes, Bytes, arith,
}
use rb3201_rbprotocol_librar.Prelude.Int.{ℤ, pos, negsuc, eqb_ℤ}
use rb3201_rbprotocol_librar.Json.Value.{Members, object, number, bool, nil, no_members, member}
use rb3201_rbprotocol_librar.Json.Key.Order.{lex}
use rb3201_rbprotocol_librar.Json.Object.{get, set, remove}
use rb3201_rbprotocol_librar.Json.Object.Sorted.{IsValid, get-set, get-remove, set-remove-IsValid}
use rb3201_rbprotocol_librar.Json.Compare.{equals, IsPlain, equals_iff}
use rb3201_rbprotocol_librar.Json.Text.{write_string_escaped}
use rb3201_rbprotocol_librar.Json.Text.Escape.{read_in, read-write_string_escaped}
use rb3201_rbprotocol_librar.Tests.Inputs.{evaluation, whole_numbers}

-- {"ab":true,"c":5}
abbrev pair : Members ℤ
pair = member (codes "ab") 2 (bool true) (member (codes "c") 1 (number (pos 5)) no_members)

pair-IsValid : IsValid pair
unfolding lex
pair-IsValid = record { named = omega arith; sorted = (refl, (tt, tt)) }

get-set_example : get (set pair (codes "b") nil) (codes "c") ≡ some (number (pos 5))
unfolding evaluation
get-set_example = get-set pair (codes "b") (codes "c") nil pair-IsValid (omega arith) (omega arith)

get-remove_example : get (remove pair (codes "ab")) (codes "ab") ≡ none
unfolding evaluation
get-remove_example =
    get-remove pair (codes "ab") (codes "ab") pair-IsValid (omega arith) (omega arith)

set-remove-IsValid_example : IsValid (set pair (codes "b") nil) × IsValid (remove pair (codes "b"))
set-remove-IsValid_example = set-remove-IsValid pair (codes "b") nil pair-IsValid (omega arith)

same_whole : (x y : ℤ) → (eqb_ℤ x y ≡ true) ↔ (x ≡ y)
same_whole (pos a) (pos b) = ground arith
same_whole (pos a) (negsuc b) = ground arith
same_whole (negsuc a) (pos b) = ground arith
same_whole (negsuc a) (negsuc b) = ground arith

-- An object and the same one without a member.
equals_iff_example :
    (equals whole_numbers (object pair) (object (remove pair (codes "c"))) ≡ true)
    ↔ (object pair ≡ object (remove pair (codes "c")))
unfolding evaluation IsPlain remove
equals_iff_example =
    equals_iff whole_numbers (λ z. Unit) (λ x y h k. same_whole x y) (object pair)
      (object (remove pair (codes "c"))) (refl, tt, (refl, tt, tt)) (refl, tt, tt)

read-write_string_escaped_example :
    (body : Bytes) × (write_string_escaped (codes "a\"\n") ++ codes ",1" ≡ b'"' ∷ body)
    × (read_in false body ≡ some (codes "a\"\n", codes ",1"))
read-write_string_escaped_example =
    read-write_string_escaped (codes "a\"\n") (codes ",1") (inl refl, (inr refl, (inr refl, tt)))
