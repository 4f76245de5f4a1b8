-- ===== src/Tests/Parse.antt =====
-- A packet that is printed and parsed, on concrete inputs.
use rb3201_rbprotocol_librar.Prelude.{
  ℕ, ◌+◌, ◌-◌, ◌*◌, ◌≡◌, refl, true, Option, none, some, [], ◌∷◌, Bytes, codes, length, leb, ◌||◌,
  ltb, if◌then◌else◌, arith,
}
use rb3201_rbprotocol_librar.Prelude.Int.{ℤ, pos}
use rb3201_rbprotocol_librar.Json.Value.{
  Members, object, array, string, number, bool, nil, no_members, member, item, no_items,
}
use rb3201_rbprotocol_librar.Json.Key.Order.{lex}
use rb3201_rbprotocol_librar.Json.Text.{serialize}
use rb3201_rbprotocol_librar.Json.Parse.{
  JsmnResult, tokens, nomem, parse, parse_packet, parsed, parse_primitive,
}
use rb3201_rbprotocol_librar.Json.Parse.Layout.{tokens_of}
use rb3201_rbprotocol_librar.Json.Parse.Steps.{IsPrintable}
use rb3201_rbprotocol_librar.Json.Parse.RoundTrip.{parse-serialize}
use rb3201_rbprotocol_librar.Protocol.State.{udp}
use rb3201_rbprotocol_librar.Protocol.Tasks.{send_item, datagram}
use rb3201_rbprotocol_librar.Protocol.Send.Effects.{carrier}
use rb3201_rbprotocol_librar.Udp.{recv_iter, message, no_message, from}
use rb3201_rbprotocol_librar.Udp.Whole.{recv_iter_whole, recv_iter-send_item, IsFit}
use rb3201_rbprotocol_librar.Tests.Inputs.{whole_numbers, robot}

-- The digits of a whole number.
abbrev read_digits : ℕ → Bytes → Option ℤ
read_digits n [] = some (pos n)
read_digits n (c ∷ s) =
    let more = read_digits (n * 10 + (c - 48)) s in if ltb c 48 || ltb 57 c then none else more

abbrev strtod : Bytes → Option ℤ
strtod s = if leb (length s) 0 then none else read_digits 0 s

-- {"c":"ping","n":5,"x":[true,null]}
abbrev packet : Members ℤ
packet = member (codes "c") 1 (string (codes "ping")) (
    member (codes "n") 1 (number (pos 5))
      (member (codes "x") 1 (array (item (bool true) (item nil no_items))) no_members))

-- The tokens of that packet, where there is room for them.
abbrev jsmn : Bytes → ℕ → JsmnResult
jsmn buf n =
    if leb (length (tokens_of whole_numbers 0 (object packet))) n
    then tokens (tokens_of whole_numbers 0 (object packet))
    else nomem

packet-IsPrintable : IsPrintable whole_numbers strtod (object packet)
unfolding IsPrintable lex parse_primitive serialize
packet-IsPrintable = (
  record { named = omega arith; sorted = (refl, (refl, (tt, tt))) },
  (
    ((omega arith, refl), tt),
    refl,
    omega arith,
    ((omega arith, refl), ((omega arith, refl), ((omega arith, refl), ((omega arith, refl), tt)))),
    (
      ((omega arith, refl), tt),
      refl,
      omega arith,
      refl,
      (((omega arith, refl), tt), refl, omega arith, (tt, (tt, tt)), tt),
    ),
  ),
)

parse-serialize_example :
    parse strtod jsmn (serialize whole_numbers (object packet)) ≡ parsed packet
unfolding tokens_of
parse-serialize_example =
    parse-serialize whole_numbers strtod jsmn packet packet-IsPrintable (λ n. refl)

recv_iter_whole_example :
    (grown : ℕ) × (recv_iter strtod jsmn 8
        (message 7 4000 (serialize whole_numbers (object packet)))
        true
      ≡ (
        grown,
        no_message,
        from 7 4000 (parse_packet strtod jsmn (serialize whole_numbers (object packet))),
      ))
    × IsFit (length (serialize whole_numbers (object packet))) 8 grown
recv_iter_whole_example =
    recv_iter_whole strtod jsmn 8 7 4000 (serialize whole_numbers (object packet))

recv_iter-send_item_example :
    (text : Bytes) × (send_item whole_numbers robot
        (udp 7 4000)
        (carrier whole_numbers (udp 7 4000) packet)
      ≡ datagram 7 4000 text ∷ [])
    × ((recv_iter strtod jsmn 64 (message 8 42424 text) true).2 ≡ some (udp 8 42424, packet))
unfolding tokens_of serialize
recv_iter-send_item_example =
    recv_iter-send_item whole_numbers strtod jsmn robot packet 7 4000 64 8 42424 refl
      packet-IsPrintable (omega arith) (omega arith) (λ n. refl)
