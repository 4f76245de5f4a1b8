-- ===== src/Tests/Inputs.antt =====
-- Numbers for the tests: whole numbers, printed in decimal.
use rb3201_rbprotocol_librar.Prelude.{
  ℕ, zero, suc, ◌+◌, ◌/◌, ◌%◌, true, [], ◌∷◌, ◌++◌, Bytes, codes, ltb, if◌then◌else◌,
}
use rb3201_rbprotocol_librar.Prelude.Int.{ℤ, pos, negsuc, eqb_ℤ}
use rb3201_rbprotocol_librar.Json.Value.{Members, NumberOps, string, number, no_members}
use rb3201_rbprotocol_librar.Json.Object.{set, get, get_string, get_int, contains}
use rb3201_rbprotocol_librar.Json.Key.{key_less, strncmp_lt, key_equal_str, memcmp_eq, clip, strdup}
use rb3201_rbprotocol_librar.Json.Key.Order.{equal_bytes}
use rb3201_rbprotocol_librar.Json.Text.{serialize}
use rb3201_rbprotocol_librar.Protocol.Handle.{handle_msg}
use rb3201_rbprotocol_librar.Protocol.Send.{send_mustarrive}
use rb3201_rbprotocol_librar.Protocol.State.{
  Protocol, ProtocolAddr, udp, new_protocol, is_addr_empty,
}

-- Opens the code down to the comparisons of keys, so that it runs.
unfoldable pub evaluation : ℕ
unfolding set get get_string get_int contains key_less strncmp_lt key_equal_str memcmp_eq clip
    equal_bytes strdup serialize new_protocol is_addr_empty handle_msg send_mustarrive
evaluation = 0

abbrev pub digits : ℕ → ℕ → Bytes
digits zero n = []
digits (suc fuel) n =
    let more = digits fuel (n / 10) ++ ((48 + n % 10) ∷ []) in
    if ltb n 10 then (48 + n) ∷ [] else more

abbrev pub decimal : ℤ → Bytes
decimal (pos n) = digits 20 n
decimal (negsuc n) = b'-' ∷ digits 20 (n + 1)

abbrev pub whole_numbers : NumberOps ℤ
whole_numbers = record {
  of_int = λ n. n;
  to_int = λ n. n;
  same = eqb_ℤ;
  is_whole = λ n. true;
  print_lld = decimal;
  print_4f = decimal;
}

abbrev pub robot : Protocol ℤ
robot = record (new_protocol (codes "me") (codes "bot") (codes "toy") true) {
  has_udp = true;
  has_ws = true;
  task_send = true;
  task_recv = true;
}

abbrev pub phone : ProtocolAddr
phone = udp 7 4000

abbrev pub with_command : Bytes → Members ℤ
with_command cmd = set no_members (codes "c") (string cmd)

-- {"c":"possess","n":-1}
abbrev pub possess_packet : Members ℤ
possess_packet = set (with_command (codes "possess")) (codes "n") (number (negsuc 0))

-- {"c":"ping","f":f,"n":n}
abbrev pub ping : ℕ → ℕ → Members ℤ
ping f n =
    set (set (with_command (codes "ping")) (codes "f") (number (pos f))) (codes "n")
      (number (pos n))

-- {"c":"log","e":e,"n":n}
abbrev pub confirmation : ℕ → ℕ → Members ℤ
confirmation e n =
    set (set (with_command (codes "log")) (codes "e") (number (pos e))) (codes "n") (number (pos n))

-- The robot when the phone owns it, behind the packet with counter 3, with the messages 4 and 6
-- pending.
abbrev pub owned : Protocol ℤ
owned = record robot {
  possessed_addr = phone;
  read_counter = pos 3;
  mustarrive_e = 7;
  mustarrive_queue =
      record { pkt = no_members; id = 4; attempts = 2 }
      ∷ record { pkt = no_members; id = 6; attempts = 14 }
      ∷ [];
}
