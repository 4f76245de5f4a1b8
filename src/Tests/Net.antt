-- ===== src/Tests/Net.antt =====
-- Callbacks that share sockets, on concrete inputs.
use rb3201_rbprotocol_librar.Prelude.{ℕ, ◌≡◌, true, some, [], ◌∷◌}
use rb3201_rbprotocol_librar.Net.{Udp, Opening}
use rb3201_rbprotocol_librar.Net.Run.{Run}

abbrev opening : Opening
opening = record { fd = some 5; reusable = true; bound = true }

-- A device with the callback 100 on port 4000.
abbrev one_callback : Udp ℕ
one_callback = record {
  open_sockets = (4000, 5) ∷ [];
  callbacks = record { handle = 1; callback = 100; port = 4000 } ∷ [];
  callback_id_counter = 1;
  has_read_task = true;
}

-- What an erased entry reads as when nothing wrote over it.
abbrev IsIntact : (ℕ → ℕ) → Type 0
IsIntact erased = (fd : ℕ) → erased fd ≡ fd

-- A callback on another port, with the socket 6.
abbrev opening_six : Opening
opening_six = record { fd = some 6; reusable = true; bound = true }

abbrev two_callbacks : Udp ℕ
two_callbacks = record one_callback {
  open_sockets = (4000, 5) ∷ (5000, 6) ∷ [];
  callbacks =
      record { handle = 1; callback = 100; port = 4000 }
      ∷ record { handle = 2; callback = 200; port = 5000 }
      ∷ [];
  callback_id_counter = 2;
}
