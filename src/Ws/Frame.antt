-- ===== src/Ws/Frame.antt =====
-- The frame header that `ProtBackendWs::send_from_queue` writes.
pub mod Read
use rb3201_rbprotocol_librar.Prelude.{ℕ, ◌/◌, ◌%◌, [], ◌∷◌, Bytes, leb, if◌then◌else◌}

-- `(1 << 7) | WS_OPCODE_TEXT`
abbrev fin_text : ℕ
fin_text = 0x81

unfoldable pub frame_header : ℕ → Bytes
frame_header size =
    if leb size 125
    then fin_text ∷ size % 256 ∷ []
    else fin_text ∷ 126 ∷ (size / 256) % 256 ∷ size % 256 ∷ []
