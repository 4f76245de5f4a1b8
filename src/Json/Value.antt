-- ===== src/Json/Value.antt =====
-- The class tree of src/rbjson.h as a data type.
use rb3201_rbprotocol_librar.Prelude.{ℕ, Bool, Bytes}
use rb3201_rbprotocol_librar.Prelude.Int.{ℤ}

-- `Number` holds a float, whose type is a parameter. A `MemberItem` is the bytes of `name` before
-- its terminator, `name_len` and `value`; the two vectors are lists in the same block.
mutual
  pub data Value (F : Type 0) : Type 0 where
    object : Members F → Value F
    array : Items F → Value F
    string : Bytes → Value F
    number : F → Value F
    bool : Bool → Value F
    nil : Value F

  pub data Members (F : Type 0) : Type 0 where
    no_members : Members F
    member : Bytes → ℕ → Value F → Members F → Members F

  pub data Items (F : Type 0) : Type 0 where
    no_items : Items F
    item : Value F → Items F → Items F

-- The operations on floats, and the prints of the bundled printf, that the code uses.
pub record NumberOps (F : Type 0) : Type 0 where
  pub of_int : ℤ → F
  pub to_int : F → ℤ
  pub same : F → F → Bool
  pub is_whole : F → Bool
  pub print_lld : ℤ → Bytes
  pub print_4f : F → Bytes
