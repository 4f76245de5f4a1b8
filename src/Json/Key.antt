-- ===== src/Json/Key.antt =====
-- The key comparisons of `Object` in src/rbjson.cpp, with the C functions that they call.
pub mod Order
use rb3201_rbprotocol_librar.Prelude.{
  ℕ, zero, suc, min, Bool, true, false, ◌&&◌, [], ◌∷◌, Bytes, length, take, ltb, leb, ◌==◌,
  if◌then◌else◌,
}

-- `strncmp(a, b, n) < 0` on two terminated strings: the end of a list is its terminator.
unfoldable pub strncmp_lt : Bytes → Bytes → ℕ → Bool
strncmp_lt a b zero = false
strncmp_lt [] [] (suc n) = false
strncmp_lt [] (y ∷ b) (suc n) = ltb 0 y
strncmp_lt (x ∷ a) [] (suc n) = false
strncmp_lt (x ∷ a) (y ∷ b) (suc n) =
    if x == y then (if x == 0 then false else strncmp_lt a b n) else ltb x y

-- `memcmp(a, b, n) == 0`, where both terminators can be read and compared.
unfoldable pub memcmp_eq : Bytes → Bytes → ℕ → Bool
memcmp_eq a b zero = true
memcmp_eq [] [] (suc n) = memcmp_eq [] [] n
memcmp_eq [] (y ∷ b) (suc n) = (y == 0) && memcmp_eq [] b n
memcmp_eq (x ∷ a) [] (suc n) = (x == 0) && memcmp_eq a [] n
memcmp_eq (x ∷ a) (y ∷ b) (suc n) = (x == y) && memcmp_eq a b n

-- `strdup(a)`: the bytes before the first zero byte.
unfoldable pub strdup : Bytes → Bytes
strdup [] = []
strdup (x ∷ a) = let rest = x ∷ strdup a in if x == 0 then [] else rest

-- `std::min(size_t(254), key.length())`, which also fits the `uint8_t name_len`.
abbrev pub key_len : Bytes → ℕ
key_len key = min 254 (length key)

unfoldable pub key_less : Bytes → Bytes → Bool
key_less name key = strncmp_lt name key (key_len key)

unfoldable pub key_equal_str : Bytes → ℕ → Bytes → Bool
key_equal_str name name_len key = (name_len == key_len key) && memcmp_eq name key name_len

unfoldable pub key_equal : Bytes → ℕ → Bytes → ℕ → Bool
key_equal name_a len_a name_b len_b = (len_a == len_b) && memcmp_eq name_a name_b len_a

-- The bytes of a key that the object stores and compares.
unfoldable pub clip : Bytes → Bytes
clip key = take 254 key
