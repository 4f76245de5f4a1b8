-- ===== src/Json/Key/Order.antt =====
-- The comparisons are the lexicographic order and the equality of clipped keys with no zero byte.
use rb3201_rbprotocol_librar.Prelude.{
  ℕ, zero, suc, ◌≤◌, min, ◌≡◌, ◌≢◌, ◌↔◌, refl, ap, sym, ◌∙◌, inl, inr, ==_iff, Bool-cases, All-take,
  Bool, true, false, ◌&&◌, [], ◌∷◌, Bytes, length, take, length-take, All, arith, ltb, ◌==◌,
  if◌then◌else◌,
}
use rb3201_rbprotocol_librar.Json.Key.{
  strncmp_lt, memcmp_eq, key_len, key_less, key_equal_str, clip,
}

-- The strict lexicographic order of byte strings.
unfoldable pub lex : Bytes → Bytes → Bool
lex a [] = false
lex [] (y ∷ b) = true
lex (x ∷ a) (y ∷ b) = if x == y then lex a b else ltb x y

unfoldable pub equal_bytes : Bytes → Bytes → Bool
equal_bytes [] [] = true
equal_bytes (x ∷ a) (y ∷ b) = (x == y) && equal_bytes a b
equal_bytes _ _ = false

-- No byte is the terminator.
abbrev pub IsText : Bytes → Type 0
IsText = All (λ c. c ≢ 0)

pub equal_bytes_iff : (a b : Bytes) → (equal_bytes a b ≡ true) ↔ (a ≡ b)
unfolding equal_bytes
equal_bytes_iff (x ∷ a) (y ∷ b) = ground (arith, equal_bytes_iff a b)
equal_bytes_iff _ _ = ground arith

pub equal_bytes_refl : (a : Bytes) → equal_bytes a a ≡ true
equal_bytes_refl a = (equal_bytes_iff a a).1 refl

pub lex_irrefl : (a : Bytes) → lex a a ≡ false
unfolding lex
lex_irrefl [] = refl
lex_irrefl (x ∷ a) = ground (arith, lex_irrefl a)

pub lex_trans : (a b c : Bytes) → lex a b ≡ true → lex b c ≡ true → lex a c ≡ true
unfolding lex
lex_trans [] (y ∷ b) (z ∷ c) p q = refl
lex_trans (x ∷ a) (y ∷ b) (z ∷ c) p q = ground (arith, lex_trans a b c)
lex_trans _ [] c p q = absurd (ground arith)
lex_trans _ b [] p q = q

pub lex_total : (a b : Bytes) → lex a b ≡ false → equal_bytes a b ≡ false → lex b a ≡ true
unfolding lex equal_bytes
lex_total [] [] p q = ground arith
lex_total [] (y ∷ b) p q = ground arith
lex_total (x ∷ a) [] p q = refl
lex_total (x ∷ a) (y ∷ b) p q = ground (arith, lex_total a b)

strncmp_lt-lex :
    (n : ℕ) (a b : Bytes) → IsText a → IsText b → n ≤ length b → strncmp_lt a b n ≡ lex a (take n b)
unfolding strncmp_lt lex
strncmp_lt-lex zero a b ha hb h = refl
strncmp_lt-lex (suc n) a [] ha hb h = absurd (omega arith)
strncmp_lt-lex (suc n) [] (y ∷ b) ha hb h = ground arith
strncmp_lt-lex (suc n) (x ∷ a) (y ∷ b) ha hb h =
    ground (arith, strncmp_lt-lex n a b ha.1 hb.1 (omega arith))

memcmp_eq-equal_bytes :
    (n : ℕ) (a b : Bytes) → length a ≡ n → n ≤ length b → memcmp_eq a b n ≡ equal_bytes a (take n b)
unfolding memcmp_eq equal_bytes
memcmp_eq-equal_bytes zero [] b e h = refl
memcmp_eq-equal_bytes zero (x ∷ a) b e h = absurd (omega arith)
memcmp_eq-equal_bytes (suc n) [] b e h = absurd (omega arith)
memcmp_eq-equal_bytes (suc n) (x ∷ a) [] e h = absurd (omega arith)
memcmp_eq-equal_bytes (suc n) (x ∷ a) (y ∷ b) e h =
    rw (memcmp_eq-equal_bytes n a b (omega arith) (omega arith))

take_to : (n m : ℕ) (xs : Bytes) → m ≡ min n (length xs) → take m xs ≡ take n xs
take_to zero zero xs e = refl
take_to zero (suc m) xs e = absurd (omega arith)
take_to (suc n) zero [] e = refl
take_to (suc n) zero (x ∷ xs) e = absurd (omega arith)
take_to (suc n) (suc m) [] e = absurd (omega arith)
take_to (suc n) (suc m) (x ∷ xs) e = ap (◌∷◌ x) (take_to n m xs (omega arith))

equal_bytes-take_ne :
    (n : ℕ) (a b : Bytes) → length a ≢ min n (length b) → equal_bytes a (take n b) ≡ false
equal_bytes-take_ne n a b h = elim (Bool-cases (equal_bytes a (take n b))) [
  | inl e ↦ absurd (h (ap length ((equal_bytes_iff a (take n b)).0 e) ∙ length-take n b))
  | inr e ↦ e
]

key_equal_str-take :
    (n : ℕ) (name key : Bytes)
    → ((length name == min n (length key)) && memcmp_eq name key (length name))
      ≡ equal_bytes name (take n key)
key_equal_str-take n name key = elim (Bool-cases (length name == min n (length key))) [
  | inl same ↦
      let e = (==_iff (length name) (min n (length key))).0 same in
      rw same (
        memcmp_eq-equal_bytes (length name) name key refl (omega arith)
        ∙ ap (equal_bytes name) (take_to n (length name) key e))
  | inr other ↦ rw other (sym (equal_bytes-take_ne n name key (ground arith)))
]

-- On names and keys with no zero byte, `keyLess` is the lexicographic order of the clipped key.
pub key_less-lex :
    (name key : Bytes) → IsText name → IsText key → key_less name key ≡ lex name (clip key)
unfolding key_less clip
key_less-lex name key hn hk =
    strncmp_lt-lex (key_len key) name key hn hk (omega arith)
    ∙ ap (lex name) (take_to 254 (key_len key) key refl)

-- `keyEqualStr` is the equality with the clipped key, where `name_len` is the length of the name.
pub key_equal_str-equal_bytes :
    (name key : Bytes) → key_equal_str name (length name) key ≡ equal_bytes name (clip key)
unfolding key_equal_str clip
key_equal_str-equal_bytes name key = key_equal_str-take 254 name key

pub length-clip : (key : Bytes) → length (clip key) ≡ key_len key
unfolding clip
length-clip key = length-take 254 key

pub clip-IsText : (key : Bytes) → IsText key → IsText (clip key)
unfolding clip
clip-IsText key h = All-take (λ c. c ≢ 0) 254 key h
