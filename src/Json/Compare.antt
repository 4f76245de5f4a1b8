-- ===== src/Json/Compare.antt =====
-- `equals` of the value classes in src/rbjson.cpp.
use rb3201_rbprotocol_librar.Prelude.{
  ℕ, zero, suc, ◌≡◌, ◌↔◌, refl, sym, ◌∙◌, ap, Bool, true, false, ◌&&◌, [], ◌∷◌, Bytes, length,
  arith, ◌==◌, ==_refl, ==_iff, true_ne_false,
}
use rb3201_rbprotocol_librar.Json.Value.{
  Value, Members, Items, NumberOps, object, array, string, number, bool, nil, no_members, member,
  no_items, item,
}
use rb3201_rbprotocol_librar.Json.Key.{key_equal, memcmp_eq}
use rb3201_rbprotocol_librar.Json.Key.Order.{equal_bytes, equal_bytes_iff, equal_bytes_refl}
use rb3201_rbprotocol_librar.Json.Array.{size}

unfoldable pub same_bool : Bool → Bool → Bool
same_bool true b = b
same_bool false true = false
same_bool false false = true

memcmp_eq_sound :
    (n : ℕ) (a b : Bytes) → length a ≡ n → length b ≡ n → memcmp_eq a b n ≡ true → a ≡ b
unfolding memcmp_eq
memcmp_eq_sound zero [] [] ha hb h = refl
memcmp_eq_sound (suc n) (x ∷ a) (y ∷ b) ha hb h =
    ground (arith, memcmp_eq_sound n a b (omega arith) (omega arith))
memcmp_eq_sound _ _ _ ha hb h = absurd (omega arith)

memcmp_eq_refl : (a : Bytes) (n : ℕ) → memcmp_eq a a n ≡ true
unfolding memcmp_eq
memcmp_eq_refl a zero = refl
memcmp_eq_refl [] (suc n) = memcmp_eq_refl [] n
memcmp_eq_refl (x ∷ a) (suc n) = rw (==_refl x, memcmp_eq_refl a n)

key_equal_refl : (a : Bytes) (n : ℕ) → key_equal a n a n ≡ true
unfolding key_equal
key_equal_refl a n = rw (==_refl n, memcmp_eq_refl a n)

and_true : (a b : Bool) → (a && b) ≡ true → (a ≡ true) × (b ≡ true)
and_true true b h = (refl, h)
and_true false b h = absurd (true_ne_false (sym h))

same_bool_refl : (b : Bool) → same_bool b b ≡ true
unfolding same_bool
same_bool_refl true = refl
same_bool_refl false = refl

key_equal_sound :
    (a b : Bytes) (n m : ℕ)
    → n ≡ length a
    → m ≡ length b
    → key_equal a n b m ≡ true
    → (n ≡ m) × (a ≡ b)
unfolding key_equal
key_equal_sound a b n m ha hb h =
    let (sizes, bytes) = and_true (n == m) (memcmp_eq a b n) h in
    let same : n ≡ m = (==_iff n m).0 sizes in
    (same, memcmp_eq_sound n a b (sym ha) (sym hb ∙ sym same) bytes)

same_bool_sound : (a b : Bool) → same_bool a b ≡ true → a ≡ b
unfolding same_bool
same_bool_sound a b h = ground arith

module _ {F : Type 0} where
  unfoldable pub member_count : Members F → ℕ
  member_count no_members = 0
  member_count (member n l v ms) = suc (member_count ms)

  -- The type tags are compared first; the loops run once the sizes agree.
  unfoldable mutual
    unfolding member_count size same_bool

    pub equals : NumberOps F → Value F → Value F → Bool
    equals nums (object a) (object b) = (member_count a == member_count b) && equal_members nums a b
    equals nums (array a) (array b) = (size a == size b) && equal_items nums a b
    equals nums (string a) (string b) = equal_bytes a b
    equals nums (number a) (number b) = nums.same a b
    equals nums (bool a) (bool b) = same_bool a b
    equals nums nil nil = true
    equals nums _ _ = false

    pub equal_members : NumberOps F → Members F → Members F → Bool
    equal_members nums (member n l v a) (member m k w b) =
        key_equal n l m k && equals nums v w && equal_members nums a b
    equal_members nums _ _ = true

    pub equal_items : NumberOps F → Items F → Items F → Bool
    equal_items nums (item v a) (item w b) = equals nums v w && equal_items nums a b
    equal_items nums _ _ = true

  -- All names have the stated lengths, and all numbers are among the `exact` ones.
  unfoldable mutual
    pub IsPlain : (F → Type 0) → Value F → Type 0
    IsPlain exact (object ms) = ArePlain exact ms
    IsPlain exact (array vs) = AllPlain exact vs
    IsPlain exact (number x) = exact x
    IsPlain exact _ = Unit

    pub ArePlain : (F → Type 0) → Members F → Type 0
    ArePlain exact no_members = Unit
    ArePlain exact (member n l v ms) = (l ≡ length n) × IsPlain exact v × ArePlain exact ms

    pub AllPlain : (F → Type 0) → Items F → Type 0
    AllPlain exact no_items = Unit
    AllPlain exact (item v vs) = IsPlain exact v × AllPlain exact vs

module _ {F : Type 0} (nums : NumberOps F) (exact : F → Type 0)
    (same_iff : (x y : F) → exact x → exact y → (nums.same x y ≡ true) ↔ (x ≡ y)) where
  mutual
    unfolding equals IsPlain

    equals_refl : (v : Value F) → IsPlain exact v → equals nums v v ≡ true
    equals_refl (object ms) h = rw (==_refl (member_count ms), equal_members_refl ms h)
    equals_refl (array vs) h = rw (==_refl (size vs), equal_items_refl vs h)
    equals_refl (string s) h = equal_bytes_refl s
    equals_refl (number x) h = (same_iff x x h h).1 refl
    equals_refl (bool b) h = same_bool_refl b
    equals_refl nil h = refl

    equal_members_refl : (ms : Members F) → ArePlain exact ms → equal_members nums ms ms ≡ true
    equal_members_refl no_members h = refl
    equal_members_refl (member n l v ms) (hl, hv, h) =
        rw (key_equal_refl n l, equals_refl v hv, equal_members_refl ms h)

    equal_items_refl : (vs : Items F) → AllPlain exact vs → equal_items nums vs vs ≡ true
    equal_items_refl no_items h = refl
    equal_items_refl (item v vs) (hv, h) = rw (equals_refl v hv, equal_items_refl vs h)

  mutual
    unfolding equals IsPlain member_count size

    equals_sound :
        (v w : Value F) → IsPlain exact v → IsPlain exact w → equals nums v w ≡ true → v ≡ w
    equals_sound (object a) (object b) h k e =
        let (sizes, each) =
          and_true (member_count a == member_count b) (equal_members nums a b) e in
        ap object
          (equal_members_sound a b h k ((==_iff (member_count a) (member_count b)).0 sizes) each)
    equals_sound (array a) (array b) h k e =
        let (sizes, each) = and_true (size a == size b) (equal_items nums a b) e in
        ap array (equal_items_sound a b h k ((==_iff (size a) (size b)).0 sizes) each)
    equals_sound (string a) (string b) h k e = ap string ((equal_bytes_iff a b).0 e)
    equals_sound (number x) (number y) h k e = ap number ((same_iff x y h k).0 e)
    equals_sound (bool a) (bool b) h k e = ap bool (same_bool_sound a b e)
    equals_sound nil nil h k e = refl
    equals_sound _ _ h k e = absurd (true_ne_false (sym e))

    equal_members_sound :
        (a b : Members F)
        → ArePlain exact a
        → ArePlain exact b
        → member_count a ≡ member_count b
        → equal_members nums a b ≡ true
        → a ≡ b
    equal_members_sound no_members no_members h k s e = refl
    equal_members_sound (member n l v a) (member m j w b) (hl, hv, h) (kl, kv, k) s e =
        let (front, others) =
          and_true (key_equal n l m j && equals nums v w) (equal_members nums a b) e in
        let (keys, values) = and_true (key_equal n l m j) (equals nums v w) front in
        let (lengths, names) = key_equal_sound n m l j hl kl keys in
        let value = equals_sound v w hv kv values in
        let rest = equal_members_sound a b h k (omega arith) others in
        rw (lengths, names, value, rest) refl
    equal_members_sound no_members (member m j w b) h k s e = absurd (omega arith)
    equal_members_sound (member n l v a) no_members h k s e = absurd (omega arith)

    equal_items_sound :
        (a b : Items F)
        → AllPlain exact a
        → AllPlain exact b
        → size a ≡ size b
        → equal_items nums a b ≡ true
        → a ≡ b
    equal_items_sound no_items no_items h k s e = refl
    equal_items_sound (item v a) (item w b) (hv, h) (kv, k) s e =
        let (values, others) = and_true (equals nums v w) (equal_items nums a b) e in
        let value = equals_sound v w hv kv values in
        let rest = equal_items_sound a b h k (omega arith) others in rw (value, rest) refl
    equal_items_sound no_items (item w b) h k s e = absurd (omega arith)
    equal_items_sound (item v a) no_items h k s e = absurd (omega arith)

  -- `equals` finds two values equal exactly if they are: the same type, as many members with the same
  -- names and equal values in the same order, as many equal items. The names have the stated
  -- lengths, and all numbers are such that `==` tells them apart, so no NaN and no negative zero.
  pub equals_iff :
      (v w : Value F) → IsPlain exact v → IsPlain exact w → (equals nums v w ≡ true) ↔ (v ≡ w)
  equals_iff v w h k = (equals_sound v w h k, λ same. rw (← same) (equals_refl v h))
