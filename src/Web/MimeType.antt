-- ===== src/Web/MimeType.antt =====
-- `get_mime_type` and its table.
use rb3201_rbprotocol_librar.Prelude.{
  ℕ, ◌≡◌, refl, false, Option, none, some, List, [], ◌∷◌, ◌++◌, Bytes, codes, All, ◌==◌,
  if◌then◌else◌,
}
use rb3201_rbprotocol_librar.Json.Key.Order.{equal_bytes}

abbrev pub MimeMap : Type 0
MimeMap = Bytes × Bytes

abbrev pub meme_types : List MimeMap
meme_types =
    (codes ".css", codes "text/css")
    ∷ (codes ".html", codes "text/html")
    ∷ (codes ".jpeg", codes "image/jpeg")
    ∷ (codes ".jpg", codes "image/jpeg")
    ∷ (codes ".ico", codes "image/x-icon")
    ∷ (codes ".js", codes "application/javascript")
    ∷ (codes ".png", codes "image/png")
    ∷ (codes ".json", codes "application/json")
    ∷ []

abbrev pub default_mime_type : Bytes
default_mime_type = codes "text/plain"

-- `strrchr(s, c)`: the text from the last such character on.
unfoldable pub strrchr : Bytes → ℕ → Option Bytes
strrchr [] c = none
strrchr (x ∷ s) c = elim (strrchr s c) [
  | none ↦ if x == c then some (x ∷ s) else none
  | some t ↦ some t
]

-- The loop over the table.
unfoldable pub find_type : List MimeMap → Bytes → Bytes
find_type [] dot = default_mime_type
find_type ((extension, mime_type) ∷ maps) dot =
    let later = find_type maps dot in if equal_bytes extension dot then mime_type else later

unfoldable pub get_mime_type : Bytes → Bytes
unfolding strrchr find_type
get_mime_type filename = elim (strrchr filename b'.') [
  | none ↦ default_mime_type
  | some dot ↦ find_type meme_types dot
]

abbrev pub IsUndotted : Bytes → Type 0
IsUndotted s = All (λ (c : ℕ). (c == b'.') ≡ false) s

strrchr-undotted : (s : Bytes) → IsUndotted s → strrchr s b'.' ≡ none
unfolding strrchr
strrchr-undotted [] h = refl
strrchr-undotted (x ∷ s) (e, h) = rw (strrchr, strrchr-undotted s h, e) refl

strrchr-append :
    (base e : Bytes) → IsUndotted e → strrchr (base ++ (b'.' ∷ e)) b'.' ≡ some (b'.' ∷ e)
unfolding strrchr
strrchr-append [] e h = rw (strrchr, strrchr-undotted e h) refl
strrchr-append (x ∷ base) e h = rw (strrchr, strrchr-append base e h) refl

-- Whatever dots and extensions come before it, the last extension alone decides: a name that ends in
-- `.` and an extension has the type of the bare extension, and a name with no dot is plain text.
get_mime_type-extension :
    (base e : Bytes)
    → IsUndotted e
    → (get_mime_type (base ++ (b'.' ∷ e)) ≡ get_mime_type (b'.' ∷ e))
      × (get_mime_type e ≡ default_mime_type)
unfolding get_mime_type
get_mime_type-extension base e h = (
  rw (get_mime_type, strrchr-append base e h, strrchr-append [] e h) refl,
  rw (get_mime_type, strrchr-undotted e h) refl,
)
