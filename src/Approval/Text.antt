-- ===== src/Approval/Text.antt =====
-- The text handling of a token: `str.split`, `str.encode("ascii")`, and the base64url alphabet of
-- cad_harness/security/approval.py.
use Prim.Native.Char.{Char, code}
use Prim.Native.String.{[], ◌∷◌}
use text.Mathlib.TextLemmas.{cons-append, nil-append}
use autocad_mechanical_harne.Base.{
  ℕ, String, ◌<>◌, ◌≡◌, refl, ◌∙◌, Bool, true, ◌&&◌, ◌||◌, Option, none, some, nat_eq, leb, ◌%◌,
  ltb, arith, ap, if◌then◌else◌,
}

-- str.isascii
unfoldable pub is_ascii : String → Bool
is_ascii [] = true
is_ascii (c ∷ s) = ltb (code c) 128 && is_ascii s

abbrev dot : Char
dot = "."

-- The text before the first dot, and the text after it.
unfoldable pub split_dot : String → Option (String × String)
split_dot [] = none
split_dot (c ∷ s) =
    let rest = split_dot s in
    if nat_eq (code c) 46
    then some ("", s)
    else elim rest [ none ↦ none | some (before, after) ↦ some (c ∷ before, after) ]

-- _BASE64URL_CHARS
unfoldable pub is_base64url : ℕ → Bool
is_base64url c =
    (leb 65 c && leb c 90)
    || ((leb 97 c && leb c 122) || ((leb 48 c && leb c 57) || (nat_eq c 45 || nat_eq c 95)))

unfoldable pub all_base64url : String → Bool
unfolding is_base64url
all_base64url [] = true
all_base64url (c ∷ s) = is_base64url (code c) && all_base64url s

-- "=" * (-len(payload) % 4), for the length of the payload
unfoldable pub padding : ℕ → String
padding n =
    if nat_eq (n % 4) 0
    then ""
    else if nat_eq (n % 4) 1
    then "==="
    else if nat_eq (n % 4) 2
    then "=="
    else "="

dot-append : (rest : String) → "." <> rest ≡ (dot ∷ rest)
dot-append rest = cons-append dot [] rest ∙ ap (◌∷◌ dot) (nil-append rest)

-- A text of the alphabet has no dot, so what follows it is found again.
pub split_dot-append :
    (p rest : String) → all_base64url p ≡ true → split_dot (p <> "." <> rest) ≡ some (p, rest)
unfolding split_dot all_base64url
split_dot-append [] rest h = rw (nil-append, dot-append)
split_dot-append (c ∷ p) rest h =
    rw cons-append (ground (arith, split_dot-append p rest (ground arith)))

pub all_base64url-is_ascii : (p : String) → all_base64url p ≡ true → is_ascii p ≡ true
unfolding all_base64url is_ascii
all_base64url-is_ascii [] h = refl
all_base64url-is_ascii (c ∷ p) h = ground (arith, all_base64url-is_ascii p)
