-- ===== src/Query.antt =====
-- How signed documents are built: `normalize` of common/bitwrk/bid.go, with `url.QueryEscape` and
-- `strings.Replace` written out as far as it uses them, and the queries made of such parts.
use bitwrk.Base.{
  ℕ, ◌+◌, ◌-◌, ◌/◌, ◌%◌, ◌≡◌, refl, Bool, ◌&&◌, ◌||◌, List, [], ◌∷◌, ◌++◌, Str, codes, leb, ltb,
  ◌==◌, is_digit, if◌then◌else◌,
}

-- `strings.Replace(s, " ", "", -1)`
unfoldable pub remove_spaces : Str → Str
remove_spaces [] = []
remove_spaces (c ∷ s) = let rest = remove_spaces s in if c == b' ' then rest else c ∷ rest

abbrev pub is_unreserved : ℕ → Bool
is_unreserved c =
    leb b'A' c && leb c b'Z'
    || (leb b'a' c && leb c b'z'
        || (is_digit c || (c == b'-' || (c == b'_' || (c == b'.' || c == b'~')))))

abbrev pub hex_digit : ℕ → ℕ
hex_digit n = if ltb n 10 then b'0' + n else b'A' + (n - 10)

abbrev pub escape_byte : ℕ → Str
escape_byte c =
    if is_unreserved c
    then c ∷ []
    else if c == b' '
    then b'+' ∷ []
    else b'%' ∷ hex_digit (c / 16) ∷ hex_digit (c % 16) ∷ []

-- `url.QueryEscape`
unfoldable pub query_escape : Str → Str
query_escape [] = []
query_escape (c ∷ s) = escape_byte c ++ query_escape s

unfoldable pub normalize : Str → Str
unfolding remove_spaces query_escape
normalize s = query_escape (remove_spaces s)

-- The parts `name=value`, joined by `&`.
unfoldable pub query : List (Str × Str) → Str
query [] = []
query ((k, v) ∷ []) = k ++ (codes "=" ++ v)
query ((k, v) ∷ (p ∷ ps)) = k ++ (codes "=" ++ (v ++ (codes "&" ++ query (p ∷ ps))))

normalize_runs : normalize (codes "a b& ") ≡ codes "ab%26"
unfolding normalize
normalize_runs = refl
