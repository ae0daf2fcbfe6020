-- ===== src/Http/Text.antt =====
-- The functions of Go's package strings by which the routes are found, and `isValidPhone` of
-- services/queue-service/internal/httpapi/handler.go.
use Prim.Native.Char.{Char, code}
use qms.Base.{
  ℕ, suc, String, Bool, true, false, ◌&&◌, ◌=?◌, ◌==◌, List, [], ◌∷◌, if◌then◌else◌, leb,
}

is_slash : Char → Bool
is_slash c = code c == b'/'

-- A character before the first of some parts.
unfoldable pub prepend : Char → List String → List String
prepend c [] = String.◌∷◌ c String.[] ∷ []
prepend c (p ∷ ps) = String.◌∷◌ c p ∷ ps

-- `strings.Split(s, "/")`
unfoldable pub split_slash : String → List String
unfolding is_slash prepend
split_slash String.[] = "" ∷ []
split_slash (String.◌∷◌ c s) =
    let rest = split_slash s in if is_slash c then "" ∷ rest else prepend c rest

trim_left : String → String
trim_left String.[] = ""
trim_left (String.◌∷◌ c s) = let rest = trim_left s in if is_slash c then rest else String.◌∷◌ c s

trim_right : String → String
trim_right String.[] = ""
trim_right (String.◌∷◌ c s) =
    let rest = trim_right s in if rest =? "" && is_slash c then "" else String.◌∷◌ c rest

-- `strings.Trim(s, "/")`
unfoldable pub trim_slashes : String → String
unfolding trim_left trim_right is_slash
trim_slashes s = trim_right (trim_left s)

-- `strings.HasPrefix`
unfoldable pub has_prefix : String → String → Bool
has_prefix s String.[] = true
has_prefix String.[] (String.◌∷◌ d p) = false
has_prefix (String.◌∷◌ c s) (String.◌∷◌ d p) = code c == code d && has_prefix s p

drop_prefix : String → String → String
drop_prefix s String.[] = s
drop_prefix String.[] (String.◌∷◌ d p) = ""
drop_prefix (String.◌∷◌ c s) (String.◌∷◌ d p) = drop_prefix s p

-- `strings.TrimPrefix`
unfoldable pub trim_prefix : String → String → String
unfolding has_prefix drop_prefix
trim_prefix s p = if has_prefix s p then drop_prefix s p else s

unfoldable pub count_chars : String → ℕ
count_chars String.[] = 0
count_chars (String.◌∷◌ c s) = suc (count_chars s)

unfoldable pub all_digits : String → Bool
all_digits String.[] = true
all_digits (String.◌∷◌ c s) = leb b'0' (code c) && (leb (code c) b'9' && all_digits s)

-- The length that the source tests is that in bytes; it is the count of characters wherever the
-- second test holds.
unfoldable pub is_valid_phone : String → Bool
unfolding count_chars all_digits
is_valid_phone value = leb 8 (count_chars value) && (leb (count_chars value) 16 && all_digits value)
