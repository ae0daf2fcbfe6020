-- ===== src/Auth/Dots.antt =====
-- services/auth-service/internal/httpapi/handler.go: the parts of a token in `validateJWT`.
use Prim.Native.Char.{Char, code}
use Prim.Native.String.{◌++◌ as append}
use text.Mathlib.TextLemmas.{append_assoc, cons-append, nil-append}
use text.Mathlib.TextEquality.{Char-path}
use qms.Base.{
  ℕ, String, ◌==◌, true, List, [], ◌∷◌, ◌≡◌, refl, sym, ap, ◌∙◌, arith, Bool-cases, inl, inr,
}
use qms.Http.Text.{prepend}
use qms.Auth.Tokens.{split_dot, signed_part}

-- `strings.Join(parts, ".")`
pub join_dot : List String → String
join_dot [] = ""
join_dot (p ∷ []) = p
join_dot (p ∷ q ∷ ps) = append p (append "." (join_dot (q ∷ ps)))

join_dot-prepend :
    (c : Char) (ps : List String) → join_dot (prepend c ps) ≡ String.◌∷◌ c (join_dot ps)
unfolding join_dot prepend
join_dot-prepend c [] = refl
join_dot-prepend c (p ∷ []) = refl
join_dot-prepend c (p ∷ q ∷ ps) = cons-append c p _

-- A text has at least one part.
data HasParts : List String → Type 0 where
  parts : (p : String) (ps : List String) → HasParts (p ∷ ps)

prepend-HasParts : (c : Char) (ps : List String) → HasParts (prepend c ps)
unfolding prepend
prepend-HasParts c [] = parts _ _
prepend-HasParts c (p ∷ ps) = parts _ _

split_dot-HasParts : (s : String) → HasParts (split_dot s)
unfolding split_dot
split_dot-HasParts String.[] = parts _ _
split_dot-HasParts (String.◌∷◌ c s) = elim (Bool-cases (code c == b'.')) [
  | inl e ↦ rw e (parts _ _)
  | inr e ↦ rw e (prepend-HasParts c (split_dot s))
]

join_dot-dot : (ps : List String) → HasParts ps → join_dot ("" ∷ ps) ≡ append "." (join_dot ps)
unfolding join_dot
join_dot-dot [] h = elim h [ ]
join_dot-dot (p ∷ ps) h = nil-append _

join_dot-one : (p : String) → join_dot (p ∷ []) ≡ p
unfolding join_dot
join_dot-one p = refl

code_eq : (a b : ℕ) → (a == b) ≡ true → a ≡ b
code_eq a b h = ground arith

append-dot : (c : Char) (s : String) → (code c == b'.') ≡ true → append "." s ≡ String.◌∷◌ c s
append-dot c s e =
    let dot : Char = "." in
    cons-append dot String.[] s
    ∙ ap (String.◌∷◌ dot) (nil-append s)
    ∙ ap (λ (d : Char). String.◌∷◌ d s) (Char-path dot c (sym (code_eq (code c) b'.' e)))

-- The parts of a text at its dots, joined by dots, are the text.
pub join_dot-split_dot : (s : String) → join_dot (split_dot s) ≡ s
unfolding split_dot
join_dot-split_dot String.[] = join_dot-one ""
join_dot-split_dot (String.◌∷◌ c s) = elim (Bool-cases (code c == b'.')) [
  | inl e ↦ rw e (
      join_dot-dot (split_dot s) (split_dot-HasParts s)
      ∙ ap (append ".") (join_dot-split_dot s)
      ∙ append-dot c s e)
  | inr e ↦ rw e (join_dot-prepend c (split_dot s) ∙ ap (String.◌∷◌ c) (join_dot-split_dot s))
]

pub join_dot-three :
    (a b c : String) → join_dot (a ∷ b ∷ c ∷ []) ≡ append (signed_part a b) (append "." c)
unfolding join_dot
join_dot-three a b c =
    ap (append a) (sym (append_assoc "." b (append "." c)))
    ∙ sym (append_assoc a (append "." b) (append "." c))
