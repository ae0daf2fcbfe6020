-- ===== src/Auth/Tokens.antt =====
-- services/auth-service/internal/httpapi/handler.go: `validateJWT`, `extractSAMLNameID` and
-- `bearerToken`. The decoders, the HMAC and the XML scanner are given.
use Prim.Native.Char.{code}
use Prim.Native.String.{◌++◌ as append}
use qms.Base.{
  ℕ, String, Bool, not, ◌&&◌, Option, none, some, List, [], ◌∷◌, ◌=?◌, ◌==◌, if◌then◌else◌, ltb,
}
use qms.Base.Int.{ℤ, is_positive, pos_part}
use qms.Http.Text.{prepend}

pub record Claims : Type 0 where
  pub subject : String
  pub email : String
  pub issuer : String
  pub expires : ℤ

-- What a call of `decoder.Token` gives: the start of an element, with what `DecodeElement` makes of
-- it, or another token.
pub data XmlToken : Type 0 where
  start_element : String → Option String → XmlToken
  other_token : XmlToken

-- Bytes are a text; `none` is an error. `hmac_sha256` takes the key first. `xml_tokens` are those
-- before the first error, the end of the data included.
pub record Codecs : Type 0 where
  pub decode_raw_url : String → Option String
  pub decode_standard : String → Option String
  pub hmac_sha256 : String → String → String
  pub unmarshal_claims : String → Option Claims
  pub xml_tokens : String → List XmlToken
  pub equal_fold : String → String → Bool
  pub trim_space : String → String

-- `strings.Split(s, ".")`
unfoldable pub split_dot : String → List String
split_dot String.[] = "" ∷ []
split_dot (String.◌∷◌ c s) =
    let rest = split_dot s in if code c == b'.' then "" ∷ rest else prepend c rest

-- Exactly three parts.
abbrev pub three_parts : List String → Option (String × String × String)
three_parts (a ∷ b ∷ c ∷ []) = some (a, b, c)
three_parts _ = none

abbrev pub signed_part : String → String → String
signed_part header payload = append header (append "." payload)

-- The checks of the claims at `now`, the seconds of `time.Now().Unix()`.
unfoldable pub check_claims : String → ℕ → Claims → Option (String × String)
check_claims issuer now c =
    if c.subject =? ""
    then none
    else if not (issuer =? "") && not (c.issuer =? issuer)
    then none
    else if is_positive c.expires && ltb (pos_part c.expires) now
    then none
    else some (c.subject, c.email)

module _ (K : Codecs) where
  -- What follows the check of the signature.
  unfoldable pub claims_of : String → String → ℕ → Option (String × String)
  claims_of payload issuer now = elim (K.decode_raw_url payload) [
    | none ↦ none
    | some bytes ↦ elim (K.unmarshal_claims bytes) [
      | none ↦ none
      | some claims ↦ check_claims issuer now claims
    ]
  ]

  -- The subject and the email of a valid token.
  unfoldable pub validate_jwt : String → String → String → ℕ → Option (String × String)
  unfolding claims_of
  validate_jwt token secret issuer now = elim (three_parts (split_dot token)) [
    | none ↦ none
    | some (header, payload, part) ↦ elim (K.decode_raw_url part) [
      | none ↦ none
      | some signature ↦
          if signature =? K.hmac_sha256 secret (signed_part header payload)
          then claims_of payload issuer now
          else none
    ]
  ]

  -- The loop of `extractSAMLNameID`, over the tokens that are left.
  unfoldable pub first_name_id : List XmlToken → Option String
  first_name_id [] = none
  first_name_id (other_token ∷ rest) = first_name_id rest
  first_name_id (start_element name text ∷ rest) =
      let next = first_name_id rest in
      if K.equal_fold name "NameID"
      then elim text [ none ↦ none | some t ↦ some (K.trim_space t) ]
      else next

  unfoldable pub extract_saml_name_id : String → Option String
  extract_saml_name_id bytes = first_name_id (K.xml_tokens bytes)
