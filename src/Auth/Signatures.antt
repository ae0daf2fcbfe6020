-- ===== src/Auth/Signatures.antt =====
-- services/auth-service/internal/httpapi/handler.go: the tokens that `validateJWT` accepts.
use Prim.Native.String.{◌++◌ as append}
use qms.Base.{
  ℕ, ◌≤◌, String, Bool, not, ◌&&◌, ◌=?◌, true, false, some, List, [], ◌∷◌, ◌≡◌, ◌≢◌, refl, sym, ap,
  ◌∙◌, ltb, arith, Option-cases, Bool-cases, inl, inr, ◌⊎◌, eq_iff,
}
use qms.Base.Int.{is_positive, pos_part}
use qms.Auth.Dots.{join_dot, join_dot-split_dot, join_dot-three}
use qms.Auth.Tokens.{
  Claims, Codecs, split_dot, three_parts, signed_part, check_claims, claims_of, validate_jwt,
}

-- A token with its three parts, signed with the secret, whose payload holds claims of the subject,
-- the email and the issuer that have not expired at `now`.
pub record Accepted (K : Codecs) (token secret issuer : String) (now : ℕ) (subject email : String)
    : Type 0 where
  pub header : String
  pub payload : String
  pub part : String
  pub signature : String
  pub bytes : String
  pub claims : Claims
  pub is_token : token ≡ append (signed_part header payload) (append "." part)
  pub decoded : K.decode_raw_url part ≡ some signature
  pub signed : signature ≡ K.hmac_sha256 secret (signed_part header payload)
  pub read : K.decode_raw_url payload ≡ some bytes
  pub unmarshalled : K.unmarshal_claims bytes ≡ some claims
  pub of_subject : (claims.subject ≡ subject) × (subject ≢ "")
  pub of_email : claims.email ≡ email
  pub of_issuer : (issuer ≡ "") ⊎ (claims.issuer ≡ issuer)
  pub in_time : (is_positive claims.expires ≡ false) ⊎ (now ≤ pos_part claims.expires)

three_parts-some :
    (ps : List String) (a b c : String) → three_parts ps ≡ some (a, b, c) → ps ≡ a ∷ b ∷ c ∷ []
three_parts-some [] a b c h = absurd (cc (h))
three_parts-some (p ∷ []) a b c h = absurd (cc (h))
three_parts-some (p ∷ q ∷ []) a b c h = absurd (cc (h))
three_parts-some (p ∷ q ∷ r ∷ []) a b c h = cc (h)
three_parts-some (p ∷ q ∷ r ∷ x ∷ ps) a b c h = absurd (cc (h))

-- What the checks of the claims leave.
record Checked (issuer : String) (now : ℕ) (claims : Claims) (subject email : String) : Type 0 where
  of_subject : (claims.subject ≡ subject) × (subject ≢ "")
  of_email : claims.email ≡ email
  of_issuer : (issuer ≡ "") ⊎ (claims.issuer ≡ issuer)
  in_time : (is_positive claims.expires ≡ false) ⊎ (now ≤ pos_part claims.expires)

either_issuer : (i j : String) → (not (i =? "") && not (j =? i)) ≡ false → (i ≡ "") ⊎ (j ≡ i)
either_issuer i j h = elim (Bool-cases (i =? "")) [
  | inl e ↦ inl ((eq_iff i "").0 e)
  | inr e ↦ inr ((eq_iff j i).0 (ground (arith, h, e)))
]

not_late : (p : Bool) (a b : ℕ) → (p && ltb a b) ≡ false → (p ≡ false) ⊎ (b ≤ a)
not_late false a b h = inl refl
not_late true a b h = inr (ground (arith, h))

check_claims-some :
    (issuer : String) (now : ℕ) (claims : Claims) (subject email : String)
    → check_claims issuer now claims ≡ some (subject, email)
    → Checked issuer now claims subject email
unfolding check_claims
check_claims-some issuer now claims subject email h = elim (Bool-cases (claims.subject =? "")) [
  | inl e ↦ absurd (cc (rw e at h))
  | inr e ↦ elim (Bool-cases (not (issuer =? "") && not (claims.issuer =? issuer))) [
    | inl i ↦ absurd (cc (rw (e, i) at h))
    | inr i ↦ elim (Bool-cases (is_positive claims.expires && ltb (pos_part claims.expires) now)) [
      | inl x ↦ absurd (cc (rw (e, i, x) at h))
      | inr x ↦
          let k = rw (e, i, x) at h in
          let same : claims.subject ≡ subject = cc (k) in
          record {
            of_subject = (same, λ q. absurd (cc (e, (eq_iff claims.subject "").1 (same ∙ q))));
            of_email = cc (k);
            of_issuer = either_issuer issuer claims.issuer i;
            in_time = not_late (is_positive claims.expires) (pos_part claims.expires) now x;
          }
    ]
  ]
]

module _ (K : Codecs) (token secret issuer : String) (now : ℕ) where
  -- `validateJWT` accepts a token only if it is three parts between two dots, the third the
  -- encoding of the HMAC, under the secret, of the first two with their dot, and the second that of
  -- claims whose subject and email are returned, whose subject is not empty, whose issuer is the
  -- one asked for, if one is, and whose expiry, if it is positive, is not before `now`.
  pub validate_jwt-Accepted :
      (subject email : String)
      → validate_jwt K token secret issuer now ≡ some (subject, email)
      → Accepted K token secret issuer now subject email
  unfolding validate_jwt claims_of
  validate_jwt-Accepted subject email h = elim (Option-cases (three_parts (split_dot token))) [
    | inl e ↦ absurd (cc (rw (e, validate_jwt) at h))
    | inr ((a, b, c), e) ↦ elim (Option-cases (K.decode_raw_url c)) [
      | inl f ↦ absurd (cc (rw (e, f, validate_jwt) at h))
      | inr (signature, f) ↦
          elim (Bool-cases (signature =? K.hmac_sha256 secret (signed_part a b))) [
            | inl g ↦ elim (Option-cases (K.decode_raw_url b)) [
              | inl r ↦ absurd (cc (rw (e, f, g, r, validate_jwt, claims_of) at h))
              | inr (bytes, r) ↦ elim (Option-cases (K.unmarshal_claims bytes)) [
                | inl u ↦ absurd (cc (rw (e, f, g, r, u, validate_jwt, claims_of) at h))
                | inr (claims, u) ↦
                    let k =
                      check_claims-some issuer now claims subject email
                        (rw (e, f, g, r, u, validate_jwt, claims_of) at h) in
                    record {
                      header = a;
                      payload = b;
                      part = c;
                      signature = signature;
                      bytes = bytes;
                      claims = claims;
                      is_token =
                          sym (join_dot-split_dot token)
                          ∙ ap join_dot (three_parts-some _ a b c e)
                          ∙ join_dot-three a b c;
                      decoded = f;
                      signed = (eq_iff signature _).0 g;
                      read = r;
                      unmarshalled = u;
                      of_subject = k.of_subject;
                      of_email = k.of_email;
                      of_issuer = k.of_issuer;
                      in_time = k.in_time;
                    }
              ]
            ]
            | inr g ↦ absurd (cc (rw (e, f, g, validate_jwt) at h))
          ]
    ]
  ]
