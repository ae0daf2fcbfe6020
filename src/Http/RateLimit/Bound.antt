-- ===== src/Http/RateLimit/Bound.antt =====
-- services/queue-service/internal/httpapi/ratelimit.go: how many requests of a key are let through.
use native.Mathlib.Nat.{add-mul, zero-mul, mul-le-mul_right}
use qms.Base.{
  ℕ, ◌+◌, ◌-◌, ◌*◌, ◌≤◌, String, Bool, true, false, not, ◌&&◌, Option, none, some, List, [], ◌∷◌,
  ◌=?◌, if◌then◌else◌, maybe, ltb, find, update, ◌≡◌, refl, sym, subst, ap, ◌∙◌, arith, Bool-cases,
  Option-cases, inl, inr, eq_iff, eq_refl,
}
use qms.Http.RateLimit.{
  Bucket, TokenLimiter, per_token, min, has_key, refilled, new_bucket, spent, allow,
}

-- How many of some requests, each with the time of its call of `allow`, the limiter lets through
-- for a key.
pub allowed : String → List (String × ℕ) → TokenLimiter → ℕ
allowed key [] l = 0
allowed key ((k, now) ∷ rest) l =
    let (ok, l') = allow k now l in (if ok && k =? key then 1 else 0) + allowed key rest l'

-- The times do not fall, and lie between `start` and `stop`.
abbrev pub InOrder : ℕ → List (String × ℕ) → ℕ → Type 0
InOrder start [] stop = start ≤ stop
InOrder start ((k, now) ∷ rest) stop = (start ≤ now) × InOrder now rest stop

-- The tokens of a key at a time: a full bucket, if it has none.
available : TokenLimiter → String → ℕ → ℕ
available l key now = maybe (find (has_key key) l.buckets) (l.burst * per_token) (refilled l now)

min-le : (a b : ℕ) → (min a b ≤ a) × (min a b ≤ b)
min-le a b = ground arith

min_grows : (a b c d : ℕ) → b ≤ c + d → min a b ≤ min a c + d
min_grows a b c d h = ground arith

elapsed :
    (last start now rate : ℕ)
    → start ≤ now
    → (now - last) * rate ≤ (start - last) * rate + (now - start) * rate
elapsed last start now rate h =
    let sum : now - last ≤ (start - last) + (now - start) = omega arith in
    omega (arith, mul-le-mul_right rate sum, add-mul (start - last) (now - start) rate)

grown :
    (l : TokenLimiter) (o : Option Bucket) (start now : ℕ)
    → start ≤ now
    → maybe o (l.burst * per_token) (refilled l now)
      ≤ maybe o (l.burst * per_token) (refilled l start) + (now - start) * l.rate
unfolding maybe
grown l none start now h = omega arith
grown l (some b) start now h =
    min_grows (l.burst * per_token) (b.tokens + (now - b.last) * l.rate)
      (b.tokens + (start - b.last) * l.rate) ((now - start) * l.rate)
      (omega (arith, elapsed b.last start now l.rate h))

-- Time adds the tokens of the rate at most.
available_grows :
    (l : TokenLimiter) (key : String) (start now : ℕ)
    → start ≤ now
    → available l key now ≤ available l key start + (now - start) * l.rate
unfolding available
available_grows l key start now h = grown l (find (has_key key) l.buckets) start now h

find-first :
    (p : Bucket → Bool) (x : Bucket) (bs : List Bucket) → p x ≡ true → find p (x ∷ bs) ≡ some x
unfolding find
find-first p x bs e = rw e refl

find-next :
    (p : Bucket → Bool) (x : Bucket) (bs : List Bucket) → p x ≡ false → find p (x ∷ bs) ≡ find p bs
unfolding find
find-next p x bs e = rw e refl

find-update_own :
    (key : String) (f : Bucket → Bucket) (bs : List Bucket) (b : Bucket)
    → ((b : Bucket) → (f b).key ≡ b.key)
    → find (has_key key) bs ≡ some b
    → find (has_key key) (update (has_key key) f bs) ≡ some (f b)
unfolding find update
find-update_own key f [] b same h = absurd (cc (h))
find-update_own key f (x ∷ bs) b same h = elim (Bool-cases (has_key key x)) [
  | inl e ↦
      let own : has_key key (f x) ≡ true = ap (λ (k : String). k =? key) (same x) ∙ e in
      let is_x : x ≡ b = cc (rw e at h) in rw e (rw own (ap (λ (y : Bucket). some (f y)) is_x))
  | inr e ↦ rw (e, e) (find-update_own key f bs b same (rw e at h))
]

find-update_other :
    (key other : String) (f : Bucket → Bucket) (bs : List Bucket)
    → ((b : Bucket) → (f b).key ≡ b.key)
    → (key =? other) ≡ false
    → find (has_key other) (update (has_key key) f bs) ≡ find (has_key other) bs
unfolding find update
find-update_other key other f [] same h = refl
find-update_other key other f (x ∷ bs) same h = elim (Bool-cases (has_key key x)) [
  | inl e ↦
      let old : has_key other x ≡ false =
        ap (λ (k : String). k =? other) ((eq_iff x.key key).0 e) ∙ h in
      let new : has_key other (f x) ≡ false = ap (λ (k : String). k =? other) (same x) ∙ old in
      rw e (rw (old, new) (find-update_other key other f bs same h))
  | inr e ↦ rw e (
      ap (λ (o : Option Bucket). if has_key other x then some x else o)
        (find-update_other key other f bs same h))
]

at_once : (now rate : ℕ) → (now - now) * rate ≡ 0
at_once now rate =
    let none_passed : now - now ≡ 0 = omega arith in
    ap (λ (n : ℕ). n * rate) none_passed ∙ zero-mul rate

fresh_bucket :
    (burst now rate : ℕ)
    → 1 ≤ burst
    → min (burst * per_token) (burst * per_token - per_token + (now - now) * rate) + per_token
      ≤ burst * per_token
fresh_bucket burst now rate h = ground (arith, at_once now rate)

used_bucket :
    (limit tokens now rate : ℕ)
    → min limit ((if ltb tokens per_token then tokens else tokens - per_token) + (now - now) * rate)
        + (if not (ltb tokens per_token) then per_token else 0)
      ≤ tokens
used_bucket limit tokens now rate = ground (arith, at_once now rate)

-- One call takes a token, if it lets the request through.
allow_own :
    (key : String) (now : ℕ) (l : TokenLimiter)
    → 1 ≤ l.burst
    → available (allow key now l).1 key now + (if (allow key now l).0 then per_token else 0)
      ≤ available l key now
unfolding allow available maybe
allow_own key now l h = elim (Option-cases (find (has_key key) l.buckets)) [
  | inl e ↦ rw e (
      rw (find-first (has_key key) (new_bucket l key now) l.buckets (eq_refl key))
        (fresh_bucket l.burst now l.rate h))
  | inr (b, e) ↦ rw e (
      rw (find-update_own key (spent (refilled l now b) now) l.buckets b (λ b. refl) e)
        (used_bucket (l.burst * per_token) (refilled l now b) now l.rate))
]

allow_other :
    (key other : String) (now : ℕ) (l : TokenLimiter)
    → (key =? other) ≡ false
    → available (allow key now l).1 other now ≡ available l other now
unfolding allow available maybe
allow_other key other now l h = elim (Option-cases (find (has_key key) l.buckets)) [
  | inl e ↦ rw e (rw (find-next (has_key other) (new_bucket l key now) l.buckets h) refl)
  | inr (b, e) ↦
      rw e (
        rw (find-update_other key other (spent (refilled l now b) now) l.buckets (λ b. refl) h)
          refl)
]

kept_limits :
    (key : String) (now : ℕ) (l : TokenLimiter)
    → ((allow key now l).1.burst ≡ l.burst) × ((allow key now l).1.rate ≡ l.rate)
unfolding allow maybe
kept_limits key now l = elim (Option-cases (find (has_key key) l.buckets)) [
  | inl e ↦ rw e (refl, refl)
  | inr (b, e) ↦ rw e (refl, refl)
]

counted :
    (ok same : Bool)
    → same ≡ true
    → (if ok && same then 1 else 0) * per_token ≡ (if ok then per_token else 0)
counted ok same e = ground (arith, e)

uncounted : (ok same : Bool) → same ≡ false → (if ok && same then 1 else 0) * per_token ≡ 0
uncounted ok same e = ground (arith, e)

-- What a call for `k` takes from `key`.
taken :
    (key k : String) (now : ℕ) (l : TokenLimiter)
    → 1 ≤ l.burst
    → available (allow k now l).1 key now
        + (if (allow k now l).0 && k =? key then 1 else 0) * per_token
      ≤ available l key now
taken key k now l h = elim (Bool-cases (k =? key)) [
  | inl e ↦ omega (
    arith,
    subst
        (λ (x : String).
          available (allow x now l).1 key now + (if (allow x now l).0 then per_token else 0)
          ≤ available l key now)
        (sym ((eq_iff k key).0 e)) (allow_own key now l h),
    counted (allow k now l).0 (k =? key) e,
  )
  | inr e ↦ omega (arith, allow_other k key now l e, uncounted (allow k now l).0 (k =? key) e)
]

in_time : (now : ℕ) (rest : List (String × ℕ)) (stop : ℕ) → InOrder now rest stop → now ≤ stop
in_time now [] stop h = h
in_time now ((k, t) ∷ rest) stop h = omega (arith, h.0, in_time t rest stop h.1)

spans :
    (start now stop rate : ℕ)
    → start ≤ now
    → now ≤ stop
    → (now - start) * rate + (stop - now) * rate ≡ (stop - start) * rate
spans start now stop rate h k =
    let sum : (now - start) + (stop - now) ≡ stop - start = omega arith in
    sym (add-mul (now - start) (stop - now) rate) ∙ ap (λ (n : ℕ). n * rate) sum

allowed_available :
    (key : String) (requests : List (String × ℕ)) (l : TokenLimiter) (start stop : ℕ)
    → 1 ≤ l.burst
    → InOrder start requests stop
    → allowed key requests l * per_token ≤ available l key start + (stop - start) * l.rate
unfolding allowed
allowed_available key [] l start stop h o = omega arith
allowed_available key ((k, now) ∷ rest) l start stop h o =
    let l' = (allow k now l).1 in
    let one : ℕ = if (allow k now l).0 && k =? key then 1 else 0 in
    let (burst, rate) = kept_limits k now l in
    let later : allowed key rest l' * per_token ≤ available l' key now + (stop - now) * l.rate =
      subst (λ (r : ℕ). allowed key rest l' * per_token ≤ available l' key now + (stop - now) * r)
        rate (allowed_available key rest l' now stop (omega (arith, burst)) o.1) in
    omega (
      arith,
      later,
      taken key k now l h,
      available_grows l key start now o.0,
      spans start now stop l.rate o.0 (in_time now rest stop o.1),
      add-mul one (allowed key rest l') per_token,
    )

available-le :
    (l : TokenLimiter) (o : Option Bucket) (now : ℕ)
    → maybe o (l.burst * per_token) (refilled l now) ≤ l.burst * per_token
unfolding maybe
available-le l none now = omega arith
available-le l (some b) now = (min-le (l.burst * per_token) (b.tokens + (now - b.last) * l.rate)).0

-- Whatever buckets a limiter has, if its burst is positive: of any calls of `allow` whose times do
-- not fall, those for one key that are let through are at most the burst and, for each minute
-- between the times `start` and `stop` that they lie between, the limit per minute, up to the part
-- of a token that a broken minute gives.
pub allow_bounded :
    (key : String) (requests : List (String × ℕ)) (l : TokenLimiter) (start stop : ℕ)
    → 1 ≤ l.burst
    → InOrder start requests stop
    → allowed key requests l * per_token ≤ l.burst * per_token + (stop - start) * l.rate
unfolding available
allow_bounded key requests l start stop h o = omega (
  arith,
  allowed_available key requests l start stop h o,
  available-le l (find (has_key key) l.buckets) start,
)
