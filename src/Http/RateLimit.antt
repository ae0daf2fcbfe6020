-- ===== src/Http/RateLimit.antt =====
-- services/queue-service/internal/httpapi/ratelimit.go. The tokens, floats in the source, are exact
-- here: they are counted in parts of which a token has `per_token`, and a limit of n tokens per
-- minute gives n parts in each nanosecond.
pub mod Bound
use Prim.Native.Char.{code}
use qms.Base.{
  ℕ, ◌+◌, ◌-◌, ◌*◌, String, Bool, true, not, ◌||◌, Option, none, some, List, [], ◌∷◌, ◌=?◌, ◌==◌,
  if◌then◌else◌, maybe, ltb, find, update,
}
use qms.Base.Int.{ℤ, is_positive, pos_part}

pub record RateLimitConfig : Type 0 where
  pub ip_per_minute : ℤ
  pub ip_burst : ℤ
  pub tenant_per_minute : ℤ
  pub tenant_burst : ℤ

-- A bucket under its key; `last` in nanoseconds.
pub record Bucket : Type 0 where
  pub key : String
  pub tokens : ℕ
  pub last : ℕ

pub record TokenLimiter : Type 0 where
  pub rate : ℕ
  pub burst : ℕ
  pub buckets : List Bucket

pub record RateLimiter : Type 0 where
  pub ip_limiter : TokenLimiter
  pub tenant_limiter : TokenLimiter

abbrev pub per_token : ℕ
per_token = 60_000_000_000

unfoldable pub new_token_limiter : ℤ → ℤ → TokenLimiter
new_token_limiter per_minute burst = record {
  rate = if is_positive per_minute then pos_part per_minute else 60;
  burst = if is_positive burst then pos_part burst else 20;
  buckets = [];
}

unfoldable pub new_rate_limiter : RateLimitConfig → RateLimiter
unfolding new_token_limiter
new_rate_limiter c = record {
  ip_limiter = new_token_limiter c.ip_per_minute c.ip_burst;
  tenant_limiter = new_token_limiter c.tenant_per_minute c.tenant_burst;
}

abbrev pub min : ℕ → ℕ → ℕ
min a b = if ltb a b then a else b

abbrev pub has_key : String → Bucket → Bool
has_key key b = b.key =? key

-- The tokens of a bucket at `now`, before the request.
abbrev pub refilled : TokenLimiter → ℕ → Bucket → ℕ
refilled l now b = min (l.burst * per_token) (b.tokens + (now - b.last) * l.rate)

abbrev pub new_bucket : TokenLimiter → String → ℕ → Bucket
new_bucket l key now = record { key = key; tokens = l.burst * per_token - per_token; last = now }

-- The bucket `b'` after a request at `now` that found `tokens`.
abbrev pub spent : ℕ → ℕ → Bucket → Bucket
spent tokens now b' = record b' {
  tokens = if ltb tokens per_token then tokens else tokens - per_token;
  last = now;
}

-- `allow`, at the clock's `now`, which does not run backwards.
unfoldable pub allow : String → ℕ → TokenLimiter → Bool × TokenLimiter
allow key now l =
    maybe (find (has_key key) l.buckets)
      (true, record l { buckets = new_bucket l key now ∷ l.buckets })
      λ (b : Bucket).
        let tokens = refilled l now b in
        (
          not (ltb tokens per_token),
          record l { buckets = update (has_key key) (spent tokens now) l.buckets },
        )

-- What the middleware reads of a request. `json_fields` is the object in the body, `none` if the
-- body cannot be read, or is none; the values that are no texts are not listed.
pub record LimitedRequest : Type 0 where
  pub header : String → String
  pub query : String → String
  pub remote_addr : String
  pub has_body : Bool
  pub json_fields : Option (String → Option String)

-- `strings.TrimSpace`, `strings.Contains`, and `net.SplitHostPort` with the host alone.
pub record TextTools : Type 0 where
  pub trim_space : String → String
  pub contains : String → String → Bool
  pub split_host_port : String → Option String

-- `strings.Split(s, ",")[0]`
unfoldable pub before_comma : String → String
before_comma String.[] = ""
before_comma (String.◌∷◌ c s) =
    let rest = before_comma s in if code c == b',' then "" else String.◌∷◌ c rest

module _ (T : TextTools) (r : LimitedRequest) where
  unfoldable pub client_ip : String
  client_ip =
      let forwarded = r.header "X-Forwarded-For" in
      if forwarded =? ""
      then maybe (T.split_host_port r.remote_addr) r.remote_addr (λ host. host)
      else T.trim_space (before_comma forwarded)

  -- A header, or else a parameter of the query.
  abbrev pub named : String → String → String
  named header parameter =
      let value = T.trim_space (r.header header) in
      if value =? "" then T.trim_space (r.query parameter) else value

  abbrev pub field_or : String → Option (String → Option String) → String → String
  field_or value none name = value
  field_or value (some fields) name =
      if value =? "" then maybe (fields name) "" T.trim_space else value

  unfoldable pub extract_tenant_and_request_id : String × String
  extract_tenant_and_request_id =
      let tenant_id = named "X-Tenant-ID" "tenant_id" in
      let request_id = named "X-Request-ID" "request_id" in
      if not (tenant_id =? "") || (not (request_id =? "") || not r.has_body)
      then (tenant_id, request_id)
      else if not (T.contains (r.header "Content-Type") "application/json")
      then (tenant_id, request_id)
      else (
        field_or tenant_id r.json_fields "tenant_id",
        field_or request_id r.json_fields "request_id",
      )

  -- `Middleware`, whose limiters read the clock at `at_ip` and at `at_tenant`: `some` is the id of
  -- the request that is answered with 429, `none` that the next handler is called.
  unfoldable pub limit : ℕ → ℕ → RateLimiter → Option String × RateLimiter
  limit at_ip at_tenant l =
      let ip = client_ip in
      let (by_ip, ips) = if ip =? "" then (true, l.ip_limiter) else allow ip at_ip l.ip_limiter in
      let (tenant_id, request_id) = extract_tenant_and_request_id in
      let (by_tenant, tenants) =
        if tenant_id =? ""
        then (true, l.tenant_limiter)
        else allow tenant_id at_tenant l.tenant_limiter in
      if not by_ip
      then (some "", record l { ip_limiter = ips })
      else if not by_tenant
      then (some request_id, record { ip_limiter = ips; tenant_limiter = tenants })
      else (none, record { ip_limiter = ips; tenant_limiter = tenants })
