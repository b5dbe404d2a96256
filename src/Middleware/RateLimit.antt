-- ===== src/Middleware/RateLimit.antt =====
-- pkg/middleware/ratelimit.go: limiters and the filter of the gateway. The bucket of
-- golang.org/x/time/rate and the BBR limiter of kratos are parameters.
use kratos_micro_layout.Prelude.{Bool, Option, none, some, Text, codes, if◌then◌else◌}
use kratos_micro_layout.Prelude.Int.{ℤ, pos, leb_ℤ}
use kratos_micro_layout.Prelude.Result.{Result, ok, err}
use kratos_micro_layout.Text.{trim_space, equal_fold}
use kratos_micro_layout.Http.{
  Writer, Serve, set_header, write_header, write, content_type, status_too_many_requests,
}

abbrev pub default_qps : ℤ
default_qps = pos 100

-- rate.Limiter: a bucket for a rate and a burst, and Allow, which takes a token if there is one.
pub record Buckets : Type 1 where
  pub Bucket : Type 0
  pub new_limiter : ℤ → ℤ → Bucket
  pub allow : Bucket → Bucket × Bool

-- The rate and the burst that NewTokenLimiter makes its bucket with.
unfoldable pub effective_qps : ℤ → ℤ
effective_qps qps = if leb_ℤ qps (pos 0) then default_qps else qps

unfoldable pub effective_burst : ℤ → ℤ → ℤ
unfolding effective_qps
effective_burst qps burst = if leb_ℤ burst (pos 0) then effective_qps qps else burst

-- The error of Allow.
pub data LimitError : Type 0 where
  limit_exceed : LimitError

-- The limiters that a service can mount.
pub data Limiter (B : Type 0) : Type 0 where
  bbr : Limiter B
  token : B → Limiter B

unfoldable pub write_too_many_requests : Writer → Writer
unfolding set_header
write_too_many_requests w =
    (write (codes "{\"code\":429,\"message\":\"rate limit exceeded\",\"data\":null}") (
      write_header status_too_many_requests
        (set_header content_type (codes "application/json") w))).0

module _ (b : Buckets) where
  unfoldable pub new_token_limiter : ℤ → ℤ → b.Bucket
  new_token_limiter qps burst = b.new_limiter (effective_qps qps) (effective_burst qps burst)

  -- tokenBucket.Allow; its callback does nothing.
  unfoldable pub allow : b.Bucket → b.Bucket × Result LimitError (Unit {0})
  allow bucket =
      let (bucket', good) = b.allow bucket in (bucket', if good then ok tt else err limit_exceed)

  -- RateLimitServer
  unfoldable pub rate_limit_server : Bool → Text → ℤ → ℤ → Option (Limiter b.Bucket)
  rate_limit_server enabled kind qps burst =
      if enabled
      then if equal_fold (trim_space kind) (codes "token")
        then some (token (new_token_limiter qps burst))
        else some bbr
      else none

  -- The handler that RateLimitFilter makes of `next`, with its bucket as its state.
  unfoldable pub limited : {S : Type 0} → Serve S → Serve (b.Bucket × S)
  limited next (bucket, s) req w =
      let (bucket', result) = allow bucket in
      elim result [
        | err e ↦ ((bucket', s), write_too_many_requests w)
        | ok _ ↦ let (s', w') = next s req w in ((bucket', s'), w')
      ]

  -- RateLimitFilter: the bucket of the filter, if it is enabled.
  unfoldable pub rate_limit_filter : Bool → ℤ → ℤ → Option b.Bucket
  unfolding new_token_limiter
  rate_limit_filter enabled qps burst = if enabled then some (new_token_limiter qps burst) else none
