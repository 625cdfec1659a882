-- ===== src/Throttling.antt =====
-- `isAzureRequestsThrottled` and `parseRetryAfterHeader` of pkg/cloudprovider/azure/azure_util.go.
use cluster_autoscaler_provi.Base.Atoi.{atoi}
use cluster_autoscaler_provi.Base.Int.{ℤ, pos, negsuc, int64, ◌-ℤ◌, sub_ℕ}
use cluster_autoscaler_provi.Base.Text.{Text}
use cluster_autoscaler_provi.Base.{ℕ, ◌+◌, ◌*◌, ◌==◌, Option, none, some, if◌then◌else◌, is_empty}
use cluster_autoscaler_provi.Errors.{response, Error, api}

-- `a * k` for a positive k.
abbrev pub times : ℕ → ℤ → ℤ
times k (pos n) = pos (n * k)
times k (negsuc n) = sub_ℕ 0 (n * k + k)

-- `time.Duration(seconds) * time.Second`, which wraps round.
abbrev pub seconds : ℤ → ℤ
seconds n = int64 (times 1000000000 n)

-- The seconds, or else the time until the date, which `http.ParseTime` reads, or else nothing.
unfoldable pub parse_retry_after_header : (Text → Option ℤ) → ℤ → Text → ℤ
unfolding atoi
parse_retry_after_header parse_time now header =
    if is_empty header then pos 0 else elim (atoi header) [
      | some n ↦ seconds n
      | none ↦ elim (parse_time header) [ some t ↦ t -ℤ now | none ↦ pos 0 ]
    ]

-- How long to wait where the error is a response of status 429.
unfoldable pub is_azure_requests_throttled : (Text → Option ℤ) → ℤ → Error → Option ℤ
unfolding parse_retry_after_header
is_azure_requests_throttled parse_time now (api (response status code header)) =
    if status == 429 then some (parse_retry_after_header parse_time now header) else none
is_azure_requests_throttled parse_time now e = none
