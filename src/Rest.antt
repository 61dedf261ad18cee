-- ===== src/Rest.antt =====
-- api/rest: a request is tried until an answer is not worth another try. Times are in milliseconds.
pub mod Attempts
pub mod Tests
use coin_bot.Base.{
  ℕ, zero, suc, ◌+◌, ◌-◌, String, Bool, true, false, not, ◌&&◌, ◌||◌, Option, none, some, List, [],
  ◌∷◌, if◌then◌else◌, is_empty, leb, ltb, ◌==◌,
}
use coin_bot.Base.Dict.{Dict}
use coin_bot.Double.Int.{ℤ, pos, negsuc}

pub data HttpMethod : Type 0 where
  get : HttpMethod
  post : HttpMethod
  put : HttpMethod
  delete : HttpMethod

-- The target is the bytes of the path and the query.
pub record HttpRequest : Type 0 where
  pub method : HttpMethod
  pub host : String
  pub port : String
  pub target : List ℕ
  pub headers : Dict String
  pub body : String
  pub timeout : ℕ

pub record HttpResponse : Type 0 where
  pub status : ℕ
  pub headers : Dict String
  pub body : String

pub data RestErrorCode : Type 0 where
  resolve_failed : RestErrorCode
  connect_failed : RestErrorCode
  handshake_failed : RestErrorCode
  write_failed : RestErrorCode
  read_failed : RestErrorCode
  timeout : RestErrorCode
  bad_status : RestErrorCode
  invalid_argument : RestErrorCode
  parse_error : RestErrorCode
  unknown : RestErrorCode

-- The message, which is only logged, is left out.
pub record RestError : Type 0 where
  pub code : RestErrorCode
  pub http_status : ℕ

-- `Result`
pub data RestResult : Type 0 where
  response : HttpResponse → RestResult
  failed : RestError → RestResult

-- `scaled` is a delay times `backoff_multiplier`, as the cast to `long long` gives it.
pub record RetryPolicy : Type 0 where
  pub max_attempts : ℕ
  pub base_delay : ℕ
  pub scaled : ℕ → ℤ
  pub retry_on_429 : Bool
  pub retry_on_5xx : Bool
  pub retry_on_timeout : Bool
  pub retry_on_connect_fail : Bool
  pub retry_on_read_write_fail : Bool

unfoldable pub should_retry_status : ℕ → RetryPolicy → Bool
should_retry_status status p =
    if status == 429
    then p.retry_on_429
    else if leb 500 status && leb status 599
    then p.retry_on_5xx
    else false

unfoldable pub should_retry_error : RestErrorCode → RetryPolicy → Bool
should_retry_error RestErrorCode.resolve_failed p = p.retry_on_connect_fail
should_retry_error RestErrorCode.connect_failed p = p.retry_on_connect_fail
should_retry_error RestErrorCode.handshake_failed p = p.retry_on_connect_fail
should_retry_error RestErrorCode.write_failed p = p.retry_on_read_write_fail
should_retry_error RestErrorCode.read_failed p = p.retry_on_read_write_fail
should_retry_error RestErrorCode.timeout p = p.retry_on_timeout
should_retry_error RestErrorCode.bad_status p = false
should_retry_error RestErrorCode.invalid_argument p = false
should_retry_error RestErrorCode.parse_error p = false
should_retry_error RestErrorCode.unknown p = false

-- What a failed cast gives is not negative again.
unfoldable pub not_negative : ℕ → ℤ → ℕ
not_negative cur (pos next) = next
not_negative cur (negsuc n) = cur

unfoldable pub next_delay : RetryPolicy → ℕ → ℕ
unfolding not_negative
next_delay p cur =
    let next = not_negative cur (p.scaled cur) in if ltb 10000 next then 10000 else next

unfoldable pub should_retry : RestResult → RetryPolicy → Bool
unfolding should_retry_status should_retry_error
should_retry (response r) p = should_retry_status r.status p
should_retry (failed e) p = should_retry_error e.code p

-- The loop of `perform` with `left` more tries allowed after this one, number `attempt`: the delays that
-- it sleeps, the number of the last try, and what is returned. `once` is what `performOnce` answers at
-- each try.
unfoldable pub perform_from : (ℕ → RestResult) → RetryPolicy → ℕ → ℕ → ℕ → List ℕ × ℕ × RestResult
unfolding should_retry next_delay
perform_from once p delay attempt zero = ([], attempt, once attempt)
perform_from once p delay attempt (suc left) =
    let (delays, last, r) = perform_from once p (next_delay p delay) (attempt + 1) left in
    if should_retry (once attempt) p then (delay ∷ delays, last, r) else ([], attempt, once attempt)

abbrev pub no_bytes : List ℕ → Bool
no_bytes [] = true
no_bytes (c ∷ s) = false

-- `perform`; without an address nothing is tried.
unfoldable pub perform :
    (HttpRequest → ℕ → RestResult) → HttpRequest → RetryPolicy → List ℕ × ℕ × RestResult
unfolding perform_from
perform once req p =
    if is_empty req.host || no_bytes req.target
    then ([], 0, failed (record { code = RestErrorCode.invalid_argument; http_status = 0 }))
    else perform_from (once req) p p.base_delay 1 (p.max_attempts - 1)

-- How a stage of a request ends: well, by a timeout, or by another error.
pub data Stage : Type 0 where
  passed : Stage
  timed_out : Stage
  broken : Stage

-- What happens to one try: its stages up to the answer, which is there when all pass, and the shutdown,
-- whose errors are let go.
pub record Try : Type 0 where
  pub resolve : Stage
  pub set_host_name : Bool
  pub connect : Stage
  pub handshake : Stage
  pub write : Stage
  pub read : Stage
  pub shutdown : Stage
  pub answer : HttpResponse

-- `makeError` after `isTimeoutEc`
unfoldable pub stage_or : Stage → RestErrorCode → RestResult → RestResult
stage_or passed code next = next
stage_or timed_out code next = failed (record { code = RestErrorCode.timeout; http_status = 0 })
stage_or broken code next = failed (record { code = code; http_status = 0 })

unfoldable pub perform_once : Try → RestResult
unfolding stage_or
perform_once t = stage_or t.resolve RestErrorCode.resolve_failed (
    if not t.set_host_name
    then failed (record { code = RestErrorCode.handshake_failed; http_status = 0 })
    else stage_or t.connect RestErrorCode.connect_failed (
        stage_or t.handshake RestErrorCode.handshake_failed (
          stage_or t.write RestErrorCode.write_failed
            (stage_or t.read RestErrorCode.read_failed (response t.answer)))))
