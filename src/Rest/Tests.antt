-- ===== src/Rest/Tests.antt =====
-- The tries of a request that times out and is then answered.
use coin_bot.Base.{ℕ, true, [], ◌∷◌, ◌≡◌, ◌≤◌, refl, arith, All, if◌then◌else◌, ◌==◌, ◌*◌}
use coin_bot.Double.Int.{pos}
use coin_bot.Rest.{
  HttpMethod, HttpRequest, HttpResponse, RestResult, RetryPolicy, Stage, response, perform,
  perform_once,
}
use coin_bot.Rest.Attempts.{Tries, perform-Tries}

-- The default of RetryPolicy.h
abbrev policy : RetryPolicy
policy = record {
  max_attempts = 2;
  base_delay = 200;
  scaled = λ cur. pos (cur * 2);
  retry_on_429 = true;
  retry_on_5xx = true;
  retry_on_timeout = true;
  retry_on_connect_fail = true;
  retry_on_read_write_fail = true;
}

abbrev request : HttpRequest
request = record {
  method = HttpMethod.post;
  host = "api.upbit.com";
  port = "443";
  target = b'/' ∷ [];
  headers = [];
  body = "";
  timeout = 5000;
}

abbrev accepted : HttpResponse
accepted = record { status = 201; headers = []; body = "" }

-- The first answer does not arrive, although the request was written.
abbrev answers : HttpRequest → ℕ → RestResult
answers req n = perform_once (record {
  resolve = Stage.passed;
  set_host_name = true;
  connect = Stage.passed;
  handshake = Stage.passed;
  write = Stage.passed;
  read = if n == 1 then Stage.timed_out else Stage.passed;
  shutdown = Stage.passed;
  answer = accepted;
})

-- A request that was written, a post too, is written again.
written_twice : perform answers request policy ≡ (200 ∷ [], 2, response accepted)
unfolding perform perform_once
written_twice = refl

perform-Tries_example :
    let (delays, last, r) = perform answers request policy in
    Tries
      (answers request)
      policy
      1
      (if policy.max_attempts == 0 then 1 else policy.max_attempts)
      delays
      last
      r
    × All (λ d. d ≤ 10000) delays
perform-Tries_example = perform-Tries answers request policy refl (omega arith)
