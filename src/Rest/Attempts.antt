-- ===== src/Rest/Attempts.antt =====
-- The tries of `perform`, and its pauses.
use coin_bot.Base.{
  ℕ, zero, suc, ◌+◌, ◌-◌, ◌≤◌, ◌<◌, true, false, ◌||◌, List, ◌≡◌, refl, ap, ◌∙◌, ◌⊎◌, inl, inr,
  arith, Bool-cases, All, length, if◌then◌else◌, ◌==◌, is_empty,
}
use coin_bot.Rest.{
  HttpRequest, RestResult, RetryPolicy, should_retry, next_delay, perform_from, perform, no_bytes,
}

next_delay-bounded : (p : RetryPolicy) (cur : ℕ) → next_delay p cur ≤ 10000
unfolding next_delay
next_delay-bounded p cur = ground arith

-- The tries from number `first` on, up to `last`: all but the last were worth another, each was followed by
-- a pause, and the last was not worth another or was the last that is allowed.
pub record Tries (once : ℕ → RestResult) (p : RetryPolicy) (first most : ℕ) (delays : List ℕ)
    (last : ℕ) (r : RestResult) : Type 0 where
  pub from : first ≤ last
  pub upto : last ≤ most
  pub paused : first + length delays ≡ last
  pub answered : r ≡ once last
  pub worth : (i : ℕ) → first ≤ i → i < last → should_retry (once i) p ≡ true
  pub ended : (should_retry (once last) p ≡ false) ⊎ (last ≡ most)

worth_from :
    (once : ℕ → RestResult) (p : RetryPolicy) (attempt last : ℕ)
    → should_retry (once attempt) p ≡ true
    → ((i : ℕ) → attempt + 1 ≤ i → i < last → should_retry (once i) p ≡ true)
    → (i : ℕ) → attempt ≤ i
    → i < last
    → should_retry (once i) p ≡ true
worth_from once p attempt last e f i h h' = elim (Bool-cases (i == attempt)) [
  | inl q ↦ let same : i ≡ attempt = ground arith in ap (λ k. should_retry (once k) p) same ∙ e
  | inr q ↦ f i (ground arith) h'
]

tried :
    (once : ℕ → RestResult) (p : RetryPolicy) (delay attempt left : ℕ)
    → let (delays, last, r) = perform_from once p delay attempt left in
      Tries once p attempt (attempt + left) delays last r
unfolding perform_from
tried once p delay attempt zero = record {
  from = omega arith;
  upto = omega arith;
  paused = omega arith;
  answered = refl;
  worth = λ i h h'. absurd (omega arith);
  ended = inr (omega arith);
}
tried once p delay attempt (suc left) =
    let t = tried once p (next_delay p delay) (attempt + 1) left in
    elim (Bool-cases (should_retry (once attempt) p)) [
      | inr e ↦ rw e (record {
        from = omega arith;
        upto = omega arith;
        paused = omega arith;
        answered = refl;
        worth = λ i h h'. absurd (omega arith);
        ended = inl e;
      })
      | inl e ↦ rw e (record {
        from = omega (arith, t.from);
        upto = omega (arith, t.upto);
        paused = omega (arith, t.paused);
        answered = t.answered;
        worth = worth_from once p attempt _ e t.worth;
        ended = elim t.ended [ inl done ↦ inl done | inr all ↦ inr (omega (arith, all)) ];
      })
    ]

pauses_bounded :
    (once : ℕ → RestResult) (p : RetryPolicy) (delay attempt left : ℕ)
    → delay ≤ 10000
    → All (λ d. d ≤ 10000) (perform_from once p delay attempt left).0
unfolding perform_from
pauses_bounded once p delay attempt zero h = tt
pauses_bounded once p delay attempt (suc left) h =
    let rest =
      pauses_bounded once p (next_delay p delay) (attempt + 1) left (next_delay-bounded p delay) in
    elim (Bool-cases (should_retry (once attempt) p)) [ inl e ↦ rw e (h, rest) | inr e ↦ rw e tt ]

-- A request with a host and a target is tried once at least and as often as the policy allows at most,
-- with one pause of at most ten seconds, if the first is one, after each try but the last. Every answer
-- but the last was worth another try; the last was not, or no more were allowed, and it is returned.
pub perform-Tries :
    (once : HttpRequest → ℕ → RestResult) (req : HttpRequest) (p : RetryPolicy)
    → is_empty req.host || no_bytes req.target ≡ false
    → p.base_delay ≤ 10000
    → let (delays, last, r) = perform once req p in
      Tries (once req) p 1 (if p.max_attempts == 0 then 1 else p.max_attempts) delays last r
      × All (λ d. d ≤ 10000) delays
unfolding perform
perform-Tries once req p h base =
    let most : (if p.max_attempts == 0 then 1 else p.max_attempts) ≡ 1 + (p.max_attempts - 1) =
      ground arith in
    rw (h, most)
      (
        tried (once req) p p.base_delay 1 (p.max_attempts - 1),
        pauses_bounded (once req) p p.base_delay 1 (p.max_attempts - 1) base,
      )
