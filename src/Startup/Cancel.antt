-- ===== src/Startup/Cancel.antt =====
-- What `cancelBotOpenOrders` asks of the exchange.
use coin_bot.Base.{
  ℕ, zero, suc, ◌+◌, ◌<◌, ◌≢◌, String, Bool, true, false, List, [], ◌∷◌, ◌++◌, append_assoc, ◌≡◌,
  refl, sym, subst, ap, ◌⊎◌, inl, inr, arith, if◌then◌else◌, is_empty, Bool-cases, Option-cases,
  ◌∙◌, value_or, All,
}
use coin_bot.Domain.Order.{Order}
use coin_bot.Startup.Own.{Begins, own-Begins, Begins-own}
use coin_bot.Startup.{
  Options, Call, Answers, get_open_orders, cancel_order, is_own, uuid_of, try_cancel, cancel_each,
  verify, cancel_bot_open_orders,
}

abbrev pub again : ℕ → Call → List Call
again zero c = []
again (suc n) c = c ∷ again n c

-- Only looks at the open orders.
abbrev AreLooks : List Call → Type 0
AreLooks calls = All (λ c. c ≡ get_open_orders) calls

module _ {D : Type 0} where
  -- The bot's own orders of a list.
  unfoldable pub own_orders : Options → List (Order D) → List (Order D)
  own_orders opt [] = []
  own_orders opt (o ∷ os) = if is_own opt o then o ∷ own_orders opt os else own_orders opt os

  -- The orders of a list whose identifier begins with the prefix, in their order.
  pub data AreOwn (prefix : String) : List (Order D) → List (Order D) → Type 0 where
    ends : AreOwn prefix [] []
    takes :
        {o : Order D} {os mine : List (Order D)}
        → Begins prefix o.identifier
        → AreOwn prefix os mine
        → AreOwn prefix (o ∷ os) (o ∷ mine)
    leaves :
        {o : Order D} {os mine : List (Order D)}
        → ¬ Begins prefix o.identifier
        → AreOwn prefix os mine
        → AreOwn prefix (o ∷ os) mine

  own_orders-AreOwn :
      (opt : Options) (os : List (Order D))
      → AreOwn opt.bot_identifier_prefix os (own_orders opt os)
  unfolding own_orders
  own_orders-AreOwn opt [] = AreOwn.ends
  own_orders-AreOwn opt (o ∷ os) = elim (Bool-cases (is_own opt o)) [
    | inl e ↦ rw e (
        AreOwn.takes (own-Begins opt.bot_identifier_prefix o.identifier e)
          (own_orders-AreOwn opt os))
    | inr e ↦ rw e (
        AreOwn.leaves
          (λ b. let yes = Begins-own opt.bot_identifier_prefix o.identifier b in ground arith)
          (own_orders-AreOwn opt os))
  ]

  -- The tries to cancel one order, the first of them number `first`, at most `left`: each asks for this
  -- order's uuid and identifier; all but the last failed; `ok` is what the last gave, which succeeded or
  -- was the last that is allowed.
  pub record Tries (answer : ℕ → Bool) (first left : ℕ) (o : Order D) (calls : List Call)
      (ok : Bool) : Type 0 where
    pub last : ℕ
    pub within : last < left
    pub made : calls ≡ again (suc last) (cancel_order (uuid_of o) o.identifier)
    pub failed : (i : ℕ) → i < last → answer (first + i) ≡ false
    pub result : answer (first + last) ≡ ok
    pub stops : (ok ≡ true) ⊎ (last + 1 ≡ left)

  -- The calls of a recovery that cancels these orders, and how many of them were cancelled: the tries of
  -- each in turn, and looks at the open orders.
  pub data Cancels (x : Answers D) (most : ℕ) : List (Order D) → List Call → ℕ → Type 0 where
    nothing : Cancels x most [] [] 0
    looks :
        {own : List (Order D)} {calls : List Call} {n : ℕ}
        → Cancels x most own calls n
        → Cancels x most own (get_open_orders ∷ calls) n
    cancels :
        {o : Order D} {own : List (Order D)} {tries calls : List Call} {ok : Bool} {n : ℕ}
        → Tries (x.cancel (uuid_of o) o.identifier) 0 most o tries ok
        → Cancels x most own calls n
        → Cancels x most (o ∷ own) (tries ++ calls) (if ok then n + 1 else n)

  one_try :
      (answer : ℕ → Bool) (o : Order D) (first left : ℕ) (ok : Bool)
      → answer first ≡ ok
      → (ok ≡ true) ⊎ (1 ≡ left)
      → 0 < left
      → Tries answer first left o (cancel_order (uuid_of o) o.identifier ∷ []) ok
  one_try answer o first left ok e stops some_left = record {
    last = 0;
    within = some_left;
    made = refl;
    failed = λ i lt. absurd (omega (arith, lt));
    result = ap answer (omega arith) ∙ e;
    stops = stops;
  }

  one_more :
      (answer : ℕ → Bool) (o : Order D) (first left : ℕ) (calls : List Call) (ok : Bool)
      → answer first ≡ false
      → Tries answer (first + 1) left o calls ok
      → Tries answer first (suc left) o (cancel_order (uuid_of o) o.identifier ∷ calls) ok
  one_more answer o first left calls ok e t = record {
    last = suc t.last;
    within = omega (arith, t.within);
    made = ap (λ cs. cancel_order (uuid_of o) o.identifier ∷ cs) t.made;
    failed = λ i lt. earlier i lt;
    result = ap answer (omega arith) ∙ t.result;
    stops = elim t.stops [ inl good ↦ inl good | inr all ↦ inr (omega (arith, all)) ];
  }
    where
      earlier : (i : ℕ) → i < suc t.last → answer (first + i) ≡ false
      earlier zero lt = ap answer (omega arith) ∙ e
      earlier (suc i) lt = ap answer (omega arith) ∙ t.failed i (omega (arith, lt))

  try_cancel-Tries :
      (answer : ℕ → Bool) (o : Order D) (first left : ℕ)
      → left ≢ 0
      → let (calls, ok) = try_cancel answer o first left in Tries answer first left o calls ok
  unfolding try_cancel
  try_cancel-Tries answer o first zero h = absurd (h refl)
  try_cancel-Tries answer o first (suc zero) h = elim (Bool-cases (answer first)) [
    | inl e ↦ rw e (one_try answer o first 1 true e (inl refl) (omega arith))
    | inr e ↦ rw e (one_try answer o first 1 false e (inr refl) (omega arith))
  ]
  try_cancel-Tries answer o first (suc (suc left)) h = elim (Bool-cases (answer first)) [
    | inl e ↦ rw e (one_try answer o first (suc (suc left)) true e (inl refl) (omega arith))
    | inr e ↦
        let rest = try_cancel-Tries answer o (first + 1) (suc left) (omega arith) in
        rw e (one_more answer o first (suc left) _ _ e rest)
  ]

  cancel_each-Cancels :
      (x : Answers D) (opt : Options) (os : List (Order D))
      → opt.cancel_retry ≢ 0
      → let (calls, n) = cancel_each x opt os in
        Cancels x opt.cancel_retry (own_orders opt os) calls n
  unfolding cancel_each own_orders
  cancel_each-Cancels x opt [] h = Cancels.nothing
  cancel_each-Cancels x opt (o ∷ os) h =
      let rest = cancel_each-Cancels x opt os h in
      let tries = try_cancel-Tries (x.cancel (uuid_of o) o.identifier) o 0 opt.cancel_retry h in
      elim (Bool-cases (is_own opt o)) [
        | inl own ↦ rw own (Cancels.cancels tries rest)
        | inr other ↦ rw other rest
      ]

  verify-AreLooks : (x : Answers D) (opt : Options) (n left : ℕ) → AreLooks (verify x opt n left)
  unfolding verify
  verify-AreLooks x opt n zero = tt
  verify-AreLooks x opt n (suc left) = ground (arith, verify-AreLooks x opt (n + 1) left)

  looks-Cancels : (x : Answers D) (most : ℕ) (cs : List Call) → AreLooks cs → Cancels x most [] cs 0
  looks-Cancels x most [] a = Cancels.nothing
  looks-Cancels x most (c ∷ cs) (e, a) = rw e (Cancels.looks (looks-Cancels x most cs a))

  append-Cancels :
      {x : Answers D} {most : ℕ} {own : List (Order D)} {calls : List Call} {n : ℕ} (cs : List Call)
      → AreLooks cs
      → Cancels x most own calls n
      → Cancels x most own (calls ++ cs) n
  append-Cancels {x} {most} cs a nothing = looks-Cancels x most cs a
  append-Cancels cs a (looks c) = Cancels.looks (append-Cancels cs a c)
  append-Cancels {x} {most} cs a (cancels {o} {own} {tries} {calls} {ok} {n} t c) =
      subst (λ k. Cancels x most (o ∷ own) k (if ok then n + 1 else n))
        (sym (append_assoc tries calls cs)) (Cancels.cancels t (append-Cancels cs a c))

  -- Exactly the open orders whose identifier begins with the bot's prefix are cancelled, in their order.
  -- Each is asked for by its own uuid and identifier, once at least and `cancel_retry` times at most, until
  -- a try succeeds, and is counted if one did; all other calls are looks at the open orders. Without a
  -- prefix, or without an answer to the first question, nothing is cancelled. At least one try is allowed.
  pub only_own_orders :
      (x : Answers D) (opt : Options)
      → opt.cancel_retry ≢ 0
      → let (calls, count) = cancel_bot_open_orders x opt in
        let os = if is_empty opt.bot_identifier_prefix then [] else value_or (x.open_orders 0) [] in
        AreOwn opt.bot_identifier_prefix os (own_orders opt os)
        × Cancels x opt.cancel_retry (own_orders opt os) calls count
  unfolding cancel_bot_open_orders own_orders
  only_own_orders x opt h = elim (Bool-cases (is_empty opt.bot_identifier_prefix)) [
    | inl e ↦ rw e (AreOwn.ends, Cancels.nothing)
    | inr e ↦ elim (Option-cases (x.open_orders 0)) [
      | inl q ↦ rw (e, q) (AreOwn.ends, Cancels.looks Cancels.nothing)
      | inr (os, q) ↦
          rw (e, q)
            (
              own_orders-AreOwn opt os,
              Cancels.looks (
                  append-Cancels (verify x opt 1 opt.verify_retry)
                    (verify-AreLooks x opt 1 opt.verify_retry) (cancel_each-Cancels x opt os h)),
            )
    ]
  ]
