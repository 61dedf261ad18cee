-- ===== src/Indicators/Tests.antt =====
-- The indicators on whole numbers.
use coin_bot.Base.{
  ◌+◌, ◌-◌, true, false, none, arith, List, [], ◌∷◌, ◌++◌, ◌≡◌, length, get_elem?, last, leb, ltb,
  if◌then◌else◌,
}
use coin_bot.Double.{lit, ◌⊘◌}
use coin_bot.Double.Int.{ℤ, pos, int_double, ℤ-IsExact}
use coin_bot.Indicators.{not_ready}
use coin_bot.Indicators.Sma
use coin_bot.Indicators.ClosePriceWindow
use coin_bot.Indicators.Rsi
use coin_bot.Indicators.Rsi.{RsiWilder}
use coin_bot.Indicators.History.{feed}
use coin_bot.Indicators.Windows.{total, mean_of_last, closes_ago}
use coin_bot.Indicators.Readiness.{ready_after}

abbrev closes : List ℤ
closes = pos 10 ∷ pos 20 ∷ pos 40 ∷ []

abbrev blank : RsiWilder ℤ
blank = record {
  length = 0;
  prev_price = none;
  seed_count = 0;
  seed_gain_sum = pos 0;
  seed_loss_sum = pos 0;
  avg_gain = pos 0;
  avg_loss = pos 0;
  last = record { ready = false; v = pos 0 };
}

mean_of_last_example :
    let (out, s) = Sma.update (pos 60) (feed Sma.update (Sma.reset 2) closes) in
    let all = closes ++ (pos 60 ∷ []) in
    (Sma.value s ≡ out)
    × (out ≡ (
        if leb 2 (length all)
        then record { ready = true; v = total (last 2 all) ⊘ lit 2 }
        else not_ready))
mean_of_last_example = mean_of_last 2 closes (pos 60) (λ e. omega arith)

closes_ago_example :
    let (out, w) =
      ClosePriceWindow.update
        (pos 60)
        (feed ClosePriceWindow.update (ClosePriceWindow.reset 2) closes) in
    (ClosePriceWindow.close_n w ≡ out)
    × (out ≡ (
        if leb (length closes + 1) 2
        then not_ready
        else ClosePriceWindow.of_optional
            (get_elem? (closes ++ (pos 60 ∷ [])) (length closes - 2))))
closes_ago_example = closes_ago 2 closes (pos 60)

ready_after_example :
    let (out, r') = Rsi.update (pos 60) (feed Rsi.update (Rsi.reset 2 blank) closes) in
    (out ≡ Rsi.value r') × (out.ready ≡ ltb 2 (length closes + 1))
ready_after_example = ready_after 2 blank closes (pos 60) (λ e. omega arith)
