-- ===== src/OrderStore/Query.antt =====
-- What `getOpenOrdersByMarket` returns.
use coin_bot.Base.{
  String, true, some, List, [], ◌∷◌, ◌≡◌, sym, ◌∙◌, arith, ◌⊎◌, inl, inr, ◌↔◌, Bool-cases, str_eq,
  eq_iff, ◌&&◌, if◌then◌else◌, subst,
}
use coin_bot.Base.Dict.{Dict, lookup, Distinct, lookup-Fresh}
use coin_bot.Domain.OrderTypes.{OrderStatus, is_open}
use coin_bot.Domain.Order.{Order}
use coin_bot.OrderStore.{OrderStore, get, is_open_status, open_orders, get_open_orders_by_market}
use coin_bot.OrderStore.Laws.{Keyed, IsKeyed}

-- `isOpenStatus` of the store and `Order::isOpen` are one test.
is_open_status-is_open : (s : OrderStatus) → is_open_status s ≡ is_open s
unfolding is_open_status
is_open_status-is_open s = ground arith

module _ {D : Type 0} where
  abbrev pub In : Order D → List (Order D) → Type 0
  In o [] = ⊥
  In o (p ∷ ps) = (o ≡ p) ⊎ In o ps

  abbrev Listed : String → Dict (Order D) → Order D → Type 0
  Listed market m o = (lookup o.id m ≡ some o) × (o.market ≡ market) × (is_open o.status ≡ true)

  later :
      (market j : String) (w o : Order D) (m : Dict (Order D))
      → Distinct ((j, w) ∷ m)
      → Listed market m o
      → Listed market ((j, w) ∷ m) o
  unfolding lookup
  later market j w o m h (q, a, b) = (ground (arith, eq_iff j o.id, lookup-Fresh j m h.0), a, b)

  head-Listed :
      (market j : String) (w : Order D) (m : Dict (Order D))
      → w.id ≡ j
      → (str_eq w.market market && is_open_status w.status) ≡ true
      → Listed market ((j, w) ∷ m) w
  unfolding lookup
  head-Listed market j w m p hit = (
    ground (arith, eq_iff j w.id),
    ground (arith, eq_iff w.market market),
    sym (is_open_status-is_open w.status) ∙ ground arith,
  )

  listed :
      (market : String) (m : Dict (Order D)) (o : Order D)
      → Keyed m
      → Distinct m
      → In o (open_orders market m)
      → Listed market m o
  unfolding open_orders lookup
  listed market [] o k h i = absurd i
  listed market ((j, w) ∷ m) o (p, _, r) h i =
      let test = str_eq w.market market && is_open_status w.status in
      elim (Bool-cases test) [
        | inl hit ↦
            let found : (o ≡ w) ⊎ In o (open_orders market m) =
              subst (λ b. In o (if b then w ∷ open_orders market m else open_orders market m)) hit
                i in
            elim found [
              | inl same ↦
                  subst (Listed market ((j, w) ∷ m)) (sym same) (head-Listed market j w m p hit)
              | inr more ↦ later market j w o m h (listed market m o r h.1 more)
            ]
        | inr miss ↦ later market j w o m h (
            listed market m o r h.1 (
              subst (λ b. In o (if b then w ∷ open_orders market m else open_orders market m)) miss
                i))
      ]

  unlisted :
      (market : String) (m : Dict (Order D)) (o : Order D)
      → Keyed m
      → Listed market m o
      → In o (open_orders market m)
  unfolding open_orders lookup
  unlisted market [] o k (q, a, b) = cc
  unlisted market ((j, w) ∷ m) o (p, _, r) (q, a, b) = elim (Bool-cases (str_eq j o.id)) [
    | inl at ↦
        let same : o ≡ w = ground arith in
        let test : (str_eq w.market market && is_open_status w.status) ≡ true =
          ground (arith, eq_iff w.market market, is_open_status-is_open o.status) in
        rw test (inl same)
    | inr past ↦
        let more = unlisted market m o r (ground arith, a, b) in
        elim (Bool-cases (str_eq w.market market && is_open_status w.status)) [
          | inl hit ↦ rw hit (inr more)
          | inr miss ↦ rw miss more
        ]
  ]

  -- `getOpenOrdersByMarket` returns exactly the orders of the store that are of the market and that
  -- `Order::isOpen` calls open.
  pub get_open_orders_iff :
      (s : OrderStore D) (market : String) (o : Order D)
      → IsKeyed s
      → In o (get_open_orders_by_market market s)
        ↔ ((get o.id s ≡ some o) × (o.market ≡ market) × (is_open o.status ≡ true))
  unfolding get_open_orders_by_market get
  get_open_orders_iff s market o h =
      (listed market s.orders o h.keyed h.distinct, unlisted market s.orders o h.keyed)
