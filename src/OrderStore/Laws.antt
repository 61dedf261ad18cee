-- ===== src/OrderStore/Laws.antt =====
-- The store as a map from uuids to orders.
use coin_bot.Base.{
  String, false, none, some, [], ◌∷◌, ◌≡◌, refl, arith, if◌then◌else◌, is_empty, is_some, inl, inr,
  Bool-cases, str_eq, eq_iff, not, ◌&&◌, sym,
}
use coin_bot.Base.Dict.{
  Dict, lookup, insert, replace, remove, lookup-insert, Distinct, lookup-replace, lookup-remove,
  Distinct-insert, Distinct-replace, Distinct-remove,
}
use coin_bot.Domain.Order.{Order}
use coin_bot.OrderStore.{OrderStore, add, get, update, erase, upsert}

module _ {D : Type 0} where
  -- Each entry stands under its own uuid, which is not empty, and once.
  abbrev pub Keyed : Dict (Order D) → Type 0
  Keyed [] = Unit
  Keyed ((k, o) ∷ m) = (o.id ≡ k) × (is_empty k ≡ false) × Keyed m

  pub record IsKeyed (s : OrderStore D) : Type 0 where
    pub keyed : Keyed s.orders
    pub distinct : Distinct s.orders

  Keyed-insert :
      (o : Order D) (m : Dict (Order D)) → is_empty o.id ≡ false → Keyed m → Keyed (insert o.id o m)
  unfolding insert
  Keyed-insert o [] e k = (refl, e, tt)
  Keyed-insert o ((j, w) ∷ m) e (p, q, r) = elim (Bool-cases (str_eq j o.id)) [
    | inl hit ↦ rw hit (sym ((eq_iff j o.id).0 hit), q, r)
    | inr miss ↦ rw miss (p, q, Keyed-insert o m e r)
  ]

  Keyed-replace : (o : Order D) (m : Dict (Order D)) → Keyed m → Keyed (replace o.id o m)
  unfolding replace
  Keyed-replace o [] k = tt
  Keyed-replace o ((j, w) ∷ m) (p, q, r) = elim (Bool-cases (str_eq j o.id)) [
    | inl hit ↦ rw hit (sym ((eq_iff j o.id).0 hit), q, r)
    | inr miss ↦ rw miss (p, q, Keyed-replace o m r)
  ]

  Keyed-remove : (k : String) (m : Dict (Order D)) → Keyed m → Keyed (remove k m)
  unfolding remove
  Keyed-remove k [] h = tt
  Keyed-remove k ((j, w) ∷ m) (p, q, r) = elim (Bool-cases (str_eq j k)) [
    | inl hit ↦ rw hit r
    | inr miss ↦ rw miss (p, q, Keyed-remove k m r)
  ]

  -- Every operation keeps each order under its own uuid, which is not empty, and once.
  pub ops-IsKeyed :
      (s : OrderStore D) (o : Order D) (k : String)
      → IsKeyed s
      → IsKeyed (add o s).1 × IsKeyed (update o s).1 × IsKeyed (erase k s).1 × IsKeyed (upsert o s)
  unfolding add update erase upsert
  ops-IsKeyed s o k h = (add-IsKeyed, update-IsKeyed, erase-IsKeyed, upsert-IsKeyed)
    where
      inserted : is_empty o.id ≡ false → IsKeyed (record { orders = insert o.id o s.orders })
      inserted e = record {
        keyed = Keyed-insert o s.orders e h.keyed;
        distinct = Distinct-insert o.id o s.orders h.distinct;
      }

      replaced : IsKeyed (record { orders = replace o.id o s.orders })
      replaced = record {
        keyed = Keyed-replace o s.orders h.keyed;
        distinct = Distinct-replace o.id o s.orders h.distinct;
      }

      removed : IsKeyed (record { orders = remove k s.orders })
      removed = record {
        keyed = Keyed-remove k s.orders h.keyed;
        distinct = Distinct-remove k s.orders h.distinct;
      }

      add-IsKeyed : IsKeyed (add o s).1
      add-IsKeyed = elim (Bool-cases (is_empty o.id)) [
        | inl e ↦ rw e h
        | inr e ↦ elim (Bool-cases (is_some (lookup o.id s.orders))) [
          | inl there ↦ rw (e, there) h
          | inr missing ↦ rw (e, missing) (inserted e)
        ]
      ]

      update-IsKeyed : IsKeyed (update o s).1
      update-IsKeyed = elim (Bool-cases (is_some (lookup o.id s.orders))) [
        | inl there ↦ rw there replaced
        | inr missing ↦ rw missing h
      ]

      erase-IsKeyed : IsKeyed (erase k s).1
      erase-IsKeyed = elim (Bool-cases (is_some (lookup k s.orders))) [
        | inl there ↦ rw there removed
        | inr missing ↦ rw missing h
      ]

      upsert-IsKeyed : IsKeyed (upsert o s)
      upsert-IsKeyed = elim (Bool-cases (is_empty o.id)) [
        | inl e ↦ rw e h
        | inr e ↦ rw e (inserted e)
      ]

  -- What `get` finds after each operation, at any uuid: `upsert` writes under the order's uuid;
  -- `add` and `update` report whether they wrote, the one only a new uuid and the other only one
  -- that is there; `erase` forgets the uuid. All other uuids keep their orders.
  pub get_after :
      (s : OrderStore D) (o : Order D) (k : String)
      → IsKeyed s
      → is_empty o.id ≡ false
      → (get k (upsert o s) ≡ (if str_eq o.id k then some o else get k s))
        × ((add o s).0 ≡ not (is_some (get o.id s)))
        × (get k (add o s).1 ≡ (if str_eq o.id k && (add o s).0 then some o else get k s))
        × ((update o s).0 ≡ is_some (get o.id s))
        × (get k (update o s).1 ≡ (if str_eq o.id k && (update o s).0 then some o else get k s))
        × ((erase o.id s).0 ≡ is_some (get o.id s))
        × (get k (erase o.id s).1 ≡ (if str_eq o.id k then none else get k s))
  unfolding get upsert add update erase
  get_after s o k h e = (
    ground (arith, lookup-insert o.id o s.orders k),
    ground arith,
    ground (arith, lookup-insert o.id o s.orders k),
    ground arith,
    ground (arith, lookup-replace o.id k o s.orders, eq_iff o.id k),
    ground arith,
    ground (arith, lookup-remove o.id k s.orders h.distinct, eq_iff o.id k),
  )
