-- ===== src/Stock/Orders.antt =====
-- Nobody is sold what is promised to others, and a call that is sent again does nothing
-- (backend/apps/inventory/services/stock.py).
use text.Mathlib.TextPositions.{eq_refl}
use achr.Prelude.{
  ℕ, ◌≡◌, refl, sym, ap, ◌∙◌, subst, String, Bool, false, not, ◌&&◌, Option, none, some, List, [],
  ◌∷◌, ◌++◌, inl, inr, arith, ok, str_eq,
}
use achr.Prelude.Int.{ℤ, pos, ◌+ℤ◌, ◌-ℤ◌, ◌≤ℤ◌, leb_ℤ, ltb_ℤ, max_ℤ, +ℤ_parts, -ℤ_parts, neg_parts}
use achr.Money.Coerce.{Number}
use achr.Stock.Model.{Item, Bin, StockLevel, StockMovement, Stock}
use achr.Stock.{
  Movement, lock_level, save_level, assert_sufficient, moved_level, bin_of, already_applied,
  apply_movement, with_reserved, reserve_stock, release_reservation,
}
use achr.Stock.Levels.{same_bin_refl, find-save_level, lock_level-bin}
use achr.Stock.Effects.{
  level_before, level_after, IsMoved, move_stock-IsMoved, apply_movement-cases, level_for,
  IsReserved, reserve_stock-IsReserved, release_reservation-IsReserved,
}

-- What is promised is there, and what is shown as available is the rest.
unfoldable pub IsCovered : StockLevel → Type 0
IsCovered l =
    (pos 0 ≤ℤ l.quantity_reserved)
    × (l.quantity_reserved ≤ℤ l.quantity_on_hand)
    × (l.quantity_available ≡ l.quantity_on_hand -ℤ l.quantity_reserved)

moved_level-IsCovered :
    (item : Item) (level : StockLevel) (delta : ℤ) (consume : Bool) (at : ℕ)
    → item.allow_negative_stock ≡ false
    → IsCovered level
    → assert_sufficient item level delta consume ≡ ok tt
    → IsCovered (moved_level item level delta consume at)
unfolding IsCovered moved_level assert_sufficient
moved_level-IsCovered item level delta consume at strict covered enough =
    let q = level.quantity_on_hand in
    let v = level.quantity_reserved in
    ground (arith, +ℤ_parts q delta, +ℤ_parts v delta, -ℤ_parts q v, neg_parts delta)

find-saved :
    (item : Item) (l : StockLevel) (levels : List StockLevel)
    → lock_level item l.bin (save_level l levels) ≡ l
unfolding lock_level
find-saved item l levels =
    let e = find-save_level l l.bin levels in
    let there = rw (same_bin_refl l.bin) at e in rw (there, lock_level) refl

find-saved-at :
    (item : Item) (bin : Bin) (l : StockLevel) (levels : List StockLevel)
    → l.bin ≡ bin
    → lock_level item bin (save_level l levels) ≡ l
find-saved-at item bin l levels same =
    subst (λ b. lock_level item b (save_level l levels) ≡ l) same (find-saved item l levels)

module _ (parse : String → Option Number) where
  -- Where the item may not go negative and its bin has as much on hand as is reserved there, with
  -- what is available counted right, that is so too after a movement that succeeds.
  pub apply_movement-IsCovered :
      (tenant : ℕ) (c : Movement) (s : Stock) (r : StockMovement × Stock)
      → c.item.allow_negative_stock ≡ false
      → IsCovered (level_before tenant c s)
      → apply_movement parse tenant c s ≡ ok r
      → IsCovered (level_before tenant c r.1)
  unfolding IsMoved moved_level
  apply_movement-IsCovered tenant c s r strict covered h =
      let (delta, given, checked, how) = apply_movement-cases parse tenant c s r h in
      elim how [
        | inl (same, seen) ↦ subst (λ t. IsCovered (level_before tenant c t)) (sym same) covered
        | inr (fresh, made) ↦
            let (enough, fine, row, levels, log) = move_stock-IsMoved tenant c delta s r made in
            let after =
              moved_level-IsCovered c.item (level_before tenant c s) delta c.consume_reservation
                c.occurred_at strict covered enough in
            let there =
              find-saved-at c.item (bin_of tenant c) (level_after tenant c delta s) s.levels
                (lock_level-bin c.item (bin_of tenant c) s.levels) in
            subst (λ (t : List StockLevel). IsCovered (lock_level c.item (bin_of tenant c) t))
              (sym levels) (subst IsCovered (sym there) after)
      ]

-- The row after a call on reservations is the one that it has written.
reserved-row :
    (tenant : ℕ) (item : Item) (warehouse : ℕ) (amount reserved : ℤ) (s : Stock)
    (r : StockLevel × Stock)
    → IsReserved tenant item warehouse amount reserved s r
    → level_for tenant item warehouse r.1
      ≡ with_reserved (level_for tenant item warehouse s) reserved
unfolding IsReserved with_reserved
reserved-row tenant item warehouse amount reserved s r (positive, row, fine, levels, log) =
    let bin : Bin = record { tenant = tenant; item = item.id; warehouse = warehouse } in
    let level = with_reserved (level_for tenant item warehouse s) reserved in
    ap (λ (t : List StockLevel). lock_level item bin t)
      (levels ∙ ap (λ l. save_level l s.levels) row)
    ∙ find-saved-at item bin level s.levels (lock_level-bin item bin s.levels)

reserve-IsCovered :
    (item : Item) (level : StockLevel) (amount : ℤ)
    → item.allow_negative_stock ≡ false
    → IsCovered level
    → leb_ℤ amount (pos 0) ≡ false
    → (not item.allow_negative_stock && ltb_ℤ level.quantity_available amount) ≡ false
    → IsCovered (with_reserved level (level.quantity_reserved +ℤ amount))
unfolding IsCovered with_reserved
reserve-IsCovered item level amount strict covered positive enough = ground (
  arith,
  +ℤ_parts level.quantity_reserved amount,
  -ℤ_parts level.quantity_on_hand level.quantity_reserved,
)

release-IsCovered :
    (level : StockLevel) (amount : ℤ)
    → IsCovered level
    → leb_ℤ amount (pos 0) ≡ false
    → IsCovered (with_reserved level (max_ℤ (pos 0) (level.quantity_reserved -ℤ amount)))
unfolding IsCovered with_reserved
release-IsCovered level amount covered positive =
    ground (arith, -ℤ_parts level.quantity_reserved amount)

-- Where the item may not go negative and the bin is covered, a reservation that succeeds leaves it
-- covered, promises exactly the amount more, and does not touch what is on hand.
pub reserve_stock-IsCovered :
    (tenant : ℕ) (item : Item) (warehouse : ℕ) (amount : ℤ) (s : Stock) (r : StockLevel × Stock)
    → item.allow_negative_stock ≡ false
    → IsCovered (level_for tenant item warehouse s)
    → reserve_stock tenant item warehouse amount s ≡ ok r
    → IsCovered (level_for tenant item warehouse r.1)
      × ((level_for tenant item warehouse r.1).quantity_reserved
          ≡ (level_for tenant item warehouse s).quantity_reserved +ℤ amount)
      × ((level_for tenant item warehouse r.1).quantity_on_hand
          ≡ (level_for tenant item warehouse s).quantity_on_hand)
unfolding IsReserved with_reserved
reserve_stock-IsCovered tenant item warehouse amount s r strict covered h =
    let level = level_for tenant item warehouse s in
    let (facts, enough) = reserve_stock-IsReserved tenant item warehouse amount s r h in
    let after = reserve-IsCovered item level amount strict covered facts.0 enough in
    let row =
      reserved-row tenant item warehouse amount (level.quantity_reserved +ℤ amount) s r facts in
    (
      subst IsCovered (sym row) after,
      ap (λ l. l.quantity_reserved) row,
      ap (λ l. l.quantity_on_hand) row,
    )

-- Where the bin is covered, a release that succeeds leaves it covered, promises the amount less
-- but never less than nothing, and does not touch what is on hand.
pub release_reservation-IsCovered :
    (tenant : ℕ) (item : Item) (warehouse : ℕ) (amount : ℤ) (s : Stock) (r : StockLevel × Stock)
    → IsCovered (level_for tenant item warehouse s)
    → release_reservation tenant item warehouse amount s ≡ ok r
    → IsCovered (level_for tenant item warehouse r.1)
      × ((level_for tenant item warehouse r.1).quantity_reserved
          ≡ max_ℤ (pos 0) ((level_for tenant item warehouse s).quantity_reserved -ℤ amount))
      × ((level_for tenant item warehouse r.1).quantity_on_hand
          ≡ (level_for tenant item warehouse s).quantity_on_hand)
unfolding IsReserved with_reserved
release_reservation-IsCovered tenant item warehouse amount s r covered h =
    let level = level_for tenant item warehouse s in
    let facts = release_reservation-IsReserved tenant item warehouse amount s r h in
    let after = release-IsCovered level amount covered facts.0 in
    let row =
      reserved-row tenant item warehouse amount (max_ℤ (pos 0) (level.quantity_reserved -ℤ amount))
        s r facts in
    (
      subst IsCovered (sym row) after,
      ap (λ l. l.quantity_reserved) row,
      ap (λ l. l.quantity_on_hand) row,
    )

find-append :
    (tenant : ℕ) (key : String) (ms : List StockMovement) (m : StockMovement)
    → already_applied tenant key ms ≡ none
    → m.bin.tenant ≡ tenant
    → m.idempotency_key ≡ key
    → str_eq key "" ≡ false
    → already_applied tenant key (ms ++ (m ∷ [])) ≡ some m
unfolding already_applied
find-append tenant key [] m missing t k keyed = rw (k, t, keyed) (ground (arith, eq_refl key))
find-append tenant key (x ∷ xs) m missing t k keyed = ground (arith, find-append tenant key xs m)

module _ (parse : String → Option Number) where
  -- A call with a key that has succeeded succeeds when it is sent again, returns the same movement
  -- and writes nothing.
  pub apply_movement_retry :
      (tenant : ℕ) (c : Movement) (s : Stock) (r : StockMovement × Stock)
      → str_eq c.idempotency_key "" ≡ false
      → apply_movement parse tenant c s ≡ ok r
      → apply_movement parse tenant c r.1 ≡ ok r
  unfolding apply_movement IsMoved
  apply_movement_retry tenant c s r keyed h =
      let (delta, given, checked, how) = apply_movement-cases parse tenant c s r h in
      let seen_again : already_applied tenant c.idempotency_key r.1.movements ≡ some r.0 =
        elim how [
          | inl (same, seen) ↦
              subst (λ (t : Stock). already_applied tenant c.idempotency_key t.movements ≡ some r.0)
                (sym same) seen
          | inr (fresh, made) ↦
              let (enough, fine, row, levels, log) = move_stock-IsMoved tenant c delta s r made in
              subst
                (λ (t : List StockMovement). already_applied tenant c.idempotency_key t ≡ some r.0)
                (sym log)
                (find-append tenant c.idempotency_key s.movements r.0 fresh
                  (ap (λ (m : StockMovement). m.bin.tenant) row)
                  (ap (λ (m : StockMovement). m.idempotency_key) row) keyed)
        ] in
      rw (given, apply_movement) (rw checked (rw seen_again refl))
