-- ===== src/Stock/Effects.antt =====
-- What the calls on stock that succeed have passed and written
-- (backend/apps/inventory/services/stock.py).
use achr.Prelude.{
  ℕ, ◌≡◌, refl, sym, ap, ◌∙◌, subst, String, ◌⊎◌, Bool, true, false, not, ◌&&◌, Option, none, some,
  [], ◌∷◌, ◌++◌, inl, inr, arith, Option-cases, Outcome, ok, err, >>=-eq-ok, raise_if-eq-ok,
  ok-injective,
}
use achr.Prelude.Int.{ℤ, pos, ◌+ℤ◌, ◌-ℤ◌, leb_ℤ, ltb_ℤ, max_ℤ}
use achr.Money.Coerce.{Number, MoneyError, to_money}
use achr.Stock.Model.{Item, StockLevel, StockMovement, Stock, StockError}
use achr.Stock.{
  Movement, lock_level, save_level, level_ok, assert_sufficient, moved_level, bin_of, logged,
  move_stock, check_movement, already_applied, quantity_result, apply_movement, with_reserved,
  reserve_stock, release_reservation,
}

-- The row of the bin before and after a movement.
abbrev pub level_before : ℕ → Movement → Stock → StockLevel
level_before tenant c s = lock_level c.item (bin_of tenant c) s.levels

abbrev pub level_after : ℕ → Movement → ℤ → Stock → StockLevel
level_after tenant c delta s =
    moved_level c.item (level_before tenant c s) delta c.consume_reservation c.occurred_at

-- What a movement that succeeds has passed and written.
unfoldable pub IsMoved : ℕ → Movement → ℤ → Stock → StockMovement × Stock → Type 0
IsMoved tenant c delta s r =
    (assert_sufficient c.item (level_before tenant c s) delta c.consume_reservation ≡ ok tt)
    × (level_ok (level_after tenant c delta s) ≡ true)
    × (r.0 ≡ logged tenant c delta (level_before tenant c s) s.next_id)
    × (r.1.levels ≡ save_level (level_after tenant c delta s) s.levels)
    × (r.1.movements ≡ s.movements ++ (r.0 ∷ []))

pub move_stock-IsMoved :
    (tenant : ℕ) (c : Movement) (delta : ℤ) (s : Stock) (r : StockMovement × Stock)
    → move_stock tenant c delta s ≡ ok r
    → IsMoved tenant c delta s r
unfolding IsMoved move_stock
move_stock-IsMoved tenant c delta s r h =
    let (u, enough, h1) =
      >>=-eq-ok (assert_sufficient c.item (level_before tenant c s) delta c.consume_reservation) _
        h in
    let (fine, h2) =
      raise_if-eq-ok (not (level_ok (level_after tenant c delta s))) StockError.constraint _ h1 in
    subst (IsMoved tenant c delta s) (ok-injective h2)
      (enough, ground (arith, fine), refl, refl, refl)

-- The row that a reservation is about, before the call.
abbrev pub level_for : ℕ → Item → ℕ → Stock → StockLevel
level_for tenant item warehouse s =
    lock_level item (record { tenant = tenant; item = item.id; warehouse = warehouse }) s.levels

-- What a call on reservations that succeeds has passed and written.
unfoldable pub IsReserved : ℕ → Item → ℕ → ℤ → ℤ → Stock → StockLevel × Stock → Type 0
IsReserved tenant item warehouse amount reserved s r =
    (leb_ℤ amount (pos 0) ≡ false)
    × (r.0 ≡ with_reserved (level_for tenant item warehouse s) reserved)
    × (level_ok r.0 ≡ true)
    × (r.1.levels ≡ save_level r.0 s.levels)
    × (r.1.movements ≡ s.movements)

abbrev short : Item → StockLevel → ℤ → Bool
short item level amount = not item.allow_negative_stock && ltb_ℤ level.quantity_available amount

pub reserve_stock-IsReserved :
    (tenant : ℕ) (item : Item) (warehouse : ℕ) (amount : ℤ) (s : Stock) (r : StockLevel × Stock)
    → reserve_stock tenant item warehouse amount s ≡ ok r
    → IsReserved tenant item warehouse amount
        ((level_for tenant item warehouse s).quantity_reserved +ℤ amount)
        s
        r
      × (short item (level_for tenant item warehouse s) amount ≡ false)
unfolding IsReserved reserve_stock
reserve_stock-IsReserved tenant item warehouse amount s r h =
    let level = level_for tenant item warehouse s in
    let level' = with_reserved level (level.quantity_reserved +ℤ amount) in
    let (positive, h1) = raise_if-eq-ok (leb_ℤ amount (pos 0)) StockError.not_positive _ h in
    let (enough, h2) = raise_if-eq-ok (short item level amount) StockError.insufficient _ h1 in
    let (fine, h3) = raise_if-eq-ok (not (level_ok level')) StockError.constraint _ h2 in
    (
      subst (IsReserved tenant item warehouse amount (level.quantity_reserved +ℤ amount) s)
          (ok-injective h3) (positive, refl, ground (arith, fine), refl, refl),
      enough,
    )

pub release_reservation-IsReserved :
    (tenant : ℕ) (item : Item) (warehouse : ℕ) (amount : ℤ) (s : Stock) (r : StockLevel × Stock)
    → release_reservation tenant item warehouse amount s ≡ ok r
    → IsReserved tenant item warehouse amount
        (max_ℤ (pos 0) ((level_for tenant item warehouse s).quantity_reserved -ℤ amount))
        s
        r
unfolding IsReserved release_reservation
release_reservation-IsReserved tenant item warehouse amount s r h =
    let level = level_for tenant item warehouse s in
    let reserved = max_ℤ (pos 0) (level.quantity_reserved -ℤ amount) in
    let (positive, h1) = raise_if-eq-ok (leb_ℤ amount (pos 0)) StockError.not_positive _ h in
    let (fine, h2) =
      raise_if-eq-ok (not (level_ok (with_reserved level reserved))) StockError.constraint _ h1 in
    subst (IsReserved tenant item warehouse amount reserved s) (ok-injective h2)
      (positive, refl, ground (arith, fine), refl, refl)

quantity_result-eq-ok :
    (m : Outcome MoneyError ℤ) (delta : ℤ) → quantity_result m ≡ ok delta → m ≡ ok delta
quantity_result-eq-ok (ok n) delta h = cc
quantity_result-eq-ok (err e) delta h = cc

module _ (parse : String → Option Number) where
  -- A movement of the log that carries the key is returned, and nothing is written; or else the
  -- movement is made, past the guards that stand before the lock.
  pub apply_movement-cases :
      (tenant : ℕ) (c : Movement) (s : Stock) (r : StockMovement × Stock)
      → apply_movement parse tenant c s ≡ ok r
      → (delta : ℤ) × (to_money parse c.quantity_delta ≡ ok delta)
        × (check_movement c.item c.movement_type delta ≡ ok tt)
        × (((r.1 ≡ s) × (already_applied tenant c.idempotency_key s.movements ≡ some r.0))
            ⊎ ((already_applied tenant c.idempotency_key s.movements ≡ none)
                × (move_stock tenant c delta s ≡ ok r)))
  unfolding apply_movement
  apply_movement-cases tenant c s r h =
      let (delta, given, h1) = >>=-eq-ok (quantity_result (to_money parse c.quantity_delta)) _ h in
      let (u, checked, h2) = >>=-eq-ok (check_movement c.item c.movement_type delta) _ h1 in
      (
        delta,
        quantity_result-eq-ok (to_money parse c.quantity_delta) delta given,
        checked,
        elim (Option-cases (already_applied tenant c.idempotency_key s.movements)) [
          | inl fresh ↦ inr (fresh, rw fresh at h2)
          | inr (m, seen) ↦
              let e : ◌≡◌ {A = Outcome StockError (StockMovement × Stock)} (ok (m, s)) (ok r) =
                rw seen at h2 in
              inl (ap (λ q. q.1) (sym (ok-injective e)), seen ∙ ap (λ q. some q.0) (ok-injective e))
        ],
      )
