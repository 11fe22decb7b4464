-- ===== src/Stock/Keeping.antt =====
-- The levels are the projection of the movement log, whatever calls are made
-- (backend/apps/inventory/services/stock.py).
use achr.Prelude.{
  ℕ, ◌≡◌, refl, sym, ap, ◌∙◌, subst, String, Option, [], ◌∷◌, ◌++◌, inl, inr, Bool-cases, ok,
}
use achr.Prelude.Int.{ℤ, ◌+ℤ◌}
use achr.Money.Coerce.{Number}
use achr.Stock.Model.{Item, Bin, StockLevel, StockMovement, Stock, same_bin}
use achr.Stock.{
  Movement, level_at, lock_level, save_level, moved_level, bin_of, logged, move_stock,
  apply_movement, with_reserved, reserve_stock, release_reservation,
}
use achr.Stock.Levels.{
  same_bin-eq, find-save_level, on_hand_in, lock_level-bin, lock_level-on_hand, moved, moved-append,
}
use achr.Stock.Effects.{
  level_before, level_after, IsMoved, move_stock-IsMoved, IsReserved, reserve_stock-IsReserved,
  release_reservation-IsReserved, apply_movement-cases,
}

-- Every bin has on hand what the log moves there in sum; a bin with no row, nothing.
unfoldable pub IsKept : Stock → Type 0
IsKept s = (bin : Bin) → on_hand_in (level_at bin s.levels) ≡ moved bin s.movements

-- A row saved for a bin, and a movement logged for the same bin.
kept-after :
    (s : Stock) (level : StockLevel) (movement : StockMovement) (bin : Bin)
    → level.quantity_on_hand ≡ moved level.bin s.movements +ℤ movement.quantity_delta
    → movement.bin ≡ level.bin
    → on_hand_in (level_at bin s.levels) ≡ moved bin s.movements
    → on_hand_in (level_at bin (save_level level s.levels))
      ≡ moved bin (s.movements ++ (movement ∷ []))
kept-after s level movement bin amount same kept =
    rw (find-save_level level bin s.levels, moved-append bin s.movements movement, same)
      (elim (Bool-cases (same_bin level.bin bin)) [
        | inl e ↦ rw (e, ← same_bin-eq level.bin bin e) amount
        | inr e ↦ rw e kept
      ])

pub move_stock-keeps :
    (tenant : ℕ) (c : Movement) (delta : ℤ) (s : Stock) (r : StockMovement × Stock)
    → IsKept s
    → move_stock tenant c delta s ≡ ok r
    → IsKept r.1
unfolding IsKept IsMoved moved_level
move_stock-keeps tenant c delta s r kept h bin =
    let (enough, fine, row, levels, log) = move_stock-IsMoved tenant c delta s r h in
    let same = lock_level-bin c.item (bin_of tenant c) s.levels in
    let amount = lock_level-on_hand c.item (bin_of tenant c) s.levels ∙ kept (bin_of tenant c) in
    rw (levels, log, row)
      (kept-after s (level_after tenant c delta s)
        (logged tenant c delta (level_before tenant c s) s.next_id) bin
        (ap (λ q. q +ℤ delta) amount ∙ ap (λ b. moved b s.movements +ℤ delta) (sym same)) (sym same)
        (kept bin))

-- A row saved with another reservation keeps what the bin has on hand.
reserved-keeps :
    (item : Item) (bin0 bin : Bin) (reserved : ℤ) (s : Stock)
    → on_hand_in (
        level_at bin (save_level (with_reserved (lock_level item bin0 s.levels) reserved) s.levels))
      ≡ on_hand_in (level_at bin s.levels)
unfolding with_reserved
reserved-keeps item bin0 bin reserved s =
    let level = lock_level item bin0 s.levels in
    let same = lock_level-bin item bin0 s.levels in
    let amount = lock_level-on_hand item bin0 s.levels in
    rw (find-save_level (with_reserved level reserved) bin s.levels)
      (elim (Bool-cases (same_bin level.bin bin)) [
        | inl e ↦ rw e (
            amount
            ∙ ap (λ b. on_hand_in (level_at b s.levels)) (sym same ∙ same_bin-eq level.bin bin e))
        | inr e ↦ rw e refl
      ])

IsReserved-keeps :
    (tenant : ℕ) (item : Item) (warehouse : ℕ) (amount reserved : ℤ) (s : Stock)
    (r : StockLevel × Stock)
    → IsKept s
    → IsReserved tenant item warehouse amount reserved s r
    → IsKept r.1
unfolding IsKept IsReserved
IsReserved-keeps tenant item warehouse amount reserved s r kept (positive, row, fine, levels, log)
      bin =
    let bin0 : Bin = record { tenant = tenant; item = item.id; warehouse = warehouse } in
    rw (levels, log, row) (reserved-keeps item bin0 bin reserved s ∙ kept bin)

module _ (parse : String → Option Number) where
  -- One call of the service that succeeds.
  pub data Step : Stock → Stock → Type 0 where
    moves :
        (tenant : ℕ) (c : Movement) (m : StockMovement) {s s' : Stock}
        → apply_movement parse tenant c s ≡ ok (m, s')
        → Step s s'
    reserves :
        (tenant : ℕ) (item : Item) (warehouse : ℕ) (amount : ℤ) (l : StockLevel) {s s' : Stock}
        → reserve_stock tenant item warehouse amount s ≡ ok (l, s')
        → Step s s'
    releases :
        (tenant : ℕ) (item : Item) (warehouse : ℕ) (amount : ℤ) (l : StockLevel) {s s' : Stock}
        → release_reservation tenant item warehouse amount s ≡ ok (l, s')
        → Step s s'

  pub data Steps : Stock → Stock → Type 0 where
    done : {s : Stock} → Steps s s
    step : {s s' s'' : Stock} → Step s s' → Steps s' s'' → Steps s s''

  Step-keeps : {s s' : Stock} → Step s s' → IsKept s → IsKept s'
  Step-keeps {s} {s'} (moves tenant c m h) kept =
      let (delta, given, checked, how) = apply_movement-cases parse tenant c s (m, s') h in
      elim how [
        | inl (same, seen) ↦ subst IsKept (sym same) kept
        | inr (fresh, moved_) ↦ move_stock-keeps tenant c delta s (m, s') kept moved_
      ]
  Step-keeps {s} {s'} (reserves tenant item warehouse amount l h) kept =
      IsReserved-keeps tenant item warehouse amount _ s (l, s') kept
        (reserve_stock-IsReserved tenant item warehouse amount s (l, s') h).0
  Step-keeps {s} {s'} (releases tenant item warehouse amount l h) kept =
      IsReserved-keeps tenant item warehouse amount _ s (l, s') kept
        (release_reservation-IsReserved tenant item warehouse amount s (l, s') h)

  -- Whatever calls of the service succeed, one after the other, from tables without drift, there is no
  -- drift after them: in every bin the quantity on hand is the sum of the logged movements.
  pub Steps-IsKept : {s s' : Stock} → Steps s s' → IsKept s → IsKept s'
  Steps-IsKept done kept = kept
  Steps-IsKept (step one rest) kept = Steps-IsKept rest (Step-keeps one kept)
