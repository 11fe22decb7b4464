-- ===== src/Stock/Levels.antt =====
-- The table of levels under its reads and writes (backend/apps/inventory/services/stock.py).
use achr.Prelude.{
  ◌≡◌, refl, true, Option, none, some, List, [], ◌∷◌, ◌++◌, inl, inr, arith, if◌then◌else◌,
  Option-cases, find_holds,
}
use achr.Prelude.Int.{ℤ, pos, ◌+ℤ◌, eq_of_parts, int_laws}
use achr.Stock.Model.{Item, Bin, StockLevel, StockMovement, same_bin}
use achr.Stock.{at_bin, level_at, lock_level, save_level}

pub same_bin-eq : (a b : Bin) → same_bin a b ≡ true → a ≡ b
same_bin-eq a b h = ground (arith)

pub same_bin_refl : (a : Bin) → same_bin a a ≡ true
same_bin_refl a = ground (arith)

pub find-save_level :
    (l : StockLevel) (bin : Bin) (levels : List StockLevel)
    → level_at bin (save_level l levels)
      ≡ (if same_bin l.bin bin then some l else level_at bin levels)
unfolding save_level
find-save_level l bin [] = ground (arith)
find-save_level l bin (x ∷ xs) = ground (arith, find-save_level l bin xs, same_bin-eq x.bin l.bin)

-- The quantity that the projection shows for a bin.
abbrev pub on_hand_in : Option StockLevel → ℤ
on_hand_in none = pos 0
on_hand_in (some l) = l.quantity_on_hand

pub lock_level-bin :
    (item : Item) (bin : Bin) (levels : List StockLevel) → (lock_level item bin levels).bin ≡ bin
unfolding lock_level
lock_level-bin item bin levels = elim (Option-cases (level_at bin levels)) [
  | inl missing ↦ rw (missing, lock_level) refl
  | inr (l, found) ↦
      rw (found, lock_level) (same_bin-eq l.bin bin (find_holds (at_bin bin) levels l found))
]

pub lock_level-on_hand :
    (item : Item) (bin : Bin) (levels : List StockLevel)
    → (lock_level item bin levels).quantity_on_hand ≡ on_hand_in (level_at bin levels)
unfolding lock_level
lock_level-on_hand item bin levels = elim (Option-cases (level_at bin levels)) [
  | inl missing ↦ rw (missing, lock_level) refl
  | inr (l, found) ↦ rw (found, lock_level) refl
]

-- The sum of the quantities that a log moves in a bin: `SUM(quantity_delta)`.
abbrev pub moved : Bin → List StockMovement → ℤ
moved bin [] = pos 0
moved bin (m ∷ ms) = if same_bin m.bin bin then m.quantity_delta +ℤ moved bin ms else moved bin ms

add_zero : (a : ℤ) → a +ℤ pos 0 ≡ a
add_zero a = eq_of_parts _ _ (omega int_laws)

zero_add : (a : ℤ) → pos 0 +ℤ a ≡ a
zero_add a = eq_of_parts _ _ (omega int_laws)

add_assoc : (a b c : ℤ) → a +ℤ (b +ℤ c) ≡ a +ℤ b +ℤ c
add_assoc a b c = eq_of_parts _ _ (omega int_laws)

pub moved-append :
    (bin : Bin) (ms : List StockMovement) (m : StockMovement)
    → moved bin (ms ++ (m ∷ []))
      ≡ (if same_bin m.bin bin then moved bin ms +ℤ m.quantity_delta else moved bin ms)
moved-append bin [] m = ground (arith, add_zero m.quantity_delta, zero_add m.quantity_delta)
moved-append bin (x ∷ xs) m =
    ground
      (arith, moved-append bin xs m, add_assoc x.quantity_delta (moved bin xs) m.quantity_delta)
