-- ===== src/Leave/Disjoint.antt =====
-- Tables of requests without clashes (backend/apps/hr/services/leave.py).
use achr.Prelude.{
  ℕ, ◌==◌, ◌≡◌, refl, ap, ◌∙◌, subst, Bool, true, false, not, ◌&&◌, some, List, [], ◌∷◌, All, arith,
  leb, Bool-cases, inl, inr, some-injective, find-All,
}
use achr.Leave.Model.{LeaveRequest}
use achr.Leave.{save_request, is_blocking}
use achr.Leave.Tables.{request_at}

-- Two live requests of an employee that share a day.
abbrev pub clash : LeaveRequest → LeaveRequest → Bool
clash a b =
    a.employee == b.employee
    && is_blocking a.status
    && is_blocking b.status
    && leb a.start_date b.end_date
    && leb b.start_date a.end_date
    && not (a.id == b.id)

abbrev pub is_clear : LeaveRequest → List LeaveRequest → Bool
is_clear r [] = true
is_clear r (x ∷ xs) = not (clash r x) && is_clear r xs

-- No two of the requests clash.
abbrev pub are_disjoint : List LeaveRequest → Bool
are_disjoint [] = true
are_disjoint (x ∷ xs) = is_clear x xs && are_disjoint xs

clash_sym : (a b : LeaveRequest) → clash a b ≡ false → clash b a ≡ false
clash_sym a b h = ground (arith, h)

same_id : (a b : LeaveRequest) → a.id ≡ b.id → clash a b ≡ false
same_id a b h = ground (arith, h)

abbrev pub Clear : LeaveRequest → List LeaveRequest → Type 0
Clear y xs = All (λ x. clash y x ≡ false) xs

is_clear-Clear : (y : LeaveRequest) (xs : List LeaveRequest) → is_clear y xs ≡ true → Clear y xs
is_clear-Clear y [] h = tt
is_clear-Clear y (x ∷ xs) h = (ground (arith, h), is_clear-Clear y xs (ground (arith, h)))

Clear-is_clear : (y : LeaveRequest) (xs : List LeaveRequest) → Clear y xs → is_clear y xs ≡ true
Clear-is_clear y [] h = refl
Clear-is_clear y (x ∷ xs) h = let rest = Clear-is_clear y xs h.1 in ground (arith, rest, h.0)

Clear-at :
    (y : LeaveRequest) (id : ℕ) (xs : List LeaveRequest) (r : LeaveRequest)
    → Clear y xs
    → request_at id xs ≡ some r
    → clash y r ≡ false
Clear-at y id xs r clear found =
    find-All (λ x. clash y x ≡ false) (λ x. x.id == id) xs r clear found

-- The row of a request clashes with none.
pub found-Clear :
    (id : ℕ) (xs : List LeaveRequest) (r : LeaveRequest)
    → are_disjoint xs ≡ true
    → request_at id xs ≡ some r
    → Clear r xs
found-Clear id [] r h found = tt
found-Clear id (x ∷ xs) r h found = elim (Bool-cases (x.id == id)) [
  | inl here ↦
      let e : x ≡ r = some-injective _ _ (rw here at found) in
      subst (λ r. Clear r (x ∷ xs)) e (same_id x x refl, is_clear-Clear x xs (ground (arith, h)))
  | inr there ↦
      let found' : request_at id xs ≡ some r = rw there at found in
      let head = Clear-at x id xs r (is_clear-Clear x xs (ground (arith, h))) found' in
      (clash_sym x r head, found-Clear id xs r (ground (arith, h)) found')
]

is_clear-save :
    (x y : LeaveRequest) (f : LeaveRequest → LeaveRequest) (id : ℕ) (xs : List LeaveRequest)
    (r : LeaveRequest)
    → request_at id xs ≡ some r
    → f r ≡ y
    → clash x y ≡ false
    → is_clear x xs ≡ true
    → is_clear x (save_request id f xs) ≡ true
unfolding save_request
is_clear-save x y f id [] r found e apart h = cc
is_clear-save x y f id (z ∷ zs) r found e apart h = elim (Bool-cases (z.id == id)) [
  | inl here ↦
      let at : z ≡ r = some-injective _ _ (rw here at found) in
      let new = ap f at ∙ e in rw (here, new) (ground (arith, apart, h))
  | inr there ↦
      let rest = is_clear-save x y f id zs r (rw there at found) e apart (ground (arith, h)) in
      rw there (ground (arith, rest, h))
]

-- A row saved that clashes with no row leaves the table without clashes.
pub save-are_disjoint :
    (y : LeaveRequest) (f : LeaveRequest → LeaveRequest) (id : ℕ) (xs : List LeaveRequest)
    (r : LeaveRequest)
    → request_at id xs ≡ some r
    → f r ≡ y
    → Clear y xs
    → are_disjoint xs ≡ true
    → are_disjoint (save_request id f xs) ≡ true
unfolding save_request
save-are_disjoint y f id [] r found e clear h = cc
save-are_disjoint y f id (x ∷ xs) r found e clear h = elim (Bool-cases (x.id == id)) [
  | inl here ↦
      let at : x ≡ r = some-injective _ _ (rw here at found) in
      let new = ap f at ∙ e in
      let front = Clear-is_clear y xs clear.1 in rw (here, new) (ground (arith, front, h))
  | inr there ↦
      let found' : request_at id xs ≡ some r = rw there at found in
      let rest = save-are_disjoint y f id xs r found' e clear.1 (ground (arith, h)) in
      let front =
        is_clear-save x y f id xs r found' e (clash_sym y x clear.0) (ground (arith, h)) in
      rw there (ground (arith, rest, front))
]
