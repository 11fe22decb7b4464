-- ===== src/Tests/Documents.antt =====
-- Status transitions at concrete inputs (backend/apps/core/models.py).
use achr.Prelude.{ℕ, ◌≡◌, refl, String, true, Option, none, some, List, [], ◌∷◌}
use achr.Status.{Document, contains, attempt_all}
use achr.Status.Closed.{DocumentKind, transitions_of, settled, attempt_all-settled}

abbrev sent : Document
sent = record { status = "sent"; updated_by = some 5 }

abbrev calls : List (String × Option ℕ)
calls = ("draft", some 6) ∷ ("paid", none) ∷ []

sent_settled : contains sent.status (settled DocumentKind.invoice) ≡ true
unfolding settled
sent_settled = refl

attempt_all-settled_example :
    contains
      (attempt_all (transitions_of DocumentKind.invoice) sent calls).status
      (settled DocumentKind.invoice)
    ≡ true
attempt_all-settled_example = attempt_all-settled DocumentKind.invoice sent calls sent_settled
