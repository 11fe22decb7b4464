-- ===== src/Status.antt =====
-- One state machine for every document type: `StatusTransitionMixin` of backend/apps/core/models.py.
pub mod Documents
pub mod Closed
use achr.Prelude.{
  ℕ, String, Bool, true, false, ◌||◌, not, Option, none, some, List, [], ◌∷◌, str_eq, find,
  if◌then◌else◌, Outcome, ok, err, raise_if, ◌>>◌,
}

-- A dictionary from a status to those that it may become.
abbrev pub Transitions : Type 0
Transitions = List (String × List String)

abbrev pub contains : String → List String → Bool
contains s [] = false
contains s (x ∷ xs) = str_eq x s || contains s xs

-- `self.ALLOWED_TRANSITIONS.get(self.status, ())`
abbrev pub get : Transitions → String → List String
get [] status = []
get ((k, v) ∷ r) status = if str_eq k status then v else get r status

-- The columns that `transition` writes.
pub record Document : Type 0 where
  pub status : String
  pub updated_by : Option ℕ

pub data TransitionError : Type 0 where
  illegal_transition : String → String → TransitionError

-- `assert_can_transition`
unfoldable pub assert_can_transition :
    Transitions → Document → String → Outcome TransitionError (Unit {0})
assert_can_transition allowed_transitions d new_status =
    let allowed = get allowed_transitions d.status in
    raise_if (not (contains new_status allowed)) (illegal_transition d.status new_status)

-- A statement of a method: what it returns or raises, and the object that it leaves. An object that is
-- written before a statement raises stays written.
abbrev pub Statement : Type 0
Statement = Document → Outcome TransitionError (Unit {0}) × Document

-- One statement and then the other, unless the first raises.
abbrev pub after :
    Outcome TransitionError (Unit {0}) × Document
    → Statement
    → Outcome TransitionError (Unit {0}) × Document
after (ok u, d) next = next d
after (err e, d) next = (err e, d)

-- `self.assert_can_transition(new_status)`
abbrev pub check_status : Transitions → String → Statement
check_status allowed_transitions new_status d =
    (assert_can_transition allowed_transitions d new_status, d)

-- `self.status = new_status`
abbrev pub set_status : String → Statement
set_status new_status d = (ok tt, record d { status = new_status })

-- `if user_id is not None: self.updated_by_id = user_id`
abbrev pub set_user : Option ℕ → Statement
set_user none d = (ok tt, d)
set_user (some user) d = (ok tt, record d { updated_by = some user })

-- `transition`, with the object that it leaves, which is the row too where nothing is raised.
unfoldable pub transition :
    Transitions → Document → String → Option ℕ → Outcome TransitionError (Unit {0}) × Document
unfolding assert_can_transition
transition allowed_transitions d new_status user_id =
    after (after (check_status allowed_transitions new_status d) (set_status new_status))
      (set_user user_id)

-- The object after a call, whether the call has raised or not.
unfoldable pub attempt : Transitions → Document → String → Option ℕ → Document
unfolding transition
attempt t d new_status user_id = (transition t d new_status user_id).1

-- The object after the calls of a list, in turn.
unfoldable pub attempt_all : Transitions → Document → List (String × Option ℕ) → Document
unfolding attempt
attempt_all t d [] = d
attempt_all t d ((new_status, user_id) ∷ calls) =
    attempt_all t (attempt t d new_status user_id) calls
