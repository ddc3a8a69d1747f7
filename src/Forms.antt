-- ===== src/Forms.antt =====
-- modules/forms/forms.service.ts: the submissions of a form, their validation and their approval.
pub mod Approvals
mod Tally
use duka_backend.Database.{Database}
use duka_backend.Prelude.{
  Action, Bool, List, Option, [], bad_request, count, database, false, gets, if◌then◌else◌, is_some,
  leb, length, lookup, ltb, map_option, modify, none, not, not_found, or_else, or_throw, p2025,
  pure, some, throw_if, true, when, ℕ, ◌&&◌, ◌++◌, ◌==◌, ◌>>=◌, ◌>>◌, ◌∷◌,
}
pub mod Answers
pub mod Submitted
mod Tests

-- A text is the list of its UTF-16 units; a number is natural. null and undefined are no value.
pub data Value : Type 0 where
  text : List ℕ → Value
  number : ℕ → Value
  other_value : Value

pub record Answer : Type 0 where
  pub field_id : ℕ
  pub value : Value

-- A bound that is missing is 0: the code reads it by its truth.
pub record Validation : Type 0 where
  pub min_length : ℕ
  pub max_length : ℕ
  pub min_value : ℕ
  pub max_value : ℕ
  pub pattern : Option (List ℕ)

pub record Field : Type 0 where
  pub id : ℕ
  pub form_id : ℕ
  pub is_required : Bool
  pub is_email : Bool
  pub validation : Option Validation

pub record Form : Type 0 where
  pub id : ℕ
  pub version : ℕ

-- `steps` is the length of the array that the column holds.
pub record Workflow : Type 0 where
  pub form_id : ℕ
  pub steps : Option ℕ

pub data Status : Type 0 where
  submitted pending_approval approved rejected : Status

-- The states that the service writes: 'pending_approval' or null.
pub data WorkflowState : Type 0 where
  awaits_approval : WorkflowState

pub record Submission : Type 0 where
  pub id : ℕ
  pub form_id : ℕ
  pub form_version : ℕ
  pub tenant_id : ℕ
  pub user_id : Option ℕ
  pub answers : List Answer
  pub attachments : List ℕ
  pub status : Status
  pub workflow_state : Option WorkflowState

pub data Verdict : Type 0 where
  approve reject other_verdict : Verdict

pub record Approval : Type 0 where
  pub submission_id : ℕ
  pub approver_id : Option ℕ
  pub action : Verdict
  pub comment : Option ℕ

pub data FormEvent : Type 0 where
  form_submitted : (form_id submission_id tenant_id : ℕ) → FormEvent
  submission_approved : (submission_id : ℕ) → Verdict → Status → FormEvent

pub record Forms : Type 0 where
  pub forms : List Form
  pub fields : List Field
  pub workflows : List Workflow
  pub submissions : List Submission
  pub approvals : List Approval
  pub events : List FormEvent

pub data Complaint : Type 0 where
  is_missing too_short too_long too_small too_large is_malformed is_no_email :
      (field_id : ℕ) → Complaint

-- The regular expressions of the language: whether a pattern matches a text; `matches_email` is
-- the test of /^[^\s@]+@[^\s@]+\.[^\s@]+$/.
pub record RegExp : Type 0 where
  pub matches : List ℕ → List ℕ → Bool
  pub matches_email : List ℕ → Bool

abbrev pub only_if : Bool → Complaint → List Complaint
only_if true c = c ∷ []
only_if false c = []

abbrev pub is_blank : Option Value → Bool
is_blank none = true
is_blank (some (text [])) = true
is_blank (some _) = false

abbrev pub exceeds : (bound n : ℕ) → Bool
exceeds bound n = ltb 0 bound && ltb bound n

module _ (x : RegExp) where
  unfoldable pub check_text : Field → Validation → List ℕ → List Complaint
  check_text f v t =
      only_if (ltb (length t) v.min_length) (too_short f.id)
      ++ only_if (exceeds v.max_length (length t)) (too_long f.id)
      ++ only_if (elim v.pattern [ none ↦ false | some p ↦ not (x.matches p t) ])
          (is_malformed f.id)
      ++ only_if (f.is_email && not (x.matches_email t)) (is_no_email f.id)

  unfoldable pub check_number : Field → Validation → ℕ → List Complaint
  check_number f v n =
      only_if (ltb n v.min_value) (too_small f.id)
      ++ only_if (exceeds v.max_value n) (too_large f.id)

  unfoldable pub check_value : Field → Validation → Value → List Complaint
  check_value f v (text t) = check_text f v t
  check_value f v (number n) = check_number f v n
  check_value f v other_value = []

  unfoldable pub check_given : Field → Option Value → List Complaint
  check_given f none = []
  check_given f (some a) = elim f.validation [ none ↦ [] | some v ↦ check_value f v a ]

  abbrev pub answer_to : ℕ → List Answer → Option Value
  answer_to id answers = map_option (λ (a : Answer). a.value) (lookup (λ a. a.field_id) id answers)

  unfoldable pub check_field : Field → Option Value → List Complaint
  check_field f a = if f.is_required && is_blank a then is_missing f.id ∷ [] else check_given f a

  unfoldable pub validate_answers : List Field → List Answer → List Complaint
  validate_answers [] answers = []
  validate_answers (f ∷ fs) answers =
      check_field f (answer_to f.id answers) ++ validate_answers fs answers

abbrev pub has_complaints : List Complaint → Bool
has_complaints [] = false
has_complaints (_ ∷ _) = true

pub record SubmissionInput : Type 0 where
  pub answers : List Answer
  pub user_id : Option ℕ
  pub attachments : List ℕ

abbrev pub has_steps : Option Workflow → Bool
has_steps none = false
has_steps (some w) = is_some w.steps

-- `(workflow?.steps as any[])?.length || 1`
abbrev pub required_steps : Option Workflow → ℕ
required_steps none = 1
required_steps (some w) = let n = or_else w.steps 0 in if ltb 0 n then n else 1

abbrev pub is_approving : Verdict → Bool
is_approving approve = true
is_approving _ = false

abbrev pub same_status : Status → Status → Bool
same_status submitted submitted = true
same_status pending_approval pending_approval = true
same_status approved approved = true
same_status rejected rejected = true
same_status _ _ = false

abbrev pub is_approved : Status → Bool
is_approved approved = true
is_approved _ = false

-- `submission.workflowState || 'pending_approval'`
abbrev pub state_or_pending : Option WorkflowState → Status
state_or_pending none = pending_approval
state_or_pending (some awaits_approval) = pending_approval

abbrev pub new_status : Verdict → (required count : ℕ) → Submission → Status
new_status approve required n s =
    if leb required n then approved else state_or_pending s.workflow_state
new_status reject required n s = rejected
new_status other_verdict required n s = s.status

module _ (db : Database) where
  abbrev pub new_submission :
      (fresh tenant_id : ℕ) → Form → Option Workflow → SubmissionInput → Submission
  new_submission fresh tenant_id form workflow input = record {
    id = fresh;
    form_id = form.id;
    form_version = form.version;
    tenant_id = tenant_id;
    user_id = input.user_id;
    answers = input.answers;
    attachments = input.attachments;
    status = submitted;
    workflow_state = if has_steps workflow then some awaits_approval else none;
  }

  unfoldable pub add_submission : Submission → Action Forms Submission
  add_submission row = do
    modify (λ s. record s { submissions = db.create Submission row s.submissions })
    modify (λ s. record s {
      events = s.events ++ form_submitted row.form_id row.id row.tenant_id ∷ [];
    })
    pure row

  unfoldable pub check_and_submit :
      RegExp → (fresh tenant_id : ℕ) → Form → SubmissionInput → Action Forms Submission
  check_and_submit x fresh tenant_id form input = do
    fields ← gets (λ s. db.find_many Field (λ f. f.form_id == form.id) s.fields)
    workflow ← gets (λ s. db.find_unique Workflow (λ w. w.form_id) form.id s.workflows)
    throw_if (has_complaints (validate_answers x fields input.answers))
        (bad_request "Validation failed")
    add_submission (new_submission fresh tenant_id form workflow input)

  unfoldable pub submit_form :
      RegExp → (fresh form_id tenant_id : ℕ) → SubmissionInput → Action Forms Submission
  submit_form x fresh form_id tenant_id input = do
    found ← gets (λ s. db.find_unique Form (λ f. f.id) form_id s.forms)
    form ← or_throw found (not_found "Form not found")
    check_and_submit x fresh tenant_id form input

  abbrev pub set_steps : (form_id : ℕ) → (steps : ℕ) → List Workflow → List Workflow
  set_steps form_id n l =
      or_else (db.update Workflow (λ w. w.form_id) form_id (λ w. record w { steps = some n }) l)
        (db.create Workflow (record { form_id = form_id; steps = some n }) l)

  unfoldable pub set_workflow : (form_id steps : ℕ) → Action Forms (Unit {0})
  set_workflow form_id n = modify (λ s. record s { workflows = set_steps form_id n s.workflows })

  abbrev pub decided : Status → Submission → Submission
  decided status row = record row {
    status = status;
    workflow_state = if is_approved status then none else row.workflow_state;
  }

  unfoldable pub write_decision : (submission_id : ℕ) → Status → Action Forms (Unit {0})
  write_decision submission_id status = do
    next ← gets (λ s. db.update Submission (λ x. x.id) submission_id (decided status) s.submissions)
    l ← or_throw next (database p2025)
    modify (λ s. record s { submissions = l })

  abbrev pub approvals_of : (submission_id : ℕ) → Forms → ℕ
  approvals_of submission_id s =
      count (λ a. is_approving a.action)
        (db.find_many Approval (λ a. a.submission_id == submission_id) s.approvals)

  unfoldable pub apply_decision : Submission → Verdict → Status → Action Forms (Unit {0})
  apply_decision row action status = do
    when (not (same_status status row.status)) (write_decision row.id status)
    modify (λ s. record s { events = s.events ++ submission_approved row.id action status ∷ [] })

  unfoldable pub decide : Submission → Verdict → Action Forms (Unit {0})
  decide row action = do
    workflow ← gets (λ s. db.find_unique Workflow (λ w. w.form_id) row.form_id s.workflows)
    n ← gets (approvals_of row.id)
    apply_decision row action (new_status action (required_steps workflow) n row)

  unfoldable pub approve_submission : Approval → Action Forms (Unit {0})
  approve_submission a = do
    found ← gets (λ s. db.find_unique Submission (λ x. x.id) a.submission_id s.submissions)
    row ← or_throw found (not_found "Submission not found")
    modify (λ s. record s { approvals = db.create Approval a s.approvals })
    decide row a.action
