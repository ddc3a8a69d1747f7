-- ===== src/Forms/Tests.antt =====
-- Runs of the forms, and their theorems at them.

use duka_backend.Forms.Approvals.{approved_iff_enough, is_approved_in}
use duka_backend.Forms.Submitted.{StoresIfAnswered, submitted_exactly}
use duka_backend.Forms.{
  Approval, Field, Forms, RegExp, Submission, SubmissionInput, add_submission, apply_decision,
  approve, approve_submission, awaits_approval, check_and_submit, check_field, check_given,
  check_number, check_text, check_value, decide, reject, set_workflow, submit_form, submitted, text,
  validate_answers, write_decision,
}
use duka_backend.Database.{lists, lists-IsDatabase}
use duka_backend.Prelude.{
  List, Result, [], any, bad_request, err, inl, inr, none, ok, refl, some, true, ℕ, ◌==◌, ◌∷◌, ◌≡◌,
}
use duka_backend.Forms.Tally.{decide_all}

calls : Unit {0}
unfolding submit_form check_and_submit add_submission validate_answers check_field check_given
    check_value check_text check_number approve_submission decide apply_decision write_decision
    set_workflow
calls = tt

-- A regular expression that matches every text, and an email test that asks for an @.
abbrev any_text : RegExp
any_text = record { matches = λ p t. true; matches_email = any (λ c. c == 64) }

abbrev mail_field : Field
mail_field = record {
  id = 5;
  form_id = 1;
  is_required = true;
  is_email = true;
  validation =
      some
        (record { min_length = 2; max_length = 4; min_value = 0; max_value = 0; pattern = none });
}

abbrev two_steps : Forms
two_steps = record {
  forms = record { id = 1; version = 3 } ∷ [];
  fields = mail_field ∷ [];
  workflows = record { form_id = 1; steps = some 2 } ∷ [];
  submissions = [];
  approvals = [];
  events = [];
}

abbrev input_of : List ℕ → SubmissionInput
input_of t = record {
  answers = record { field_id = 5; value = text t } ∷ [];
  user_id = none;
  attachments = [];
}

unfoldable outcome : List ℕ → Result ℕ
outcome t = elim (submit_form lists any_text 9 1 1 (input_of t) two_steps).0 [
  | ok r ↦ ok r.id
  | err e ↦ err e
]

stores_mail : outcome (97 ∷ 64 ∷ 98 ∷ []) ≡ ok 9
unfolding calls outcome
stores_mail = refl

refuses_no_mail : outcome (97 ∷ 98 ∷ []) ≡ err (bad_request "Validation failed")
unfolding calls outcome
refuses_no_mail = refl

refuses_long_mail : outcome (97 ∷ 64 ∷ 98 ∷ 98 ∷ 98 ∷ []) ≡ err (bad_request "Validation failed")
unfolding calls outcome
refuses_long_mail = refl

submitted_exactly_example :
    StoresIfAnswered lists any_text 9 1
      (input_of (97 ∷ 64 ∷ 98 ∷ []))
      1
      (record { id = 1; version = 3 })
      two_steps
submitted_exactly_example =
    submitted_exactly lists lists-IsDatabase any_text 9 1 1 (input_of (97 ∷ 64 ∷ 98 ∷ []))
      (record { id = 1; version = 3 }) two_steps refl

abbrev first_submission : Submission
first_submission = record {
  id = 9;
  form_id = 1;
  form_version = 3;
  tenant_id = 1;
  user_id = none;
  answers = [];
  attachments = [];
  status = submitted;
  workflow_state = some awaits_approval;
}

abbrev one_waits : Forms
one_waits = record two_steps { submissions = first_submission ∷ [] }

-- The same approver twice.
abbrev both_steps : List Approval
both_steps =
    record { submission_id = 9; approver_id = some 4; action = approve; comment = none }
    ∷ record { submission_id = 8; approver_id = some 4; action = reject; comment = none }
    ∷ record { submission_id = 9; approver_id = some 4; action = approve; comment = none }
    ∷ []

approved_iff_enough_example : is_approved_in 9 (decide_all lists both_steps one_waits) ≡ true
approved_iff_enough_example =
    approved_iff_enough lists lists-IsDatabase 9 first_submission both_steps one_waits refl refl
      refl (inl refl, (inr refl, (inl refl, tt)))
