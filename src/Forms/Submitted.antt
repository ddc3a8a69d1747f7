-- ===== src/Forms/Submitted.antt =====
-- What a submission of a form does.

use duka_backend.Forms.Answers.{IsAnswered, IsAnswered-answers, answers-IsAnswered}
use duka_backend.Forms.{
  Field, Form, Forms, RegExp, Submission, SubmissionInput, add_submission, check_and_submit,
  form_submitted, has_complaints, new_submission, submit_form, submitted, validate_answers,
}
use duka_backend.Database.{Database, IsDatabase, lists, transfer}
use duka_backend.Prelude.{
  Bool-cases, List, [], bad_request, err, false, inl, inr, lookup, ok, refl, select, some, sym,
  true, ℕ, ◌++◌, ◌==◌, ◌∙◌, ◌∷◌, ◌≡◌, ◌⊎◌,
}

-- The table of submissions and the events after a submission is stored.
abbrev pub stored : Submission → Forms → Forms
stored row s = record s {
  submissions = s.submissions ++ row ∷ [];
  events = s.events ++ form_submitted row.form_id row.id row.tenant_id ∷ [];
}

-- The fields of a form, in the order of the table.
abbrev pub fields_of : Form → Forms → List Field
fields_of form s = select (λ f. f.form_id == form.id) s.fields

-- Either the answers are right and the submission is stored, or they are not and nothing is.
abbrev pub StoresIfAnswered :
    Database → RegExp → (fresh tenant : ℕ) → SubmissionInput → (form_id : ℕ) → Form → Forms → Type 0
StoresIfAnswered db x fresh tenant input form_id form s =
    ((row : Submission) × IsAnswered x input.answers (fields_of form s)
      × (submit_form db x fresh form_id tenant input s ≡ (ok row, stored row s))
      × (row.answers ≡ input.answers)
      × (row.status ≡ submitted)
      × (row.form_version ≡ form.version))
    ⊎ (¬ IsAnswered x input.answers (fields_of form s)
        × (submit_form db x fresh form_id tenant input s
            ≡ (err (bad_request "Validation failed"), s)))

submit_lists :
    (x : RegExp) (fresh form_id tenant : ℕ) (input : SubmissionInput) (form : Form) (s : Forms)
    → lookup (λ f. f.id) form_id s.forms ≡ some form
    → StoresIfAnswered lists x fresh tenant input form_id form s
unfolding submit_form check_and_submit add_submission
submit_lists x fresh form_id tenant input form s e =
    elim (Bool-cases (has_complaints (validate_answers x (fields_of form s) input.answers))) [
      | inl t ↦ inr (
        (λ h.
            let q : true ≡ false =
              sym t ∙ IsAnswered-answers x (fields_of form s) input.answers h in
            cc),
        rw e (rw t refl),
      )
      | inr t ↦ inl (
        new_submission lists fresh tenant form (lookup (λ w. w.form_id) form.id s.workflows) input,
        answers-IsAnswered x (fields_of form s) input.answers t,
        rw e (rw t refl),
        refl,
        refl,
        refl,
      )
    ]

pub submitted_exactly :
    (db : Database) (d : IsDatabase db) (x : RegExp) (fresh form_id tenant : ℕ)
    (input : SubmissionInput) (form : Form) (s : Forms)
    → lookup (λ f. f.id) form_id s.forms ≡ some form
    → StoresIfAnswered db x fresh tenant input form_id form s
submitted_exactly db d x fresh form_id tenant input form s e =
    transfer (λ b. StoresIfAnswered b x fresh tenant input form_id form s) d
      (submit_lists x fresh form_id tenant input form s e)
