-- ===== src/Forms/Tally.antt =====
-- The tally of a submission: its approvals, the steps it needs and what it is.

use duka_backend.Forms.{
  Approval, FormEvent, Forms, Status, Submission, Verdict, apply_decision, approvals_of, approve,
  approve_submission, awaits_approval, decided, is_approved, is_approving, new_status,
  required_steps, same_status, submission_approved, write_decision,
}
use duka_backend.Database.{Database, lists}
use duka_backend.Prelude.{
  ==_refl, >>=-holds, Action, Bool, Bool-cases, List, Option-cases, Preserves, [], arith,
  change_key, count, false, inl, inr, leb, lookup, lookup-change_key, modify, none, not, ok, refl,
  select, some, subst, suc, sym, true, when, ℕ, ◌&&◌, ◌++◌, ◌+◌, ◌==◌, ◌∙◌, ◌∷◌, ◌≡◌, ◌⊎◌,
}

abbrev pub decide_all : Database → List Approval → Forms → Forms
decide_all db [] s = s
decide_all db (a ∷ l) s = decide_all db l (approve_submission db a s).1

-- An approval of the submission, or a decision on another one.
abbrev pub IsApproving : ℕ → Approval → Type 0
IsApproving k a = (a.action ≡ approve) ⊎ ((a.submission_id == k) ≡ false)

abbrev pub required_of : Forms → Submission → ℕ
required_of s row = required_steps (lookup (λ w. w.form_id) row.form_id s.workflows)

pub record IsTallied (k n c : ℕ) (s : Forms) : Type 0 where
  pub row : Submission
  pub found : lookup (λ r. r.id) k s.submissions ≡ some row
  pub steps : required_of s row ≡ n
  pub counted : approvals_of lists k s ≡ c
  pub settled : is_approved row.status ≡ leb n c

same_status-is_approved : (a b : Status) → same_status a b ≡ true → is_approved a ≡ is_approved b
same_status-is_approved a b h = ground arith

abbrev one_if : Bool → ℕ
one_if true = 1
one_if false = 0

count-snoc :
    (k : ℕ) (l : List Approval) (a : Approval)
    → count (λ y. is_approving y.action) (select (λ y. y.submission_id == k) (l ++ a ∷ []))
      ≡ count (λ y. is_approving y.action) (select (λ y. y.submission_id == k) l)
        + one_if (a.submission_id == k && is_approving a.action)
count-snoc k [] a = ground arith
count-snoc k (y ∷ l) a = ground (arith, count-snoc k l a)

pub counted-missed :
    (k : ℕ) (a : Approval) (s : Forms)
    → (a.submission_id == k) ≡ false
    → approvals_of lists k (record s { approvals = s.approvals ++ a ∷ [] }) ≡ approvals_of lists k s
counted-missed k a s h =
    let z : one_if (a.submission_id == k && is_approving a.action) ≡ 0 = rw h refl in
    let q = count-snoc k s.approvals a in omega (arith, q, z)

pub counted-hit :
    (k : ℕ) (a : Approval) (s : Forms)
    → a.submission_id ≡ k
    → a.action ≡ approve
    → approvals_of lists k (record s { approvals = s.approvals ++ a ∷ [] })
      ≡ suc (approvals_of lists k s)
counted-hit k a s i v =
    let z : one_if (a.submission_id == k && is_approving a.action) ≡ 1 =
      rw (i, v) (rw (==_refl k) refl) in
    let q = count-snoc k s.approvals a in omega (arith, q, z)

pub write-found :
    (k : ℕ) (status : Status) (s : Forms) (row : Submission)
    → lookup (λ r. r.id) k s.submissions ≡ some row
    → write_decision lists k status s ≡ (
      ok tt,
      record s { submissions = change_key (λ r. r.id) k (decided lists status) s.submissions },
    )
unfolding write_decision
write-found k status s row e = rw e refl

pub write-missing :
    (k : ℕ) (status : Status) (s : Forms)
    → lookup (λ r. r.id) k s.submissions ≡ none
    → (write_decision lists k status s).1 ≡ s
unfolding write_decision
write-missing k status s e = rw e refl

pub approved-new_status :
    (n c : ℕ) (row : Submission) → is_approved (new_status approve n c row) ≡ leb n c
approved-new_status n c row = elim (Bool-cases (leb n c)) [
  | inl t ↦ rw t refl
  | inr t ↦ elim (Option-cases row.workflow_state) [
    | inl e ↦ rw t (rw e refl)
    | inr (awaits_approval, e) ↦ rw t (rw e refl)
  ]
]

-- The end of a decision: the status is written where it changes.
abbrev settle : Bool → Submission → Status → Action Forms (Unit {0})
settle b row status = when (not b) (write_decision lists row.id status)

module _ (row : Submission) (n c : ℕ) (s : Forms) (status : Status) where
  IsTallied-settle :
      (b : Bool)
      → same_status status row.status ≡ b
      → is_approved status ≡ leb n c
      → lookup (λ r. r.id) row.id s.submissions ≡ some row
      → required_of s row ≡ n
      → approvals_of lists row.id s ≡ c
      → IsTallied row.id n c (settle b row status s).1
  IsTallied-settle true t h e f g = record {
    row = row;
    found = e;
    steps = f;
    counted = g;
    settled = sym (same_status-is_approved _ _ t) ∙ h;
  }
  IsTallied-settle false t h e f g =
      subst (λ p. IsTallied row.id n c p.1) (sym (write-found row.id status s row e))
        (record {
          row = decided lists status row;
          found =
              lookup-change_key (λ r. r.id) row.id row.id (decided lists status) s.submissions
                (λ x. refl)
              ∙ rw (==_refl row.id) (rw e refl);
          steps = f;
          counted = g;
          settled = h;
        })

module _ (k n c : ℕ) where
  pub IsTallied-events :
      (e : Forms → List FormEvent)
      → Preserves (IsTallied k n c) (modify (λ s. record s { events = e s }))
  IsTallied-events e = record {
    at = λ s t. record {
      row = t.row;
      found = t.found;
      steps = t.steps;
      counted = t.counted;
      settled = t.settled;
    };
  }

pub IsTallied-apply :
    (row : Submission) (v : Verdict) (n c : ℕ) (s : Forms) (status : Status)
    → is_approved status ≡ leb n c
    → lookup (λ r. r.id) row.id s.submissions ≡ some row
    → required_of s row ≡ n
    → approvals_of lists row.id s ≡ c
    → IsTallied row.id n c (apply_decision lists row v status s).1
unfolding apply_decision
IsTallied-apply row v n c s status h e f g =
    let b = same_status status row.status in
    let t = IsTallied-settle row n c s status b refl h e f g in
    let note = λ (_ : Unit {0}).
      modify (λ (x : Forms). record x {
        events = x.events ++ submission_approved row.id v status ∷ [];
      }) in
    >>=-holds (IsTallied row.id n c) (settle b row status) note s (λ _ _. t)
      (λ _ _.
        (IsTallied-events row.id n c (λ x. x.events ++ submission_approved row.id v status ∷ [])).at
          _ t)
