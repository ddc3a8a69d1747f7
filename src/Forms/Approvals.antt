-- ===== src/Forms/Approvals.antt =====
-- How many approvals a submission needs.

use duka_backend.Forms.Tally.{
  IsApproving, IsTallied, IsTallied-apply, IsTallied-events, approved-new_status, counted-hit,
  counted-missed, decide_all, required_of, write-found, write-missing,
}
use duka_backend.Forms.{
  Approval, Forms, Status, Submission, Verdict, Workflow, apply_decision, approvals_of, approve,
  approve_submission, decide, decided, is_approved, new_status, required_steps, write_decision,
}
use duka_backend.Database.{Database, IsDatabase, lists, transfer}
use duka_backend.Prelude.{
  ==_iff, All, Bool, Bool-cases, List, Option, Option-cases, Preserves, [], ap, arith, count, false,
  inl, inr, key-lookup, leb, lookup, lookup-change_key, map_option, none, or_else, preserves_rules,
  refl, some, subst, suc, sym, ℕ, ◌++◌, ◌+◌, ◌==◌, ◌∙◌, ◌∷◌, ◌≡◌,
}

module _ (k n c : ℕ) where
  IsTallied-write :
      (j : ℕ) (status : Status)
      → (j == k) ≡ false
      → Preserves (IsTallied k n c) (write_decision lists j status)
  IsTallied-write j status h = record {
    at = λ s t. elim (Option-cases (lookup (λ (r : Submission). r.id) j s.submissions)) [
      | inl e ↦ subst (IsTallied k n c) (sym (write-missing j status s e)) t
      | inr (r, e) ↦ rw (write-found j status s r e) (record {
        row = t.row;
        found =
            lookup-change_key (λ r. r.id) j k (decided lists status) s.submissions (λ x. refl)
            ∙ rw h t.found;
        steps = t.steps;
        counted = t.counted;
        settled = t.settled;
      })
    ];
  }

  IsTallied-decide :
      (row : Submission) (v : Verdict)
      → (row.id == k) ≡ false
      → Preserves (IsTallied k n c) (decide lists row v)
  unfolding decide apply_decision
  IsTallied-decide row v h = search (preserves_rules, IsTallied-write, IsTallied-events)

  IsTallied-missed :
      (a : Approval)
      → (a.submission_id == k) ≡ false
      → Preserves (IsTallied k n c) (approve_submission lists a)
  unfolding approve_submission
  IsTallied-missed a h = record {
    at = λ s t.
        elim (Option-cases (lookup (λ (r : Submission). r.id) a.submission_id s.submissions)) [
          | inl e ↦ rw e t
          | inr (r, e) ↦ rw e (
              (IsTallied-decide r a.action (
                  rw (key-lookup (λ (x : Submission). x.id) a.submission_id s.submissions r e)
                    h)).at
                (record s { approvals = s.approvals ++ a ∷ [] })
                (record {
                  row = t.row;
                  found = t.found;
                  steps = t.steps;
                  settled = t.settled;
                  counted = counted-missed k a s h ∙ t.counted;
                }))
        ];
  }

IsTallied-approve :
    (k n c : ℕ) (row : Submission) (s : Forms)
    → row.id ≡ k
    → lookup (λ r. r.id) row.id s.submissions ≡ some row
    → required_of s row ≡ n
    → approvals_of lists row.id s ≡ c
    → IsTallied k n c (decide lists row approve s).1
unfolding decide
IsTallied-approve k n c row s i e f g =
    let status = new_status approve (required_of s row) (approvals_of lists row.id s) row in
    let h = approved-new_status (required_of s row) (approvals_of lists row.id s) row in
    subst (λ j. IsTallied j n c (apply_decision lists row approve status s).1) i
      (IsTallied-apply row approve n c s status
        (h ∙ ap (λ x. leb x (approvals_of lists row.id s)) f ∙ ap (leb n) g) e f g)

IsTallied-hit :
    (k n c : ℕ) (a : Approval) (s : Forms)
    → a.submission_id ≡ k
    → a.action ≡ approve
    → IsTallied k n c s
    → IsTallied k n (suc c) (approve_submission lists a s).1
unfolding approve_submission
IsTallied-hit k n c a s i v t =
    let f =
      subst (λ j. lookup (λ (r : Submission). r.id) j s.submissions ≡ some t.row) (sym i) t.found in
    let r = key-lookup (λ (x : Submission). x.id) k s.submissions t.row t.found in
    let s' : Forms = record s { approvals = s.approvals ++ a ∷ [] } in
    rw f (
      subst (λ w. IsTallied k n (suc c) (decide lists t.row w s').1) (sym v)
        (IsTallied-approve k n (suc c) t.row s' r
          (subst (λ j. lookup (λ (x : Submission). x.id) j s.submissions ≡ some t.row) (sym r)
            t.found)
          t.steps
          (subst (λ j. approvals_of lists j s' ≡ suc c) (sym r)
            (counted-hit k a s i v ∙ ap suc t.counted))))

IsTallied-decide_all :
    (k n c : ℕ) (l : List Approval) (s : Forms)
    → All (IsApproving k) l
    → IsTallied k n c s
    → IsTallied k n (c + count (λ a. a.submission_id == k) l) (decide_all lists l s)
IsTallied-decide_all k n c [] s h t = subst (λ x. IsTallied k n x s) (omega arith) t
IsTallied-decide_all k n c (a ∷ l) s (h, hs) t = elim (Bool-cases (a.submission_id == k)) [
  | inl e ↦ elim h [
    | inl v ↦
        let r =
          IsTallied-decide_all k n (suc c) l _ hs
            (IsTallied-hit k n c a s ((==_iff a.submission_id k).0 e) v t) in
        subst (λ x. IsTallied k n x (decide_all lists l (approve_submission lists a s).1))
          (rw e (omega arith)) r
    | inr e' ↦ cc
  ]
  | inr e ↦
      let r = IsTallied-decide_all k n c l _ hs ((IsTallied-missed k n c a e).at s t) in
      subst (λ x. IsTallied k n x (decide_all lists l (approve_submission lists a s).1)) (rw e refl)
        r
]

-- Whether a submission is stored as approved.
abbrev pub is_approved_in : ℕ → Forms → Bool
is_approved_in k s =
    or_else
      (map_option (λ (r : Submission). is_approved r.status) (lookup (λ r. r.id) k s.submissions))
      false

required-positive : (o : Option Workflow) → leb (required_steps o) 0 ≡ false
required-positive none = refl
required-positive (some w) = elim (Option-cases w.steps) [
  | inl e ↦ rw e refl
  | inr (n, e) ↦ ground (arith, e)
]

-- A submission that is not approved and has no approvals is approved after any decisions on it and
-- on other submissions, in any order, where those on it are approvals, exactly where they are at
-- least as many as the steps of its form's workflow, or one where the workflow has none; whose
-- approvals they are does not matter.
pub approved_iff_enough :
    (db : Database) (d : IsDatabase db) (k : ℕ) (row : Submission) (l : List Approval) (s : Forms)
    → lookup (λ r. r.id) k s.submissions ≡ some row
    → is_approved row.status ≡ false
    → approvals_of lists k s ≡ 0
    → All (IsApproving k) l
    → is_approved_in k (decide_all db l s)
      ≡ leb (required_of s row) (count (λ a. a.submission_id == k) l)
approved_iff_enough db d k row l s f h z a =
    let n = required_of s row in
    transfer
      (λ b. is_approved_in k (decide_all b l s) ≡ leb n (count (λ x. x.submission_id == k) l)) d
      (let t = IsTallied-decide_all k n 0 l s a (record {
        row = row;
        found = f;
        steps = refl;
        counted = z;
        settled = h ∙ sym (required-positive (lookup (λ w. w.form_id) row.form_id s.workflows));
      }) in
        ap (λ o. or_else (map_option (λ (r : Submission). is_approved r.status) o) false) t.found
        ∙ t.settled
        ∙ ap (leb n) (omega arith))
