-- ===== src/Forms/Answers.antt =====
-- Which answers a submission may have.

use duka_backend.Forms.{
  Answer, Complaint, Field, RegExp, Validation, Value, answer_to, check_field, check_given,
  check_number, check_text, check_value, exceeds, has_complaints, is_blank, is_missing, number,
  only_if, other_value, text, validate_answers,
}
use duka_backend.Prelude.{
  Bool, Bool-cases, List, Option, [], ap, arith, false, if◌then◌else◌, inl, inr, length, ltb, none,
  not, refl, some, subst, sym, true, ℕ, ◌&&◌, ◌++◌, ◌||◌, ◌∙◌, ◌∷◌, ◌≡◌, ◌≤◌, ◌⊎◌,
}

complaints-append :
    (a b : List Complaint) → has_complaints (a ++ b) ≡ has_complaints a || has_complaints b
complaints-append [] b = refl
complaints-append (x ∷ a) b = refl

complaints-only_if : (b : Bool) (c : Complaint) → has_complaints (only_if b c) ≡ b
complaints-only_if true c = refl
complaints-only_if false c = refl

complaints-two :
    (a b : Bool) (c d : Complaint) → has_complaints (only_if a c ++ only_if b d) ≡ a || b
complaints-two a b c d = ground arith

complaints-four :
    (a b c d : Bool) (k l m n : Complaint)
    → has_complaints (only_if a k ++ only_if b l ++ only_if c m ++ only_if d n) ≡ a || b || c || d
complaints-four a b c d k l m n = ground arith

or-false : (a b : Bool) → a || b ≡ false → (a ≡ false) × (b ≡ false)
or-false true b h = cc
or-false false b h = (refl, h)

both-false : (a b : Bool) → a ≡ false → b ≡ false → a || b ≡ false
both-false a b e f = rw e f

module _ (x : RegExp) where
  abbrev pub IsMatched : Option (List ℕ) → List ℕ → Type 0
  IsMatched none t = Unit
  IsMatched (some p) t = x.matches p t ≡ true

  pub record IsTextFit (f : Field) (v : Validation) (t : List ℕ) : Type 0 where
    long_enough : v.min_length ≤ length t
    short_enough : (v.max_length ≡ 0) ⊎ (length t ≤ v.max_length)
    well_formed : IsMatched v.pattern t
    is_email_text : f.is_email ≡ false ⊎ x.matches_email t ≡ true

  pub record IsNumberFit (v : Validation) (n : ℕ) : Type 0 where
    large_enough : v.min_value ≤ n
    small_enough : (v.max_value ≡ 0) ⊎ (n ≤ v.max_value)

  abbrev pub IsValueFit : Field → Validation → Value → Type 0
  IsValueFit f v (text t) = IsTextFit f v t
  IsValueFit f v (number n) = IsNumberFit v n
  IsValueFit f v other_value = Unit

  abbrev pub IsGivenFit : Field → Option Validation → Option Value → Type 0
  IsGivenFit f (some v) (some a) = IsValueFit f v a
  IsGivenFit f _ _ = Unit

  -- A required field has an answer that is no empty text, and an answer keeps the bounds and the
  -- patterns of its field's validation, where it has one.
  pub record IsFit (f : Field) (a : Option Value) : Type 0 where
    given : f.is_required ≡ false ⊎ is_blank a ≡ false
    fit : IsGivenFit f f.validation a

  abbrev pub IsAnswered : List Answer → List Field → Type 0
  IsAnswered answers [] = Unit
  IsAnswered answers (f ∷ fs) = IsFit f (answer_to x f.id answers) × IsAnswered answers fs

  unmatched : Option (List ℕ) → List ℕ → Bool
  unmatched o t = elim o [ none ↦ false | some p ↦ not (x.matches p t) ]

  text_complaints :
      (f : Field) (v : Validation) (t : List ℕ)
      → has_complaints (check_text x f v t) ≡ (
          ltb (length t) v.min_length
          || exceeds v.max_length (length t)
          || unmatched v.pattern t
          || f.is_email && not (x.matches_email t))
  unfolding check_text unmatched
  text_complaints f v t = complaints-four _ _ _ _ _ _ _ _

  unmatched-IsMatched : (o : Option (List ℕ)) (t : List ℕ) → unmatched o t ≡ false → IsMatched o t
  unfolding unmatched
  unmatched-IsMatched none t h = tt
  unmatched-IsMatched (some p) t h = ground arith

  IsMatched-unmatched : (o : Option (List ℕ)) (t : List ℕ) → IsMatched o t → unmatched o t ≡ false
  unfolding unmatched
  IsMatched-unmatched none t h = refl
  IsMatched-unmatched (some p) t h = rw h refl

  text-IsTextFit :
      (f : Field) (v : Validation) (t : List ℕ)
      → has_complaints (check_text x f v t) ≡ false
      → IsTextFit f v t
  text-IsTextFit f v t h =
      let e = sym (text_complaints f v t) ∙ h in
      record {
        long_enough = ground (arith, e);
        short_enough = ground (arith, e);
        well_formed = unmatched-IsMatched v.pattern t (ground (arith, e));
        is_email_text = ground (arith, e);
      }

  IsTextFit-text :
      (f : Field) (v : Validation) (t : List ℕ)
      → IsTextFit f v t
      → has_complaints (check_text x f v t) ≡ false
  IsTextFit-text f v t h =
      let m = IsMatched-unmatched v.pattern t h.well_formed in
      let a = h.long_enough in
      let b = h.short_enough in
      let c = h.is_email_text in text_complaints f v t ∙ ground (arith, m, a, b, c)

  number-IsNumberFit :
      (f : Field) (v : Validation) (n : ℕ)
      → has_complaints (check_number x f v n) ≡ false
      → IsNumberFit v n
  unfolding check_number
  number-IsNumberFit f v n h =
      let e = sym (complaints-two _ _ _ _) ∙ h in
      record { large_enough = ground (arith, e); small_enough = ground (arith, e) }

  IsNumberFit-number :
      (f : Field) (v : Validation) (n : ℕ)
      → IsNumberFit v n
      → has_complaints (check_number x f v n) ≡ false
  unfolding check_number
  IsNumberFit-number f v n h =
      let a = h.large_enough in
      let b = h.small_enough in complaints-two _ _ _ _ ∙ ground (arith, a, b)

  value-IsValueFit :
      (f : Field) (v : Validation) (a : Value)
      → has_complaints (check_value x f v a) ≡ false
      → IsValueFit f v a
  unfolding check_value
  value-IsValueFit f v (text t) h = text-IsTextFit f v t h
  value-IsValueFit f v (number n) h = number-IsNumberFit f v n h
  value-IsValueFit f v other_value h = tt

  IsValueFit-value :
      (f : Field) (v : Validation) (a : Value)
      → IsValueFit f v a
      → has_complaints (check_value x f v a) ≡ false
  unfolding check_value
  IsValueFit-value f v (text t) h = IsTextFit-text f v t h
  IsValueFit-value f v (number n) h = IsNumberFit-number f v n h
  IsValueFit-value f v other_value h = refl

  given-IsGivenFit :
      (f : Field) (o : Option Validation) (a : Option Value)
      → f.validation ≡ o
      → has_complaints (check_given x f a) ≡ false
      → IsGivenFit f o a
  unfolding check_given
  given-IsGivenFit f none a e h = tt
  given-IsGivenFit f (some v) none e h = tt
  given-IsGivenFit f (some v) (some a) e h = value-IsValueFit f v a (
      subst
        (λ o.
          has_complaints
            (elim o as (λ _. List Complaint) [ none ↦ [] | some w ↦ check_value x f w a ])
          ≡ false)
        e h)

  IsGivenFit-given :
      (f : Field) (o : Option Validation) (a : Option Value)
      → f.validation ≡ o
      → IsGivenFit f o a
      → has_complaints (check_given x f a) ≡ false
  unfolding check_given
  IsGivenFit-given f o none e h = refl
  IsGivenFit-given f none (some a) e h = rw e refl
  IsGivenFit-given f (some v) (some a) e h =
      subst
        (λ o.
          has_complaints
            (elim o as (λ _. List Complaint) [ none ↦ [] | some w ↦ check_value x f w a ])
          ≡ false)
        (sym e) (IsValueFit-value f v a h)

  field-IsFit :
      (f : Field) (a : Option Value) → has_complaints (check_field x f a) ≡ false → IsFit f a
  unfolding check_field
  field-IsFit f a h = elim (Bool-cases (f.is_required && is_blank a)) [
    | inl t ↦
        let q : true ≡ false =
          sym (ap (λ b. has_complaints (if b then is_missing f.id ∷ [] else check_given x f a)) t)
          ∙ h in
        cc
    | inr t ↦ record {
      given = ground arith;
      fit = given-IsGivenFit f f.validation a refl (
          sym (ap (λ b. has_complaints (if b then is_missing f.id ∷ [] else check_given x f a)) t)
          ∙ h);
    }
  ]

  IsFit-field :
      (f : Field) (a : Option Value) → IsFit f a → has_complaints (check_field x f a) ≡ false
  unfolding check_field
  IsFit-field f a h =
      let g = h.given in
      let t : (f.is_required && is_blank a) ≡ false = ground (arith, g) in
      rw t (IsGivenFit-given f f.validation a refl h.fit)

  pub answers-IsAnswered :
      (fs : List Field) (l : List Answer)
      → has_complaints (validate_answers x fs l) ≡ false
      → IsAnswered l fs
  unfolding validate_answers
  answers-IsAnswered [] l h = tt
  answers-IsAnswered (f ∷ fs) l h =
      let (a, b) = or-false _ _ (
        sym (complaints-append (check_field x f (answer_to x f.id l)) (validate_answers x fs l))
        ∙ h) in
      (field-IsFit f _ a, answers-IsAnswered fs l b)

  pub IsAnswered-answers :
      (fs : List Field) (l : List Answer)
      → IsAnswered l fs
      → has_complaints (validate_answers x fs l) ≡ false
  unfolding validate_answers
  IsAnswered-answers [] l h = refl
  IsAnswered-answers (f ∷ fs) l (h, hs) =
      complaints-append (check_field x f (answer_to x f.id l)) (validate_answers x fs l)
      ∙ both-false _ _ (IsFit-field f _ h) (IsAnswered-answers fs l hs)
