-- ===== src/Publishing/Version.antt =====
-- Version texts: `incrementPatchVersion` and the format test of `allocateVersion` in
-- modules/publishing/publishing.service.ts, over character codes.

use duka_backend.Prelude.{
  ==_iff, Bool, Bool-cases, List, Option, [], all, ap, arith, false, if◌then◌else◌, inl, inr, leb,
  ltb, none, not, refl, some, subst, suc, sym, true, zero, ℕ, ◌%◌, ◌&&◌, ◌*◌, ◌++◌, ◌+◌, ◌-◌, ◌/◌,
  ◌<◌, ◌==◌, ◌||◌, ◌↔◌, ◌∙◌, ◌∷◌, ◌≡◌, ◌≢◌, ◌≤◌, ◌⊎◌,
}

-- `a === b`
unfoldable pub text_eq : List ℕ → List ℕ → Bool
text_eq [] [] = true
text_eq (a ∷ s) (b ∷ t) = a == b && text_eq s t
text_eq _ _ = false

unfoldable pub is_digit : ℕ → Bool
is_digit c = leb b'0' c && leb c b'9'

-- The three texts between the dots; `none` for another number of dots.
split_dot : List ℕ → List ℕ × Option (List ℕ)
split_dot [] = ([], none)
split_dot (c ∷ s) = let (a, rest) = split_dot s in if c == b'.' then ([], some s) else (c ∷ a, rest)

last_part : List ℕ → List ℕ → List ℕ × Option (List ℕ) → Option (List ℕ × List ℕ × List ℕ)
last_part a b (c, none) = some (a, b, c)
last_part a b (c, some _) = none

middle_part : List ℕ → List ℕ × Option (List ℕ) → Option (List ℕ × List ℕ × List ℕ)
middle_part a (b, none) = none
middle_part a (b, some u) = last_part a b (split_dot u)

first_part : List ℕ × Option (List ℕ) → Option (List ℕ × List ℕ × List ℕ)
first_part (a, none) = none
first_part (a, some t) = middle_part a (split_dot t)

unfoldable pub parts : List ℕ → Option (List ℕ × List ℕ × List ℕ)
unfolding split_dot first_part middle_part last_part
parts s = first_part (split_dot s)

-- `\d+`
unfoldable pub digits : List ℕ → Bool
digits [] = false
digits (c ∷ s) = is_digit c && all is_digit s

-- `0|[1-9]\d*`
unfoldable pub numeral : List ℕ → Bool
numeral [] = false
numeral (c ∷ s) =
    is_digit c && all is_digit s && (not (c == b'0') || (elim s [ [] ↦ true | _ ∷ _ ↦ false ]))

-- `/^(0|[1-9]\d*)\.(0|[1-9]\d*)\.(0|[1-9]\d*)$/.test(version)`
unfoldable pub is_semver : List ℕ → Bool
is_semver s = elim (parts s) [ none ↦ false | some (a, b, c) ↦ numeral a && numeral b && numeral c ]

-- `Number(text)` for a text of digits.
unfoldable pub to_number : ℕ → List ℕ → ℕ
to_number acc [] = acc
to_number acc (c ∷ s) = to_number (acc * 10 + (c - b'0')) s

-- The decimal text of a number, in front of `rest`.
unfoldable pub print_number : ℕ → ℕ → List ℕ → List ℕ
print_number zero n rest = rest
print_number (suc fuel) n rest =
    let more = print_number fuel (n / 10) ((b'0' + n % 10) ∷ rest) in
    if ltb n 10 then (b'0' + n) ∷ rest else more

-- The numbers of the language are exact up to this one.
abbrev pub max_safe_integer : ℕ
max_safe_integer = 9007199254740991

-- `${Number(text) + 1}`; from `max_safe_integer` on it is what `large` gives.
unfoldable pub next_number : (large : List ℕ → List ℕ) → List ℕ → List ℕ
next_number large c =
    if ltb (to_number 0 c) max_safe_integer
    then print_number (suc (to_number 0 c + 1)) (to_number 0 c + 1) []
    else large c

-- The major and minor texts are kept.
unfoldable pub increment_patch_version : (large : List ℕ → List ℕ) → List ℕ → Option (List ℕ)
increment_patch_version large s = elim (parts s) [
  | none ↦ none
  | some (a, b, c) ↦
      if digits a && digits b && digits c
      then some (a ++ b'.' ∷ (b ++ b'.' ∷ next_number large c))
      else none
]

version_run :
    (increment_patch_version (λ c. c) (b'1' ∷ b'.' ∷ b'0' ∷ b'.' ∷ b'9' ∷ [])
      ≡ some (b'1' ∷ b'.' ∷ b'0' ∷ b'.' ∷ b'1' ∷ b'0' ∷ []))
    × (is_semver (b'1' ∷ b'.' ∷ b'0' ∷ b'1' ∷ b'.' ∷ b'9' ∷ []) ≡ false)
unfolding increment_patch_version next_number is_semver parts digits is_digit numeral print_number
    to_number
version_run = (refl, refl)

pub text_eq_iff : (s t : List ℕ) → (text_eq s t ≡ true) ↔ (s ≡ t)
unfolding text_eq
text_eq_iff [] [] = ground arith
text_eq_iff [] (b ∷ t) = ground arith
text_eq_iff (a ∷ s) [] = ground arith
text_eq_iff (a ∷ s) (b ∷ t) = ground (arith, (text_eq_iff s t).0, (text_eq_iff s t).1)

-- A text of digits that goes on from a number reads as another.
abbrev pub Reads : ℕ → List ℕ → ℕ → Type 0
Reads n [] m = n ≡ m
Reads n (c ∷ s) m = (b'0' ≤ c) × (c ≤ b'9') × Reads (n * 10 + (c - b'0')) s m

-- No zero in front of other digits.
abbrev pub IsTrimmed : List ℕ → Type 0
IsTrimmed [] = ⊥
IsTrimmed (c ∷ []) = Unit
IsTrimmed (c ∷ (d ∷ s)) = c ≢ b'0'

-- The decimal text of a number.
abbrev pub IsNumeral : List ℕ → ℕ → Type 0
IsNumeral c n = Reads 0 c n × IsTrimmed c

abbrev pub dotted : List ℕ → List ℕ → List ℕ → List ℕ
dotted a b c = a ++ b'.' ∷ (b ++ b'.' ∷ c)

digits-Reads : (n : ℕ) (s : List ℕ) → all is_digit s ≡ true → Reads n s (to_number n s)
unfolding to_number is_digit
digits-Reads n [] h = refl
digits-Reads n (c ∷ s) h =
    (ground arith, ground arith, digits-Reads (n * 10 + (c - b'0')) s (ground arith))

number-Reads : (c : List ℕ) → digits c ≡ true → Reads 0 c (to_number 0 c)
unfolding digits
number-Reads [] h = cc
number-Reads (c ∷ s) h = digits-Reads 0 (c ∷ s) h

third_holds : (x y z : Bool) → x && y && z ≡ true → z ≡ true
third_holds x y z h = ground arith

print-Reads :
    (fuel n : ℕ) (rest : List ℕ) (r : ℕ)
    → n < fuel
    → Reads n rest r
    → Reads 0 (print_number fuel n rest) r
unfolding print_number
print-Reads zero n rest r h k = absurd (omega arith)
print-Reads (suc fuel) n rest r h k = elim (Bool-cases (ltb n 10)) [
  | inl t ↦ rw t (ground arith, ground arith, subst (λ x. Reads x rest r) (omega arith) k)
  | inr t ↦ rw t (
      print-Reads fuel (n / 10) ((b'0' + n % 10) ∷ rest) r (ground arith)
        (omega arith, omega arith, subst (λ x. Reads x rest r) (omega arith) k))
]

IsTrimmed-cons : (c : ℕ) (s : List ℕ) → (s ≡ []) ⊎ (c ≢ b'0') → IsTrimmed (c ∷ s)
IsTrimmed-cons c [] h = tt
IsTrimmed-cons c (d ∷ s) (inl e) = cc
IsTrimmed-cons c (d ∷ s) (inr h) = h

print-IsTrimmed :
    (fuel n : ℕ) (rest : List ℕ)
    → n < fuel
    → (rest ≡ []) ⊎ (1 ≤ n)
    → IsTrimmed (print_number fuel n rest)
unfolding print_number
print-IsTrimmed zero n rest h k = absurd (omega arith)
print-IsTrimmed (suc fuel) n rest h k = elim (Bool-cases (ltb n 10)) [
  | inl t ↦
      rw t
        (IsTrimmed-cons (b'0' + n) rest (elim k [ inl e ↦ inl e | inr g ↦ inr (λ z. omega arith) ]))
  | inr t ↦
      rw t
        (print-IsTrimmed fuel (n / 10) ((b'0' + n % 10) ∷ rest) (ground arith) (inr (ground arith)))
]

numeral-IsNumeral : (c : List ℕ) → numeral c ≡ true → IsNumeral c (to_number 0 c)
unfolding numeral
numeral-IsNumeral [] h = cc
numeral-IsNumeral (c ∷ []) h = (digits-Reads 0 (c ∷ []) (ground arith), tt)
numeral-IsNumeral (c ∷ (d ∷ s)) h =
    (digits-Reads 0 (c ∷ (d ∷ s)) (ground arith), λ z. ground (arith, z))

whole : List ℕ × Option (List ℕ) → List ℕ
whole (a, none) = a
whole (a, some u) = a ++ b'.' ∷ u

whole-cons : (c : ℕ) (p : List ℕ × Option (List ℕ)) → whole (c ∷ p.0, p.1) ≡ c ∷ whole p
unfolding whole
whole-cons c (a, none) = refl
whole-cons c (a, some u) = refl

split-whole : (s : List ℕ) → whole (split_dot s) ≡ s
unfolding split_dot whole
split-whole [] = refl
split-whole (c ∷ s) = elim (Bool-cases (c == b'.')) [
  | inl t ↦ rw t (ap (λ x. x ∷ s) (sym ((==_iff c b'.').0 t)))
  | inr f ↦ rw f (whole-cons c (split_dot s) ∙ ap (λ x. c ∷ x) (split-whole s))
]

pub parts-dotted : (s a b c : List ℕ) → parts s ≡ some (a, b, c) → s ≡ dotted a b c
unfolding parts first_part middle_part last_part whole
parts-dotted s a b c h = from (split_dot s) (split-whole s) h
  where
    third :
        (x y : List ℕ) (r : List ℕ × Option (List ℕ))
        → last_part x y r ≡ some (a, b, c)
        → dotted x y (whole r) ≡ dotted a b c
    third x y (z, none) h = cc
    third x y (z, some u) h = cc

    second :
        (x : List ℕ) (q : List ℕ × Option (List ℕ))
        → middle_part x q ≡ some (a, b, c)
        → x ++ b'.' ∷ whole q ≡ dotted a b c
    second x (y, none) h = cc
    second x (y, some u) h =
        subst (λ w. dotted x y w ≡ dotted a b c) (split-whole u) (third x y (split_dot u) h)

    from :
        (p : List ℕ × Option (List ℕ))
        → whole p ≡ s
        → first_part p ≡ some (a, b, c)
        → s ≡ dotted a b c
    from (x, none) e h = cc
    from (x, some t) e h =
        sym e ∙ subst (λ w. x ++ b'.' ∷ w ≡ dotted a b c) (split-whole t) (second x (split_dot t) h)

-- MAJOR.MINOR.PATCH: three numerals between dots.
pub record IsVersionText (s : List ℕ) : Type 0 where
  pub major : List ℕ
  pub minor : List ℕ
  pub patch : List ℕ
  pub numbers : ℕ × ℕ × ℕ
  pub whole_text : s ≡ dotted major minor patch
  pub major_is : IsNumeral major numbers.0
  pub minor_is : IsNumeral minor numbers.1
  pub patch_is : IsNumeral patch numbers.2

pub semver-IsVersionText : (s : List ℕ) → is_semver s ≡ true → IsVersionText s
unfolding is_semver
semver-IsVersionText s h = from (parts s) refl h
  where
    from :
        (o : Option (List ℕ × List ℕ × List ℕ))
        → parts s ≡ o
        → elim o as (λ _. Bool) [
          | none ↦ false
          | some (a, b, c) ↦ numeral a && numeral b && numeral c
        ]
          ≡ true
        → IsVersionText s
    from none e h = cc
    from (some (a, b, c)) e h = record {
      major = a;
      minor = b;
      patch = c;
      numbers = (to_number 0 a, to_number 0 b, to_number 0 c);
      whole_text = parts-dotted s a b c e;
      major_is = numeral-IsNumeral a (ground arith);
      minor_is = numeral-IsNumeral b (ground arith);
      patch_is = numeral-IsNumeral c (ground arith);
    }

-- The version after another one: the same but for its last number, which is one more, where that
-- number is one that the language counts on from exactly.
pub record IsIncrement (large : List ℕ → List ℕ) (old new : List ℕ) : Type 0 where
  pub major : List ℕ
  pub minor : List ℕ
  pub patch : List ℕ
  pub next : List ℕ
  pub old_number : ℕ
  pub old_text : old ≡ dotted major minor patch
  pub old_reads : Reads 0 patch old_number
  pub new_text : new ≡ dotted major minor next
  pub counted_on :
      ((old_number < 9007199254740991) × IsNumeral next (old_number + 1))
      ⊎ ((9007199254740991 ≤ old_number) × (next ≡ large patch))

next_number-cases :
    (large : List ℕ → List ℕ) (c : List ℕ)
    → ((to_number 0 c < 9007199254740991) × IsNumeral (next_number large c) (to_number 0 c + 1))
      ⊎ ((9007199254740991 ≤ to_number 0 c) × (next_number large c ≡ large c))
unfolding next_number
next_number-cases large c = elim (Bool-cases (ltb (to_number 0 c) max_safe_integer)) [
  | inl t ↦
      let n = to_number 0 c + 1 in
      inl (
        ground arith,
        rw t (
          print-Reads (suc n) n [] n (omega arith) refl,
          print-IsTrimmed (suc n) n [] (omega arith) (inl refl),
        ),
      )
  | inr f ↦ inr (ground arith, rw f refl)
]

pub increment-IsIncrement :
    (large : List ℕ → List ℕ) (s t : List ℕ)
    → increment_patch_version large s ≡ some t
    → IsIncrement large s t
unfolding increment_patch_version
increment-IsIncrement large s t h = from (parts s) refl h
  where
    from :
        (o : Option (List ℕ × List ℕ × List ℕ))
        → parts s ≡ o
        → elim o as (λ _. Option (List ℕ)) [
          | none ↦ none
          | some (a, b, c) ↦
              if digits a && digits b && digits c
              then some (a ++ b'.' ∷ (b ++ b'.' ∷ next_number large c))
              else none
        ]
          ≡ some t
        → IsIncrement large s t
    from none e h = cc
    from (some (a, b, c)) e h = elim (Bool-cases (digits a && digits b && digits c)) [
      | inl d ↦ record {
        major = a;
        minor = b;
        patch = c;
        next = next_number large c;
        old_number = to_number 0 c;
        old_text = parts-dotted s a b c e;
        old_reads = number-Reads c (third_holds (digits a) (digits b) (digits c) d);
        new_text =
            let q : some (dotted a b (next_number large c)) ≡ some t =
              sym (ap (λ x. if x then some (dotted a b (next_number large c)) else none) d) ∙ h in
            cc;
        counted_on = next_number-cases large c;
      }
      | inr d ↦
          let q : none ≡ some t =
            sym (ap (λ x. if x then some (dotted a b (next_number large c)) else none) d) ∙ h in
          cc
    ]
