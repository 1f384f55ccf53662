-- ===== src/Auth/Password/Policy.antt =====
-- What the password policy accepts and what it reports.
use flexi.Prelude.{
  ℕ, ◌+◌, ◌≤◌, String, codes, ◌≡◌, ◌↔◌, refl, ap, ◌∙◌, Bool, true, List, [], ◌∷◌, ◌++◌, any, length,
  leb, eqb, Bool-cases, inl, inr, arith,
}
use flexi.Store.Rows.{count}
use flexi.Auth.Password.{
  utf16_length, is_lower, is_upper, is_digit, is_special, violations_of, validate_password_strength,
}

-- A code point of the text, at some place of it, has the property.
pub record Has (P : ℕ → Type 0) (cs : List ℕ) : Type 0 where
  pub before : List ℕ
  pub char : ℕ
  pub after : List ℕ
  pub placed : cs ≡ before ++ char ∷ after
  pub holds : P char

-- A password that the policy accepts: of 12 to 128 code units, a code point above the basic plane counting
-- twice, with a lowercase and an uppercase letter, a digit and a special character.
pub record IsStrong (password : String) : Type 0 where
  pub long_enough : 12 ≤ length (codes password) + count (λ c. leb 0x10000 c) (codes password)
  pub short_enough : length (codes password) + count (λ c. leb 0x10000 c) (codes password) ≤ 128
  pub has_lowercase : Has (λ c. (b'a' ≤ c) × (c ≤ b'z')) (codes password)
  pub has_uppercase : Has (λ c. (b'A' ≤ c) × (c ≤ b'Z')) (codes password)
  pub has_digit : Has (λ c. (b'0' ≤ c) × (c ≤ b'9')) (codes password)
  pub has_special :
      Has (λ c. Has (λ d. d ≡ c) (codes "!@#$%^&*()_+-=[]{};':\"\\|,.<>/?~`")) (codes password)

utf16_length-count : (cs : List ℕ) → utf16_length cs ≡ length cs + count (λ c. leb 0x10000 c) cs
unfolding count
utf16_length-count [] = refl
utf16_length-count (c ∷ cs) = ground (arith, utf16_length-count cs)

any-Has :
    {P : ℕ → Type 0} (p : ℕ → Bool) (cs : List ℕ)
    → ((c : ℕ) → p c ≡ true → P c)
    → any p cs ≡ true
    → Has P cs
any-Has p [] k h = absurd (ground arith)
any-Has p (c ∷ cs) k h = elim (Bool-cases (p c)) [
  | inl e ↦ record { before = []; char = c; after = cs; placed = refl; holds = k c e }
  | inr e ↦
      let d = any-Has p cs k (ground arith) in
      record {
        before = c ∷ d.before;
        char = d.char;
        after = d.after;
        placed = ap (λ xs. c ∷ xs) d.placed;
        holds = d.holds;
      }
]

any-append :
    (p : ℕ → Bool) (before : List ℕ) (c : ℕ) (after : List ℕ)
    → p c ≡ true
    → any p (before ++ c ∷ after) ≡ true
any-append p [] c after h = rw h refl
any-append p (b ∷ before) c after h = ground (arith, any-append p before c after h)

Has-any :
    {P : ℕ → Type 0} (p : ℕ → Bool) (cs : List ℕ)
    → ((c : ℕ) → P c → p c ≡ true)
    → Has P cs
    → any p cs ≡ true
Has-any p cs k d = ap (any p) d.placed ∙ any-append p d.before d.char d.after (k d.char d.holds)

-- what `is_special` tests
special-Has :
    (c : ℕ) → is_special c ≡ true → Has (λ d. d ≡ c) (codes "!@#$%^&*()_+-=[]{};':\"\\|,.<>/?~`")
unfolding is_special
special-Has c h = any-Has (λ s. eqb s c) _ (λ s e. ground arith) h

Has-special :
    (c : ℕ) → Has (λ d. d ≡ c) (codes "!@#$%^&*()_+-=[]{};':\"\\|,.<>/?~`") → is_special c ≡ true
unfolding is_special
Has-special c h = Has-any (λ s. eqb s c) _ (λ s e. ground arith) h

-- The policy reports nothing exactly for the passwords of 12 to 128 code units that have a lowercase and
-- an uppercase letter, a digit and a special character.
pub validate_password_strength-nil_iff :
    (password : String) → (validate_password_strength password ≡ []) ↔ IsStrong password
unfolding violations_of validate_password_strength
validate_password_strength-nil_iff password =
    let cs = codes password in
    let units = utf16_length-count cs in
    (
      λ h. record {
        long_enough = ground (arith, units);
        short_enough = ground (arith, units);
        has_lowercase = any-Has is_lower cs (λ c e. ground arith) (ground arith);
        has_uppercase = any-Has is_upper cs (λ c e. ground arith) (ground arith);
        has_digit = any-Has is_digit cs (λ c e. ground arith) (ground arith);
        has_special = any-Has is_special cs special-Has (ground arith);
      },
      λ h. ground (
        arith,
        units,
        h.long_enough,
        h.short_enough,
        Has-any is_lower cs (λ c e. ground (arith, e.0, e.1)) h.has_lowercase,
        Has-any is_upper cs (λ c e. ground (arith, e.0, e.1)) h.has_uppercase,
        Has-any is_digit cs (λ c e. ground (arith, e.0, e.1)) h.has_digit,
        Has-any is_special cs Has-special h.has_special,
      ),
    )
