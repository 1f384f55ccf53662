-- ===== src/Auth/Password.antt =====
-- The password policy of packages/shared-types/src/entities.ts (`validatePasswordStrength`).
pub mod Policy
use flexi.Prelude.{
  ℕ, ◌+◌, String, codes, Bool, not, ◌&&◌, ◌||◌, List, [], ◌∷◌, ◌++◌, ltb, leb, eqb, any,
  if◌then◌else◌,
}

pub data PasswordPolicyViolation : Type 0 where
  too_short too_long missing_lowercase missing_uppercase : PasswordPolicyViolation
  missing_digit missing_special : PasswordPolicyViolation

abbrev pub password_min_length : ℕ
password_min_length = 12

abbrev pub password_max_length : ℕ
password_max_length = 128

abbrev pub password_special_characters : List ℕ
password_special_characters = codes "!@#$%^&*()_+-=[]{};':\"\\|,.<>/?~`"

-- `length` of a JavaScript string: a code point above the basic plane is two units
abbrev pub utf16_length : List ℕ → ℕ
utf16_length [] = 0
utf16_length (c ∷ cs) = (if ltb c 0x10000 then 1 else 2) + utf16_length cs

-- `/[a-z]/`, `/[A-Z]/`, `/[0-9]/` of one character
abbrev pub is_lower : ℕ → Bool
is_lower c = leb b'a' c && leb c b'z'

abbrev pub is_upper : ℕ → Bool
is_upper c = leb b'A' c && leb c b'Z'

abbrev pub is_digit : ℕ → Bool
is_digit c = leb b'0' c && leb c b'9'

pub is_special : ℕ → Bool
is_special c = any (λ s. eqb s c) password_special_characters

-- `if (broken) violations.push(violation);`
abbrev push_if : Bool → PasswordPolicyViolation → List PasswordPolicyViolation
push_if broken violation = if broken then violation ∷ [] else []

violations_of : List ℕ → List PasswordPolicyViolation
violations_of cs =
    push_if (ltb (utf16_length cs) password_min_length) too_short
    ++ (push_if (ltb password_max_length (utf16_length cs)) too_long
        ++ (push_if (not (any is_lower cs)) missing_lowercase
            ++ (push_if (not (any is_upper cs)) missing_uppercase
                ++ (push_if (not (any is_digit cs)) missing_digit
                    ++ push_if (not (any is_special cs)) missing_special))))

unfoldable pub validate_password_strength : String → List PasswordPolicyViolation
unfolding violations_of is_special
validate_password_strength password = violations_of (codes password)
