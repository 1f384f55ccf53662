-- ===== src/Provisioning/Payload.antt =====
-- readSafePayload of modules/tenants/provisioning.service.ts, and the validation that it calls:
-- validateTenantOnboardingInput of packages/shared-types/src/entities.ts, its patterns on code points.
use flexi.Prelude.{
  ℕ, String, ◌==◌, codes, Bool, true, false, not, ◌&&◌, ◌||◌, Option, none, some, List, [], ◌∷◌,
  if◌then◌else◌, is_none, or_default, includes, leb, eqb, every, length,
}
use flexi.Onboarding.{PayloadJson, SafePayload}
use flexi.Store.Platform.{Platform}
use flexi.Auth.Duration.{is_space}
use flexi.Auth.Email.{trim_text, normalize_email}

pub data ValidationErrorCode : Type 0 where
  tenant_name_required slug_required slug_format : ValidationErrorCode
  email_required email_format plan_required : ValidationErrorCode

pub record ValidationErrors : Type 0 where
  pub tenant_name : Option ValidationErrorCode
  pub tenant_slug : Option ValidationErrorCode
  pub first_admin_email : Option ValidationErrorCode
  pub plan : Option ValidationErrorCode

abbrev pub tenant_slug_min_length : ℕ
tenant_slug_min_length = 3

abbrev pub tenant_slug_max_length : ℕ
tenant_slug_max_length = 63

-- `[a-z0-9]`
abbrev pub is_slug_char : ℕ → Bool
is_slug_char c = (leb b'a' c && leb c b'z') || (leb b'0' c && leb c b'9')

-- what may follow: `(?:[a-z0-9-]*[a-z0-9])?` before the end of the text
abbrev pub ends_as_slug : List ℕ → Bool
ends_as_slug [] = true
ends_as_slug (c ∷ []) = is_slug_char c
ends_as_slug (c ∷ d ∷ cs) = (is_slug_char c || eqb c b'-') && ends_as_slug (d ∷ cs)

-- `/^[a-z0-9](?:[a-z0-9-]*[a-z0-9])?$/`
abbrev pub matches_slug : List ℕ → Bool
matches_slug [] = false
matches_slug (c ∷ cs) = is_slug_char c && ends_as_slug cs

-- `slug.includes('--')`
abbrev pub has_double_dash : List ℕ → Bool
has_double_dash [] = false
has_double_dash (c ∷ []) = false
has_double_dash (c ∷ d ∷ cs) = (eqb c b'-' && eqb d b'-') || has_double_dash (d ∷ cs)

-- The pattern admits ASCII only, so that the length is the number of code points.
unfoldable pub is_tenant_slug_format_valid : String → Bool
is_tenant_slug_format_valid slug =
    leb tenant_slug_min_length (length (codes slug))
    && leb (length (codes slug)) tenant_slug_max_length
    && matches_slug (codes slug)
    && not (has_double_dash (codes slug))

-- the parts of a text between the occurrences of a character
unfoldable pub split_at : ℕ → List ℕ → List (List ℕ)
split_at sep [] = [] ∷ []
split_at sep (c ∷ cs) =
    let rest = split_at sep cs in
    if eqb c sep
    then [] ∷ rest
    else (elim rest [ [] ↦ (c ∷ []) ∷ [] | part ∷ parts ↦ (c ∷ part) ∷ parts ])

-- `[^\s@.]+`, of a part that has no dot
abbrev pub is_label : List ℕ → Bool
is_label [] = false
is_label (c ∷ cs) = every (λ d. not (is_space d)) (c ∷ cs)

-- `[^\s@.]+(?:\.[^\s@.]+)+`, of a text without `@`
abbrev pub is_domain : List ℕ → Bool
is_domain cs = leb 2 (length (split_at b'.' cs)) && every is_label (split_at b'.' cs)

abbrev pub is_local_and_domain : List (List ℕ) → Bool
is_local_and_domain (local ∷ domain ∷ []) = is_label local && is_domain domain
is_local_and_domain _ = false

-- `/^[^\s@]+@[^\s@.]+(?:\.[^\s@.]+)+$/`
unfoldable pub matches_email : String → Bool
matches_email email = is_local_and_domain (split_at b'@' (codes email))

abbrev pub error_if : Bool → ValidationErrorCode → Option ValidationErrorCode
error_if true e = some e
error_if false e = none

unfoldable pub validate_tenant_onboarding_input : SafePayload → ValidationErrors
validate_tenant_onboarding_input input = record {
  tenant_name =
      error_if (trim_text input.tenant_name == "") ValidationErrorCode.tenant_name_required;
  tenant_slug =
      if trim_text input.tenant_slug == ""
      then some ValidationErrorCode.slug_required
      else error_if (not (is_tenant_slug_format_valid (trim_text input.tenant_slug)))
          ValidationErrorCode.slug_format;
  first_admin_email =
      if trim_text input.first_admin_email == ""
      then some ValidationErrorCode.email_required
      else error_if (not (matches_email (trim_text input.first_admin_email)))
          ValidationErrorCode.email_format;
  plan =
      error_if (not (includes ("starter" ∷ "growth" ∷ "enterprise" ∷ []) input.plan))
        ValidationErrorCode.plan_required;
}

-- `Object.keys(errors).length === 0`
abbrev pub has_no_errors : ValidationErrors → Bool
has_no_errors e =
    is_none e.tenant_name && is_none e.tenant_slug && is_none e.first_admin_email && is_none e.plan

abbrev pub accept_payload : SafePayload → Option SafePayload
accept_payload payload =
    if has_no_errors (validate_tenant_onboarding_input payload) then some payload else none

abbrev pub payload_of : Platform → PayloadJson → String → SafePayload
payload_of p json plan = record {
  tenant_name = trim_text (or_default json.tenant_name "");
  tenant_slug = trim_text (or_default json.tenant_slug "");
  first_admin_email = normalize_email p (or_default json.first_admin_email "");
  plan = plan;
}

unfoldable pub read_safe_payload : Platform → Option PayloadJson → Option SafePayload
read_safe_payload p none = none
read_safe_payload p (some json) = elim json.plan [
  | none ↦ none
  | some plan ↦ accept_payload (payload_of p json plan)
]
