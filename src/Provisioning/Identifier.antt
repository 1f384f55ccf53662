-- ===== src/Provisioning/Identifier.antt =====
-- createTenantId of modules/tenants/provisioning.service.ts: the parts of the id's text.
use flexi.Prelude.{
  ℕ, zero, suc, ◌/◌, ◌%◌, ◌<◌, String, ◌≡◌, arith, ltb, eqb, if◌then◌else◌, Bool-cases, inl, inr,
}
use Prim.Native.String.{◌++◌ as append}
use Prim.Native.Char.{code}

-- the digits of a number to the base 36
abbrev pub text_at : ℕ → String → String
text_at n String.[] = ""
text_at zero (String.◌∷◌ d s) = String.◌∷◌ d ""
text_at (suc n) (String.◌∷◌ d s) = text_at n s

unfoldable pub base36_digits : ℕ → ℕ → String
base36_digits zero n = ""
base36_digits (suc fuel) n =
    let rest = base36_digits fuel (n / 36) in
    let digit = text_at (n % 36) "0123456789abcdefghijklmnopqrstuvwxyz" in
    if ltb n 36 then digit else append rest digit

-- `n.toString(36)`
unfoldable pub base36_text : ℕ → String
base36_text n = base36_digits (suc n) n

-- `replace(/-/g, '')`
abbrev pub without_dashes : String → String
without_dashes String.[] = ""
without_dashes (String.◌∷◌ d s) =
    let rest = without_dashes s in if eqb (code d) b'-' then rest else String.◌∷◌ d rest

-- `slice(0, n)`
abbrev pub take_text : ℕ → String → String
take_text zero s = ""
take_text (suc n) String.[] = ""
take_text (suc n) (String.◌∷◌ d s) = String.◌∷◌ d (take_text n s)

digits-fuel : (f g n : ℕ) → n < f → n < g → base36_digits f n ≡ base36_digits g n
unfolding base36_digits
digits-fuel zero g n h k = absurd (omega (arith, h))
digits-fuel (suc f) zero n h k = absurd (omega (arith, k))
digits-fuel (suc f) (suc g) n h k = elim (Bool-cases (ltb n 36)) [
  | inl short ↦ ground (arith, short)
  | inr long ↦
      let below : n / 36 < f = ground (arith, long, h) in
      let below' : n / 36 < g = ground (arith, long, k) in
      ground (arith, long, digits-fuel f g (n / 36) below below')
]

-- The fuel of the digits is enough: with any fuel above the number, the text is the one that is used.
pub base36_text-fuel : (f n : ℕ) → n < f → base36_digits f n ≡ base36_text n
unfolding base36_text
base36_text-fuel f n h = digits-fuel f (suc n) n h (omega arith)
