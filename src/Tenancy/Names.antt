-- ===== src/Tenancy/Names.antt =====
-- What a name that was accepted is.
use flexi.Prelude.{
  ℕ, ◌≤◌, String, ◌==◌, codes, ◌≡◌, refl, ap, sym, ◌∙◌, ◌↔◌, true, false, List, [], ◌∷◌, arith,
  every, length, eq_iff, Bool-cases, inl, inr,
}
use text.Mathlib.TextLemmas.{append_cancel_left}
use flexi.Exec.{ok}
use flexi.Tenancy.{
  is_head, is_tail, matches_pattern, check_name, sanitize_identifier, schema_of,
  resolve_tenant_schema,
}

-- An identifier: a letter or an underscore, then letters, digits, underscores and dollar signs, and
-- short enough that the database does not cut it.
pub record IsIdentifier (name : String) : Type 0 where
  pub first : ℕ
  pub rest : List ℕ
  pub spelled : codes name ≡ first ∷ rest
  pub head : is_head first ≡ true
  pub tail : every is_tail rest ≡ true
  pub short : length (codes name) ≤ 63

spelled_identifier :
    (cs : List ℕ)
    → matches_pattern cs ≡ true
    → (c : ℕ) × (rest : List ℕ) × (cs ≡ c ∷ rest) × (is_head c ≡ true) × (every is_tail rest ≡ true)
unfolding matches_pattern
spelled_identifier [] h = absurd (ground arith)
spelled_identifier (c ∷ cs) h = (c, cs, refl, ground arith, ground arith)

check_name-matches :
    (name accepted : String)
    → check_name name ≡ ok accepted
    → (accepted ≡ name) × (matches_pattern (codes name) ≡ true) × (length (codes name) ≤ 63)
unfolding check_name
check_name-matches name accepted h = ground arith

check_name-ok :
    (name accepted : String) → check_name name ≡ ok accepted → (accepted ≡ name) × IsIdentifier name
check_name-ok name accepted h =
    let (same, matches, short) = check_name-matches name accepted h in
    let (c, rest, spelled, head, tail) = spelled_identifier (codes name) matches in
    (
      same,
      record { first = c; rest = rest; spelled = spelled; head = head; tail = tail; short = short },
    )

identifier-matches : (name : String) → IsIdentifier name → matches_pattern (codes name) ≡ true
unfolding matches_pattern
identifier-matches name i = rw i.spelled (rw (i.head, i.tail) refl)

not_empty : (name : String) (c : ℕ) (rest : List ℕ) → codes name ≡ c ∷ rest → (name == "") ≡ false
not_empty name c rest h = elim (Bool-cases (name == "")) [
  | inl empty ↦ absurd (ground (arith, ap codes ((eq_iff name "").0 empty)))
  | inr nonempty ↦ nonempty
]

-- A name of a table or a column is accepted, unchanged, exactly where it is an identifier.
pub sanitize_identifier_iff :
    (name : String) → (sanitize_identifier name ≡ ok name) ↔ IsIdentifier name
unfolding sanitize_identifier check_name
sanitize_identifier_iff name = (
  λ h. (check_name-ok name name (ground arith)).1,
  λ i. ground (arith, identifier-matches name i, i.short, not_empty name i.first i.rest i.spelled),
)

resolve_tenant_schema-checked :
    (t schema : String) → resolve_tenant_schema t ≡ ok schema → check_name (schema_of t) ≡ ok schema
unfolding resolve_tenant_schema
resolve_tenant_schema-checked t schema h = ground arith

-- Schemas of tenants are told apart: two tenants that resolve to one schema are one tenant; and each
-- schema is an identifier that the database takes whole.
pub resolve_tenant_schema-injective :
    (t t' schema : String)
    → resolve_tenant_schema t ≡ ok schema
    → resolve_tenant_schema t' ≡ ok schema
    → (t ≡ t') × IsIdentifier schema
resolve_tenant_schema-injective t t' schema h h' =
    let (same, identifier) =
      check_name-ok (schema_of t) schema (resolve_tenant_schema-checked t schema h) in
    let (same', _) =
      check_name-ok (schema_of t') schema (resolve_tenant_schema-checked t' schema h') in
    (append_cancel_left "tenant_" t t' (sym same ∙ same'), rw same identifier)
