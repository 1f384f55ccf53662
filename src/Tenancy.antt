-- ===== src/Tenancy.antt =====
-- tenancy/: the names of schemas, tables and columns that may reach a statement.
pub mod Names
use flexi.Prelude.{
  ℕ, ◌+◌, String, ◌==◌, codes, Bool, true, false, not, ◌&&◌, ◌||◌, List, [], ◌∷◌, if◌then◌else◌,
  ltb, leb, eqb, every, length,
}
use Prim.Native.String.{◌++◌ as append}
use flexi.Exec.{Result, ok, err, plain_error}

abbrev pub max_identifier_length : ℕ
max_identifier_length = 63

-- `[A-Za-z_]`
unfoldable pub is_head : ℕ → Bool
is_head c = (leb 65 c && leb c 90) || (leb 97 c && leb c 122) || eqb c 95

-- `[\w$]`
unfoldable pub is_tail : ℕ → Bool
is_tail c = is_head c || (leb 48 c && leb c 57) || eqb c 36

-- `/^[A-Za-z_][\w$]*$/`, which both files declare
unfoldable pub matches_pattern : List ℕ → Bool
matches_pattern [] = false
matches_pattern (c ∷ cs) = is_head c && every is_tail cs

-- The pattern admits ASCII only, so that a name's length is its number of code points.
unfoldable pub check_name : String → Result String
check_name name =
    if not (matches_pattern (codes name))
    then err plain_error
    else if ltb max_identifier_length (length (codes name))
    then err plain_error
    else ok name

unfoldable pub sanitize_identifier : String → Result String
sanitize_identifier name = if name == "" then err plain_error else check_name name

abbrev pub schema_of : String → String
schema_of tenant_id = append "tenant_" tenant_id

unfoldable pub resolve_tenant_schema : String → Result String
resolve_tenant_schema tenant_id =
    if tenant_id == "" then err plain_error else check_name (schema_of tenant_id)
