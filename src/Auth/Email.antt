-- ===== src/Auth/Email.antt =====
-- `email.trim().toLowerCase()`, as password recovery, invites and registration normalise an address.
use Prim.Native.Char.{Char, code}
use flexi.Prelude.{String, if◌then◌else◌}
use flexi.Auth.Duration.{is_space}
use flexi.Store.Platform.{Platform}

unfoldable pub trim_text_start : String → String
trim_text_start String.[] = ""
trim_text_start (String.◌∷◌ c s) =
    let rest = trim_text_start s in if is_space (code c) then rest else String.◌∷◌ c s

-- a character before a text whose end is trimmed
unfoldable pub push_kept : Char → String → String
push_kept c String.[] = if is_space (code c) then "" else String.◌∷◌ c ""
push_kept c (String.◌∷◌ d r) = String.◌∷◌ c (String.◌∷◌ d r)

unfoldable pub trim_text_end : String → String
trim_text_end String.[] = ""
trim_text_end (String.◌∷◌ c s) = push_kept c (trim_text_end s)

unfoldable pub trim_text : String → String
trim_text s = trim_text_end (trim_text_start s)

unfoldable pub normalize_email : Platform → String → String
normalize_email p email = p.to_lower_case (trim_text email)
