-- ===== src/Auth/Duration.antt =====
-- `durationToSeconds` of modules/auth/auth.service.ts, on the characters of the text.
use flexi.Prelude.{
  ℕ, ◌+◌, ◌-◌, ◌*◌, String, codes, Bool, ◌&&◌, ◌||◌, Option, none, some, List, [], ◌∷◌, leb, eqb,
  any, if◌then◌else◌,
}
use flexi.Auth.Password.{is_digit}

-- What `\s` matches and `trim` removes.
unfoldable pub is_space : ℕ → Bool
is_space c =
    leb 9 c && leb c 13
    || leb 0x2000 c && leb c 0x200a
    || any (λ s. eqb s c)
        (32 ∷ 160 ∷ 0x1680 ∷ 0x2028 ∷ 0x2029 ∷ 0x202f ∷ 0x205f ∷ 0x3000 ∷ 0xfeff ∷ [])

pub trim_start : List ℕ → List ℕ
trim_start [] = []
trim_start (c ∷ cs) = let rest = trim_start cs in if is_space c then rest else c ∷ cs

-- Drops the spaces at the end.
pub trim_end : List ℕ → List ℕ
trim_end [] = []
trim_end (c ∷ cs) = elim (trim_end cs) [
  | [] ↦ if is_space c then [] else c ∷ []
  | d ∷ ds ↦ c ∷ d ∷ ds
]

-- Seconds of a unit, with the flag `i`: `none` where the unit does not match.
unit_seconds : List ℕ → Option ℕ
unit_seconds [] = some 1
unit_seconds (c ∷ []) =
    if eqb c b's' || eqb c b'S'
    then some 1
    else if eqb c b'm' || eqb c b'M'
    then some 60
    else if eqb c b'h' || eqb c b'H'
    then some (60 * 60)
    else if eqb c b'd' || eqb c b'D'
    then some (60 * 60 * 24)
    else none
unit_seconds _ = none

-- `amount * unitSeconds[unit]` of what follows the digits
scale : ℕ → List ℕ → Option ℕ
scale amount rest = elim (unit_seconds (trim_start rest)) [
  | none ↦ none
  | some secs ↦ some (amount * secs)
]

-- The digits that follow the first one.
read_amount : ℕ → List ℕ → Option ℕ
read_amount amount [] = scale amount []
read_amount amount (c ∷ cs) =
    let more = read_amount (amount * 10 + (c - 48)) cs in
    if is_digit c then more else scale amount (c ∷ cs)

-- `(\d+)` wants one digit at least
parse_duration : List ℕ → Option ℕ
parse_duration [] = none
parse_duration (c ∷ cs) = if is_digit c then read_amount (c - 48) cs else none

-- `none` where the source throws
unfoldable pub duration_to_seconds : String → Option ℕ
unfolding is_space trim_start trim_end unit_seconds scale read_amount parse_duration
duration_to_seconds value = parse_duration (trim_end (trim_start (codes value)))
