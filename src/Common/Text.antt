-- ===== src/Common/Text.antt =====
-- Text as JavaScript handles it: trimming, joining, and numbers in decimal.
use Prim.Native.Nat.{ℕ, zero, suc, ◌/◌, ◌%◌}
use Prim.Native.Char.{code}
use Prim.Native.String.{String}
use Prim.Native.String
use mathlib.Core.Bool.{Bool, ◌&&◌, ◌||◌}
use mathlib.Core.List.{List, [], ◌∷◌}
use gracon_user_auth_service.Common.Tests.{ltb, leb, ◌==◌, if◌then◌else◌, truthy}

infixr 60 ◌⁺⁺◌
abbrev pub ◌⁺⁺◌ : String → String → String
s ⁺⁺ t = String.◌++◌ s t

-- The characters that `trim` removes: white space and line ends.
unfoldable pub is_space : ℕ → Bool
is_space c =
    (leb 9 c && leb c 13)
    || (c == 32
        || (c == 160
            || (c == 5760
                || ((leb 8192 c && leb c 8202)
                    || (c == 8232
                        || (c == 8233
                            || (c == 8239 || (c == 8287 || (c == 12288 || c == 65279)))))))))

unfoldable pub trim_start : String → String
unfolding is_space
trim_start String.[] = String.[]
trim_start (String.◌∷◌ c s) =
    let rest = trim_start s in if is_space (code c) then rest else String.◌∷◌ c s

unfoldable pub trim_end : String → String
unfolding is_space
trim_end String.[] = String.[]
trim_end (String.◌∷◌ c s) =
    let rest = trim_end s in
    if truthy rest
    then String.◌∷◌ c rest
    else if is_space (code c)
    then String.[]
    else String.◌∷◌ c String.[]

unfoldable pub trim : String → String
unfolding trim_start trim_end
trim s = trim_end (trim_start s)

-- One decimal digit.
abbrev pub digit : ℕ → String
digit n =
    if n == 0
    then "0"
    else if n == 1
    then "1"
    else if n == 2
    then "2"
    else if n == 3
    then "3"
    else if n == 4
    then "4"
    else if n == 5
    then "5"
    else if n == 6
    then "6"
    else if n == 7
    then "7"
    else if n == 8
    then "8"
    else "9"

decimal_from : ℕ → ℕ → String
decimal_from zero n = digit n
decimal_from (suc fuel) n =
    let rest = decimal_from fuel (n / 10) in if ltb n 10 then digit n else rest ⁺⁺ digit (n % 10)

-- `toString()` of a number; a number has fewer digits than it counts.
unfoldable pub decimal : ℕ → String
unfolding decimal_from
decimal n = decimal_from n n

-- The parts of a text between separators.
unfoldable pub split : ℕ → String → List String
split separator String.[] = String.[] ∷ []
split separator (String.◌∷◌ c s) =
    let rest = split separator s in
    if code c == separator
    then String.[] ∷ rest
    else elim rest [ [] ↦ String.◌∷◌ c String.[] ∷ [] | part ∷ parts ↦ String.◌∷◌ c part ∷ parts ]

-- The first part, which always is there.
abbrev pub first_part : List String → String
first_part [] = String.[]
first_part (part ∷ _) = part
