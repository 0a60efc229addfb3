-- ===== src/Prelude/Text.antt =====
-- Pieces of formatted text: `str(n)` of a count, and `"\n".join(lines)`.
use Prim.Native.String.{◌++◌ as append_text}
use jarvis_server.Prelude.Tests.{ltb, ◌==◌, if◌then◌else◌}
use Prim.Native.Nat.{ℕ, zero, suc, ◌+◌, ◌/◌, ◌%◌}
use Prim.Native.String.{String}
use mathlib.Core.List.{List, [], ◌∷◌}

abbrev digit : ℕ → String
digit n =
    if n == 0
    then "0"
    else if n == 1
    then "1"
    else if n == 2
    then "2"
    else if n == 3
    then "3"
    else if n == 4
    then "4"
    else if n == 5
    then "5"
    else if n == 6
    then "6"
    else if n == 7
    then "7"
    else if n == 8
    then "8"
    else "9"

-- One digit for each unit of fuel; a number has fewer digits than its successor.
unfoldable pub decimal_from : ℕ → ℕ → String
decimal_from zero n = ""
decimal_from (suc fuel) n =
    let rest = append_text (decimal_from fuel (n / 10)) (digit (n % 10)) in
    if ltb n 10 then digit n else rest

unfoldable pub decimal : ℕ → String
unfolding decimal_from
decimal n = decimal_from (n + 1) n

unfoldable pub concat : List String → String
concat [] = ""
concat (s ∷ ss) = append_text s (concat ss)

-- `sep.join(lines)`
unfoldable pub join : String → List String → String
join sep [] = ""
join sep (s ∷ []) = s
join sep (s ∷ t ∷ ss) = append_text s (append_text sep (join sep (t ∷ ss)))
