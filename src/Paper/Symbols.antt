-- ===== src/Paper/Symbols.antt =====
-- `symbol.upper().strip()` and the times of requests. Texts are upper-cased in their ASCII letters and
-- stripped of ASCII white space; exchange symbols have no others.
use Prim.Native.Char.{Char, code}
use trading_ai_alpha_agent.Prelude.{
  String, ℕ, Bool, List, [], ◌∷◌, ◌||◌, ◌&&◌, Option, none, some, ◌==◌, leb, if◌then◌else◌,
}

abbrev letters : List (Char × Char)
letters =
    ("a", "A")
    ∷ ("b", "B")
    ∷ ("c", "C")
    ∷ ("d", "D")
    ∷ ("e", "E")
    ∷ ("f", "F")
    ∷ ("g", "G")
    ∷ ("h", "H")
    ∷ ("i", "I")
    ∷ ("j", "J")
    ∷ ("k", "K")
    ∷ ("l", "L")
    ∷ ("m", "M")
    ∷ ("n", "N")
    ∷ ("o", "O")
    ∷ ("p", "P")
    ∷ ("q", "Q")
    ∷ ("r", "R")
    ∷ ("s", "S")
    ∷ ("t", "T")
    ∷ ("u", "U")
    ∷ ("v", "V")
    ∷ ("w", "W")
    ∷ ("x", "X")
    ∷ ("y", "Y")
    ∷ ("z", "Z")
    ∷ []

upper_in : List (Char × Char) → Char → Char
upper_in [] c = c
upper_in ((low, high) ∷ table) c =
    let rest = upper_in table c in if code low == code c then high else rest

-- `str.upper`
unfoldable pub upper : String → String
unfolding upper_in
upper String.[] = ""
upper (String.◌∷◌ c s) = String.◌∷◌ (upper_in letters c) (upper s)

is_space : Char → Bool
is_space c =
    (code c == 32) || ((leb 9 (code c) && leb (code c) 13) || (leb 28 (code c) && leb (code c) 31))

left_strip : String → String
left_strip String.[] = ""
left_strip (String.◌∷◌ c s) = let rest = left_strip s in if is_space c then rest else String.◌∷◌ c s

right_strip : String → String
right_strip String.[] = ""
right_strip (String.◌∷◌ c s) = elim (right_strip s) [
  | String.[] ↦ if is_space c then "" else String.◌∷◌ c ""
  | String.◌∷◌ d r ↦ String.◌∷◌ c (String.◌∷◌ d r)
]

-- `str.strip`
unfoldable pub strip : String → String
unfolding left_strip right_strip is_space
strip s = right_strip (left_strip s)

unfoldable pub normalize_symbol : String → String
unfolding upper strip
normalize_symbol s = strip (upper s)

-- A `datetime`, by its count of microseconds: without a zone, or at an instant.
pub data Timestamp : Type 0 where
  naive : ℕ → Timestamp
  aware : ℕ → Timestamp

-- `normalize_timestamp`, to an instant: a time without a zone is taken as UTC
unfoldable pub normalize_timestamp : ℕ → Option Timestamp → ℕ
normalize_timestamp now none = now
normalize_timestamp now (some (naive t)) = t
normalize_timestamp now (some (aware t)) = t
