-- ===== src/Leads/Strings.antt =====
-- The string methods that lead-parser.ts calls, on UTF-16 code units. `to_lower_case` changes the
-- ASCII letters alone: it is applied to domains that the address test has accepted, and compared
-- with ASCII words.
use abhishek_bhat2005_reachi.Base.{
  ℕ, ◌+◌, Bool, ◌&&◌, ◌||◌, List, [], ◌∷◌, map, Option, none, some, Text, ◌==◌, leb, if◌then◌else◌,
}

-- White space and line ends, as `trim` knows them.
abbrev pub is_space : ℕ → Bool
is_space c =
    (leb 9 c && leb c 13)
    || c == 32
    || c == 160
    || c == 5760
    || (leb 8192 c && leb c 8202)
    || c == 8232
    || c == 8233
    || c == 8239
    || c == 8287
    || c == 12288
    || c == 65279

unfoldable pub trim_start : Text → Text
trim_start [] = []
trim_start (c ∷ s) = let rest = trim_start s in if is_space c then rest else c ∷ s

unfoldable pub trim_end : Text → Text
trim_end [] = []
trim_end (c ∷ s) = elim (trim_end s) [ [] ↦ if is_space c then [] else c ∷ [] | d ∷ r ↦ c ∷ d ∷ r ]

unfoldable pub trim : Text → Text
unfolding trim_start trim_end
trim s = trim_end (trim_start s)

abbrev pub lower : ℕ → ℕ
lower c = if leb 65 c && leb c 90 then c + 32 else c

abbrev pub to_lower_case : Text → Text
to_lower_case = map lower

-- `s.split(",")`: at least one part.
unfoldable pub split_on : ℕ → Text → List Text
split_on sep [] = [] ∷ []
split_on sep (c ∷ s) = elim (split_on sep s) [
  | [] ↦ (c ∷ []) ∷ []
  | part ∷ parts ↦ if c == sep then [] ∷ part ∷ parts else (c ∷ part) ∷ parts
]

-- A carriage return at the end of a line that a line feed ends belongs to the separator.
unfoldable pub drop_return : Text → Text
drop_return [] = []
drop_return (c ∷ []) = if c == 13 then [] else c ∷ []
drop_return (c ∷ d ∷ s) = c ∷ drop_return (d ∷ s)

unfoldable pub drop_returns : List Text → List Text
unfolding drop_return
drop_returns [] = []
drop_returns (line ∷ []) = line ∷ []
drop_returns (line ∷ next ∷ lines) = drop_return line ∷ drop_returns (next ∷ lines)

-- `s.split(/\r?\n/u)`.
unfoldable pub split_lines : Text → List Text
unfolding split_on drop_returns
split_lines s = drop_returns (split_on 10 s)

-- The text before the last `@` and the text after it; with none, what `lastIndexOf` returning -1
-- makes of `slice(0, -1)` and `slice(0)`.
unfoldable pub at_last : ℕ → Text → Option (Text × Text)
at_last sep [] = none
at_last sep (c ∷ s) = elim (at_last sep s) [
  | some (before, after) ↦ some (c ∷ before, after)
  | none ↦ if c == sep then some ([], s) else none
]

unfoldable pub without_last : Text → Text
without_last [] = []
without_last (c ∷ []) = []
without_last (c ∷ d ∷ s) = c ∷ without_last (d ∷ s)

unfoldable pub split_address : Text → Text × Text
unfolding at_last without_last
split_address s = elim (at_last 64 s) [ none ↦ (without_last s, s) | some parts ↦ parts ]
