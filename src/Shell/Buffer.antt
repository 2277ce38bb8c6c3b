-- ===== src/Shell/Buffer.antt =====
-- shell/utils.c: a pointer into the array that holds the line is the list of the bytes from it to
-- the end of the array; a string is the bytes before the NUL. Reading past the array is `none`.
use sistemas_operativos_fiub.Common.{
  ℕ, suc, ◌||◌, Option, none, some, List, [], ◌∷◌, ◌==◌, if◌then◌else◌, Texto,
}

abbrev pub end_string : ℕ
end_string = 0

abbrev pub space : ℕ
space = 32

abbrev pub prepend : ℕ → Option (Texto × List ℕ) → Option (Texto × List ℕ)
prepend b none = none
prepend b (some (left, right)) = some (b ∷ left, right)

-- The bytes before the splitter or the NUL, and those after it.
unfoldable pub split_at : ℕ → List ℕ → Option (Texto × List ℕ)
split_at splitter [] = none
split_at splitter (b ∷ bs) =
    let rest = prepend b (split_at splitter bs) in
    if b == splitter || b == end_string then some ([], bs) else rest

unfoldable pub skip_spaces : List ℕ → Option (List ℕ)
skip_spaces [] = none
skip_spaces (b ∷ bs) = let rest = skip_spaces bs in if b == space then rest else some (b ∷ bs)

abbrev pub skip_right : Option (Texto × List ℕ) → Option (Texto × List ℕ)
skip_right none = none
skip_right (some (left, right)) = elim (skip_spaces right) [
  | none ↦ none
  | some right' ↦ some (left, right')
]

-- The string that is left in the buffer, and the pointer that split_line returns.
unfoldable pub split_line : ℕ → List ℕ → Option (Texto × List ℕ)
split_line splitter buf = skip_right (split_at splitter buf)

-- The string at a pointer.
unfoldable pub string_at : List ℕ → Option Texto
string_at [] = none
string_at (b ∷ bs) =
    let rest = string_at bs in
    if b == end_string then some [] else elim rest [ none ↦ none | some t ↦ some (b ∷ t) ]

-- The index of the first c in a string; `none` is -1.
unfoldable pub block_contains : Texto → ℕ → Option ℕ
block_contains [] c = none
block_contains (b ∷ bs) c =
    let rest = block_contains bs c in
    if b == c then some 0 else elim rest [ none ↦ none | some i ↦ some (suc i) ]

-- get_token of shell/parsing.c at the start of a string, and where parse_exec goes on.
unfoldable pub get_token : Texto → Texto
get_token [] = []
get_token (b ∷ bs) = let rest = b ∷ get_token bs in if b == space then [] else rest

unfoldable pub after_token : Texto → Texto
after_token [] = []
after_token (b ∷ bs) = let rest = after_token bs in if b == space then bs else rest
