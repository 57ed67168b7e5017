-- ===== src/Toolset/Names.antt =====
-- toolset.rs: group paths and tool names, which are segments joined by dots.
pub mod Laws
pub mod Tests
use tmcp.Base.{
  ℕ, zero, suc, ◌+◌, Bool, true, false, ◌||◌, Option, none, some, List, [], ◌∷◌, ◌++◌, arith,
  nat_beq, if◌then◌else◌, any, is_empty, Eq, ◌==◌, nat_eq, Text, text, text_eq, Result, ok, err,
  ◌>>=◌, ◌>>◌,
}
use tmcp.Errors.{Error, invalid_configuration}

abbrev pub dot : ℕ
dot = b'.'

abbrev pub contains_dot : Text → Bool
contains_dot s = any (λ c. nat_beq c dot) s

-- `str::split('.')`: the pieces between the dots, one more than there are dots.
abbrev cons_head : ℕ → List Text → List Text
cons_head c [] = (c ∷ []) ∷ []
cons_head c (s ∷ rest) = (c ∷ s) ∷ rest

unfoldable pub split_dots : Text → List Text
split_dots [] = [] ∷ []
split_dots (c ∷ s) =
    let rest = split_dots s in if nat_beq c dot then [] ∷ rest else cons_head c rest

-- `str::rsplit_once('.')`: the text before and after the last dot.
unfoldable pub rsplit_once : Text → Option (Text × Text)
rsplit_once [] = none
rsplit_once (c ∷ s) = elim (rsplit_once s) [
  | some (before, after) ↦ some (c ∷ before, after)
  | none ↦ if nat_beq c dot then some ([], s) else none
]

unfoldable pub validate_group_segment : Text → Result Error (Unit {0})
validate_group_segment segment =
    if is_empty segment || contains_dot segment
    then err (invalid_configuration (text "invalid group segment: " ++ segment))
    else ok tt

unfoldable pub validate_segments : List Text → Result Error (Unit {0})
unfolding validate_group_segment
validate_segments [] = ok tt
validate_segments (s ∷ rest) = do validate_group_segment s; validate_segments rest

unfoldable pub validate_group_path : Text → Result Error (Unit {0})
unfolding validate_segments split_dots
validate_group_path group =
    if is_empty group
    then err (invalid_configuration (text "group name is empty"))
    else validate_segments (split_dots group)

-- The group path, if the name has a dot, and the base name.
unfoldable pub split_tool_name : Text → Result Error (Option Text × Text)
unfolding rsplit_once validate_group_path
split_tool_name name = elim (rsplit_once name) [
  | none ↦
      if is_empty name
      then err (invalid_configuration (text "tool name is empty"))
      else ok (none, name)
  | some (group, base) ↦
      if is_empty base
      then err (invalid_configuration (text "tool name is empty"))
      else (do validate_group_path group; ok (some group, base))
]

unfoldable pub qualified_name : Text → Text → Text
qualified_name group base = if is_empty group then base else group ++ dot ∷ base

unfoldable pub tool_group_name : Text → Option Text
unfolding rsplit_once
tool_group_name name = elim (rsplit_once name) [ none ↦ none | some (group, _) ↦ some group ]
