-- ===== src/Toolset/Listing.antt =====
-- toolset.rs: `list_tools`, its order and its cursors.
pub mod Order
pub mod Pages
pub mod Tests
use tmcp.Base.{
  ℕ, zero, suc, ◌+◌, ◌-◌, ◌*◌, ◌^◌, Bool, true, false, ◌&&◌, Option, none, some, List, [], ◌∷◌,
  arith, ltb, leb, nat_beq, if◌then◌else◌, length, drop, is_empty, Eq, ◌==◌, nat_eq, Text, text,
  text_eq, Result, ok, err, ◌>>=◌, ◌>>◌, ok_or,
}
use tmcp.Errors.{Error, invalid_params}
use tmcp.Toolset.Registry.{Snapshot, snapshot}
use tmcp.Toolset.State.{Tool, Visibility, is_visible, ToolEntry, ToolSet}

-- `str::cmp` on bytes: at most.
unfoldable pub text_leb : Text → Text → Bool
text_leb [] t = true
text_leb (a ∷ s) [] = false
text_leb (a ∷ s) (b ∷ t) = if ltb a b then true else nat_beq a b && text_leb s t

-- A stable sort by name.
unfoldable pub insert_tool : Tool → List Tool → List Tool
insert_tool x [] = x ∷ []
insert_tool x (y ∷ ys) =
    let later = insert_tool x ys in if text_leb x.name y.name then x ∷ y ∷ ys else y ∷ later

unfoldable pub sort_tools : List Tool → List Tool
unfolding insert_tool
sort_tools [] = []
sort_tools (x ∷ xs) = insert_tool x (sort_tools xs)

unfoldable pub visible_tools : Snapshot → List (Text × ToolEntry) → List Tool
visible_tools view [] = []
visible_tools view ((name, entry) ∷ rest) =
    let later = visible_tools view rest in
    if is_visible entry.visibility view then entry.tool ∷ later else later

-- `str::parse::<usize>` on a 64-bit machine: an optional plus sign, then one or more digits, and
-- no overflow.
abbrev is_digit : ℕ → Bool
is_digit c = leb b'0' c && leb c b'9'

abbrev pub usize_end : ℕ
usize_end = 2 ^ 64

unfoldable pub parse_digits : ℕ → Text → Option ℕ
parse_digits n [] = some n
parse_digits n (c ∷ s) =
    let n' = n * 10 + (c - b'0') in
    let rest = parse_digits n' s in
    if is_digit c then (if ltb n' usize_end then rest else none) else none

unfoldable pub parse_usize : Text → Option ℕ
unfolding parse_digits
parse_usize [] = none
parse_usize (c ∷ s) =
    if nat_beq c b'+'
    then (if is_empty s then none else parse_digits 0 s)
    else parse_digits 0 (c ∷ s)

unfoldable pub parse_cursor_offset : Text → Result Error ℕ
unfolding parse_usize
parse_cursor_offset value = ok_or (parse_usize value) (invalid_params (text "invalid cursor"))

abbrev offset_of : Option Text → Result Error ℕ
offset_of none = ok 0
offset_of (some cursor) = parse_cursor_offset cursor

abbrev pub sorted_tools : ToolSet → List Tool
sorted_tools t = sort_tools (visible_tools (snapshot t.registry.groups) t.tools)

unfoldable pub list_tools : ToolSet → Option Text → Result Error (List Tool)
list_tools t cursor = do
  offset ← offset_of cursor
  if ltb (length (sorted_tools t)) offset
      then err (invalid_params (text "cursor out of range"))
      else ok (drop offset (sorted_tools t))
