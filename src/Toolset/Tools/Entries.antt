-- ===== src/Toolset/Tools/Entries.antt =====
-- What a registration keeps, and which tools can be called.
use tmcp.Base.{
  ◌≡◌, refl, sym, ap, ◌∙◌, Bool, true, false, not, Option, none, some, arith, if◌then◌else◌, ◌==◌,
  nat_eq, Text, text_beq_iff, text_eq, ok, err, >>=-eq-ok,
}
use tmcp.Base.Map.{get, contains_key, insert, get-insert}
use tmcp.Errors.{Error, tool_not_found}
use tmcp.Toolset.Names.{split_tool_name, qualified_name}
use tmcp.Toolset.Names.Laws.{split_tool_name-Splits, IsSegment}
use tmcp.Toolset.Registry.{GroupRegistry, ensure_group_exists, is_active}
use tmcp.Toolset.State.{
  Tool, ToolHandler, Visibility, group, is_visible, ToolOrigin, auto_group, explicit, ToolEntry,
  ToolSet,
}
use tmcp.Toolset.Tools.{
  is_group_path, may_replace, validate_tool_registration, is_taken, guard, register_entry,
  visible_handler, call_tool,
}

abbrev pub entry_of : Text → Tool → Visibility → Option ToolHandler → ToolOrigin → ToolEntry
entry_of name tool visibility handler origin = record {
  tool = record tool { name = name };
  visibility = visibility;
  handler = handler;
  origin = origin;
}

abbrev pub stored : ToolSet → Text → Tool → Visibility → Option ToolHandler → ToolOrigin → ToolSet
stored t name tool visibility handler origin = record t {
  tools = insert name (entry_of name tool visibility handler origin) t.tools;
}

-- What a registration that succeeds has done to the tool set `t`.
pub record Registered (t t' : ToolSet) (name : Text) (tool : Tool) (visibility : Visibility)
    (handler : Option ToolHandler) (origin : ToolOrigin) : Type 0 where
  pub valid : validate_tool_registration t.registry name visibility ≡ ok tt
  pub replaces :
      (old : ToolEntry)
      → get name t.tools ≡ some old
      → (old.origin ≡ auto_group) × (origin ≡ explicit)
  pub registry : t'.registry ≡ t.registry
  pub entries :
      (k : Text)
      → get k t'.tools
        ≡ (if name == k then some (entry_of name tool visibility handler origin) else get k t.tools)

origins :
    (x origin old : ToolOrigin)
    → may_replace x origin ≡ true
    → old ≡ x
    → (old ≡ auto_group) × (origin ≡ explicit)
origins auto_group explicit old h e = (e, refl)
origins auto_group auto_group old h e = absurd (cc)
origins explicit explicit old h e = absurd (cc)
origins explicit auto_group old h e = absurd (cc)

not_taken :
    (o : Option ToolEntry) (origin : ToolOrigin) (old : ToolEntry)
    → is_taken o origin ≡ false
    → o ≡ some old
    → (old.origin ≡ auto_group) × (origin ≡ explicit)
not_taken none origin old h e = absurd (cc)
not_taken (some x) origin old h e = origins x.origin origin old.origin (ground arith) (ground arith)

-- A registration that succeeds stores the tool under its name and leaves every other tool and the
-- groups alone; it replaces only a generated tool by an explicit one.
register_entry-Registered :
    (t t' : ToolSet) (name : Text) (tool : Tool) (visibility : Visibility)
    (handler : Option ToolHandler) (origin : ToolOrigin)
    → register_entry t name tool visibility handler origin ≡ ok t'
    → Registered t t' name tool visibility handler origin
unfolding register_entry
register_entry-Registered t t' name tool visibility handler origin e =
    let (u, valid, e') = >>=-eq-ok (validate_tool_registration t.registry name visibility) _ e in
    let (v, free, e'') = >>=-eq-ok (guard (not (is_taken (get name t.tools) origin)) _) _ e' in
    let left : stored t name tool visibility handler origin ≡ t' = cc in
    record {
      valid = valid;
      replaces = λ old found.
          not_taken (get name t.tools) origin old
            (guard_passed (is_taken (get name t.tools) origin) _ v free) found;
      registry = sym (ap (λ x. x.registry) left);
      entries = λ k.
          ap (λ x. get k x.tools) (sym left)
          ∙ get-insert name k (entry_of name tool visibility handler origin) t.tools;
    }
  where
    guard_passed : (b : Bool) (e : Error) (u : Unit {0}) → guard (not b) e ≡ ok u → b ≡ false
    guard_passed b e u h = ground arith

is_group_path-some : (path : Option Text) (g : Text) → is_group_path path g ≡ true → path ≡ some g
is_group_path-some none g h = absurd (cc)
is_group_path-some (some p) g h = ap some ((text_beq_iff p g).0 h)

group_placed :
    (r : GroupRegistry) (name g : Text)
    → validate_tool_registration r name (group g) ≡ ok tt
    → ((base : Text) × IsSegment base × (name ≡ qualified_name g base))
      × (contains_key g r.groups ≡ true)
unfolding validate_tool_registration ensure_group_exists
group_placed r name g e =
    let (parts, split, checked) = >>=-eq-ok (split_tool_name name) _ e in
    let path = is_group_path-some parts.0 g (ground arith) in
    let s = split_tool_name-Splits name parts.0 parts.1 split in
    ((parts.1, s.base_segment, (s.grouped g path).1), ground arith)

-- A tool that is registered for a group stands under the group's path, and the group is registered;
-- it can be called exactly while the group is active, with the handler that it was given.
pub call_tool-register_entry :
    (t t' : ToolSet) (name g : Text) (tool : Tool) (h : ToolHandler)
    → register_entry t name tool (group g) (some h) explicit ≡ ok t'
    → ((base : Text) × IsSegment base × (name ≡ qualified_name g base))
      × (contains_key g t'.registry.groups ≡ true)
      × (call_tool t' name ≡ (if is_active t'.registry g then ok h else err (tool_not_found name)))
unfolding call_tool visible_handler is_visible is_active
call_tool-register_entry t t' name g tool h e =
    let r = register_entry-Registered t t' name tool (group g) (some h) explicit e in
    let (placed, known) = group_placed t.registry name g r.valid in
    let found : get name t'.tools ≡ some (entry_of name tool (group g) (some h) explicit) =
      ground (arith, r.entries name, text_beq_iff name name) in
    (placed, rw (r.registry) known, rw (found, call_tool, visible_handler) (ground arith))
