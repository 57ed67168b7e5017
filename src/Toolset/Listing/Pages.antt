-- ===== src/Toolset/Listing/Pages.antt =====
-- Pages of the listing, and its agreement with the tools that can be called.
use tmcp.Toolset.Tools.{
  guard, is_taken, register_entry, visible_handler, validate_tool_registration,
}
use tmcp.Toolset.Tools.Entries.{stored, entry_of}
use tmcp.Base.{
  ◌≡◌, refl, sym, ap, ◌∙◌, subst, ◌↔◌, inl, inr, Bool, true, not, Option, none, some, List, [], ◌∷◌,
  arith, Bool-cases, Option-cases, any, All, ◌==◌, nat_eq, Text, text_beq_iff, text_eq, ok,
  >>=-eq-ok,
}
use mathlib.Core.List.{Memᴰ}
use tmcp.Base.Map.{get, HasDistinctKeys, insert-HasDistinctKeys, All-insert}
use tmcp.Toolset.Registry.{Snapshot, snapshot}
use tmcp.Toolset.State.{Tool, ToolHandler, Visibility, is_visible, ToolOrigin, ToolEntry, ToolSet}
use tmcp.Toolset.Listing.{insert_tool, sort_tools, visible_tools, sorted_tools, list_tools}

-- Each entry is stored under its tool's own name, once.
pub record IsIndexed (tools : List (Text × ToolEntry)) : Type 0 where
  pub distinct : HasDistinctKeys tools
  pub named : All (λ entry. entry.1.tool.name ≡ entry.0) tools

-- Registering a tool keeps the index.
pub register_entry-IsIndexed :
    (t t' : ToolSet) (name : Text) (tool : Tool) (visibility : Visibility)
    (handler : Option ToolHandler) (origin : ToolOrigin)
    → IsIndexed t.tools
    → register_entry t name tool visibility handler origin ≡ ok t'
    → IsIndexed t'.tools
unfolding register_entry
register_entry-IsIndexed t t' name tool visibility handler origin i e =
    let (u, valid, e') = >>=-eq-ok (validate_tool_registration t.registry name visibility) _ e in
    let (v, free, e'') = >>=-eq-ok (guard (not (is_taken (get name t.tools) origin)) _) _ e' in
    let left : stored t name tool visibility handler origin ≡ t' = cc in
    let entry = entry_of name tool visibility handler origin in
    subst (λ x. IsIndexed x.tools) left
      (record {
        distinct = insert-HasDistinctKeys name entry t.tools i.distinct;
        named = All-insert (λ x. x.1.tool.name ≡ x.0) name entry t.tools i.named refl;
      })

-- The entry under a name, and that it is visible.
abbrev pub HasVisible : Snapshot → List (Text × ToolEntry) → Text → Type 0
HasVisible view tools name =
    (entry : ToolEntry) × (get name tools ≡ some entry) × (is_visible entry.visibility view ≡ true)

HasVisible-tail :
    (view : Snapshot) (k : Text) (x : ToolEntry) (rest : List (Text × ToolEntry)) (name : Text)
    → get k rest ≡ none
    → HasVisible view rest name
    → HasVisible view ((k, x) ∷ rest) name
unfolding get
HasVisible-tail view k x rest name free (entry, found, shown) = elim (Bool-cases (k == name)) [
  | inr ne ↦ (entry, rw ne found, shown)
  | inl same ↦
      let here = subst (λ y. get y rest ≡ none) ((text_beq_iff k name).0 same) free in
      absurd (let h = sym here ∙ found in cc)
]

visible_tools-HasVisible :
    (view : Snapshot) (tools : List (Text × ToolEntry)) (tool : Tool)
    → IsIndexed tools
    → Memᴰ tool (visible_tools view tools)
    → HasVisible view tools tool.name
unfolding visible_tools get
visible_tools-HasVisible view [] tool i m = elim m [ ]
visible_tools-HasVisible view ((k, x) ∷ rest) tool i m =
    let later : IsIndexed rest = record { distinct = i.distinct.1; named = i.named.1 } in
    let behind = HasVisible-tail view k x rest tool.name i.distinct.0 in
    elim (Bool-cases (is_visible x.visibility view)) [
      | inr hidden ↦ behind (visible_tools-HasVisible view rest tool later (rw hidden at m))
      | inl shown ↦
          let m' : Memᴰ tool (x.tool ∷ visible_tools view rest) = rw shown at m in
          elim m' [
            | Memᴰ.head same ↦
                let named : k ≡ tool.name = sym i.named.0 ∙ sym (ap (λ y. y.name) same) in
                (x, rw ((text_beq_iff k tool.name).1 named) refl, shown)
            | Memᴰ.tail m'' ↦ behind (visible_tools-HasVisible view rest tool later m'')
          ]
    ]

visible_tools-mem :
    (view : Snapshot) (tools : List (Text × ToolEntry)) (name : Text) (entry : ToolEntry)
    → All (λ x. x.1.tool.name ≡ x.0) tools
    → get name tools ≡ some entry
    → is_visible entry.visibility view ≡ true
    → (tool : Tool) × (tool.name ≡ name) × Memᴰ tool (visible_tools view tools)
unfolding visible_tools get
visible_tools-mem view [] name entry h e v = absurd (cc)
visible_tools-mem view ((k, x) ∷ rest) name entry h e v = elim (Bool-cases (k == name)) [
  | inl same ↦
      let here : x ≡ entry = ground arith in
      let shown : is_visible x.visibility view ≡ true = rw here v in
      (x.tool, h.0 ∙ (text_beq_iff k name).0 same, rw shown (Memᴰ.head refl))
  | inr other ↦
      let r = visible_tools-mem view rest name entry h.1 (ground arith) v in
      (
        r.0,
        r.1,
        elim (Bool-cases (is_visible x.visibility view)) [
          | inl shown ↦ rw shown (Memᴰ.tail r.2)
          | inr hidden ↦ rw hidden r.2
        ],
      )
]

any-insert_tool :
    (p : Tool → Bool) (x : Tool) (l : List Tool) → any p (insert_tool x l) ≡ any p (x ∷ l)
unfolding insert_tool
any-insert_tool p x [] = refl
any-insert_tool p x (y ∷ l) = ground (arith, any-insert_tool p x l)

any-sort_tools : (p : Tool → Bool) (l : List Tool) → any p (sort_tools l) ≡ any p l
unfolding sort_tools
any-sort_tools p [] = refl
any-sort_tools p (x ∷ l) = any-insert_tool p x (sort_tools l) ∙ rw (any-sort_tools p l) refl

any-Memᴰ : (p : Tool → Bool) (l : List Tool) → any p l ≡ true → (x : Tool) × Memᴰ x l × (p x ≡ true)
any-Memᴰ p [] h = absurd (cc)
any-Memᴰ p (x ∷ l) h = elim (Bool-cases (p x)) [
  | inl hit ↦ (x, Memᴰ.head refl, hit)
  | inr miss ↦ let r = any-Memᴰ p l (ground arith) in (r.0, Memᴰ.tail r.1, r.2)
]

Memᴰ-any : (p : Tool → Bool) (x : Tool) (l : List Tool) → Memᴰ x l → p x ≡ true → any p l ≡ true
Memᴰ-any p x [] m h = elim m [ ]
Memᴰ-any p x (y ∷ l) m h = elim m [
  | Memᴰ.head same ↦ ground (arith, ap p same)
  | Memᴰ.tail m' ↦ ground (arith, Memᴰ-any p x l m' h)
]

-- A tool of that name is in the listing.
unfoldable pub is_listed : Text → List Tool → Bool
is_listed name tools = any (λ tool. tool.name == name) tools

-- A name can be looked up for a call exactly when the listing of the same state shows it, if each
-- tool is stored once and under its own name.
pub list_tools-visible_handler :
    (t : ToolSet) (full : List Tool) (name : Text)
    → IsIndexed t.tools
    → list_tools t none ≡ ok full
    → ((handler : Option ToolHandler) × (visible_handler t name ≡ ok handler))
      ↔ (is_listed name full ≡ true)
unfolding list_tools visible_handler is_listed
list_tools-visible_handler t full name i e =
    let view = snapshot t.registry.groups in
    let whole : sorted_tools t ≡ full = ground arith in
    let p : Tool → Bool = λ tool. tool.name == name in
    let same : any p full ≡ any p (visible_tools view t.tools) =
      subst (λ l. any p l ≡ any p (visible_tools view t.tools)) whole
        (any-sort_tools p (visible_tools view t.tools)) in
    (
      λ (handler, found). elim (Option-cases (get name t.tools)) [
        | inl bad ↦ absurd (let h = rw (bad, visible_handler) at found in cc)
        | inr (entry, there) ↦
            let found' = rw (there, visible_handler) at found in
            let (tool, named, m) =
              visible_tools-mem view t.tools name entry i.named there (ground arith) in
            same
            ∙ Memᴰ-any p tool (visible_tools view t.tools) m ((text_beq_iff tool.name name).1 named)
      ],
      λ listed.
          let (tool, m, hit) = any-Memᴰ p (visible_tools view t.tools) (sym same ∙ listed) in
          let (entry, found, shown) = visible_tools-HasVisible view t.tools tool i m in
          let there : get name t.tools ≡ some entry =
            ap (λ k. get k t.tools) (sym ((text_beq_iff tool.name name).0 hit)) ∙ found in
          (entry.handler, rw (there, visible_handler) (rw shown refl)),
    )
