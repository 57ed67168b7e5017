-- ===== src/Toolset/Changes/Running.antt =====
-- Running a plan: the hooks, the change and the notice, where the hooks leave the tool set alone.
use tmcp.Base.{
  ◌≡◌, refl, sym, subst, Bool, true, false, List, [], ◌∷◌, arith, nat_eq, text_eq, Result, ok, err,
}
use tmcp.Errors.{Error}
use tmcp.Toolset.Registry.{Hook, GroupRegistry}
use tmcp.Toolset.State.{ToolSet}
use tmcp.Toolset.Changes.{GroupChangePlan, run_activation_hooks, run_plan, finish_change}

module _ {W : Type 0} (call : Hook → ToolSet → W → Result Error (Unit {0}) × ToolSet × W)
    (notify : W → Result Error (Unit {0}) × W) where
  -- The hooks change the world around the tool set, and not the tool set.
  abbrev pub AreQuiet : Type 0
  AreQuiet = (h : Hook) (t : ToolSet) (w : W) → (call h t w).1 ≡ t

  -- No hook fails, and neither does the notice.
  abbrev pub AllSucceed : Type 0
  AllSucceed =
      ((h : Hook) (t : ToolSet) (w : W) → (call h t w).0 ≡ ok tt) × ((w : W) → (notify w).0 ≡ ok tt)

  pub run_activation_hooks-quiet :
      (hooks : List Hook) (t : ToolSet) (w : W)
      → AreQuiet
      → (run_activation_hooks call notify hooks t w).1 ≡ t
  unfolding run_activation_hooks
  run_activation_hooks-quiet [] t w quiet = refl
  run_activation_hooks-quiet (hook ∷ hooks) t w quiet = ground (
    arith,
    quiet hook t w,
    run_activation_hooks-quiet hooks (call hook t w).1 (call hook t w).2 quiet,
  )

  run_activation_hooks-ok :
      (hooks : List Hook) (t : ToolSet) (w : W)
      → AllSucceed
      → (run_activation_hooks call notify hooks t w).0 ≡ ok tt
  unfolding run_activation_hooks
  run_activation_hooks-ok [] t w all_ok = refl
  run_activation_hooks-ok (hook ∷ hooks) t w all_ok =
      rw (all_ok.0 hook t w, run_activation_hooks)
        (run_activation_hooks-ok hooks (call hook t w).1 (call hook t w).2 all_ok)

  -- What a run that returns a value has done.
  pub record Ran (apply : GroupRegistry → GroupChangePlan → Result Error (GroupRegistry × Bool))
      (planned : Result Error GroupChangePlan) (t t' : ToolSet) (changed : Bool) : Type 0 where
    pub plan : GroupChangePlan
    pub is_planned : planned ≡ ok plan
    pub registry : GroupRegistry
    pub applied : apply t.registry plan ≡ ok (registry, changed)
    pub left : t' ≡ record t { registry = registry }

  finish_change-left :
      (r : GroupRegistry) (changed b : Bool) (t t' : ToolSet) (w w' : W)
      → finish_change call notify (ok (r, changed)) t w ≡ (ok b, t', w')
      → (b ≡ changed) × (t' ≡ record t { registry = r })
  finish_change-left r false b t t' w w' h = (ground arith, ground arith)
  finish_change-left r true b t t' w w' h = (ground arith, ground arith)

  module _ (apply : GroupRegistry → GroupChangePlan → Result Error (GroupRegistry × Bool))
      (plan : GroupChangePlan) where
    finish_change-Ran :
        (applied : Result Error (GroupRegistry × Bool)) (t t2 t' : ToolSet) (w w' : W) (b : Bool)
        → apply t2.registry plan ≡ applied
        → t2 ≡ t
        → finish_change call notify applied t2 w ≡ (ok b, t', w')
        → Ran apply (ok plan) t t' b
    finish_change-Ran (err e) t t2 t' w w' b a same h = absurd (ground arith)
    finish_change-Ran (ok (r, changed)) t t2 t' w w' b a same h =
        let (is_b, left) = finish_change-left r changed b t2 t' w w' h in
        record {
          plan = plan;
          is_planned = refl;
          registry = r;
          applied = rw (← same, is_b) a;
          left = rw (← same) left;
        }

    after_hooks-Ran :
        (result : Result Error (Unit {0})) (t t2 t' : ToolSet) (w w' : W) (b : Bool)
        → t2 ≡ t
        → (elim result [
          | ok _ ↦ finish_change call notify (apply t2.registry plan) t2 w
          | err e ↦ (err e, t2, w)
        ])
          ≡ (ok b, t', w')
        → Ran apply (ok plan) t t' b
    after_hooks-Ran (err e) t t2 t' w w' b same h = absurd (ground arith)
    after_hooks-Ran (ok u) t t2 t' w w' b same h =
        finish_change-Ran (apply t2.registry plan) t t2 t' w w' b refl same h

  pub run_plan-Ran :
      (apply : GroupRegistry → GroupChangePlan → Result Error (GroupRegistry × Bool))
      (planned : Result Error GroupChangePlan) (t t' : ToolSet) (w w' : W) (b : Bool)
      → AreQuiet
      → run_plan call notify apply planned t w ≡ (ok b, t', w')
      → Ran apply planned t t' b
  run_plan-Ran apply (err e) t t' w w' b quiet h = absurd (ground arith)
  run_plan-Ran apply (ok plan) t t' w w' b quiet h =
      let run = run_activation_hooks call notify plan.hooks t w in
      after_hooks-Ran apply plan run.0 t run.1 t' run.2 w' b
        (run_activation_hooks-quiet plan.hooks t w quiet) h

  finish_change-ok :
      (r : GroupRegistry) (changed : Bool) (t : ToolSet) (w : W)
      → AllSucceed
      → (finish_change call notify (ok (r, changed)) t w).0 ≡ ok changed
  finish_change-ok r false t w all_ok = refl
  finish_change-ok r true t w all_ok = rw (all_ok.1 w) refl

  -- Where nothing fails, a plan that can be applied runs to its end.
  pub run_plan-ok :
      (apply : GroupRegistry → GroupChangePlan → Result Error (GroupRegistry × Bool))
      (plan : GroupChangePlan) (t : ToolSet) (w : W) (r : GroupRegistry) (b : Bool)
      → AreQuiet
      → AllSucceed
      → apply t.registry plan ≡ ok (r, b)
      → (run_plan call notify apply (ok plan) t w).0 ≡ ok b
  run_plan-ok apply plan t w r b quiet all_ok a =
      let run = run_activation_hooks call notify plan.hooks t w in
      let same = run_activation_hooks-quiet plan.hooks t w quiet in
      rw (run_activation_hooks-ok plan.hooks t w all_ok, run_plan)
        (let a' : apply run.1.registry plan ≡ ok (r, b) =
            subst (λ x. apply x.registry plan ≡ ok (r, b)) (sym same) a in
          subst (λ x. (finish_change call notify x run.1 run.2).0 ≡ ok b) (sym a')
            (finish_change-ok r b run.1 run.2 all_ok))

  after_hooks-err :
      (apply : GroupRegistry → GroupChangePlan → Result Error (GroupRegistry × Bool))
      (plan : GroupChangePlan) (result : Result Error (Unit {0})) (t t2 t' : ToolSet) (w w' : W)
      (e : Error)
      → t2 ≡ t
      → ((w : W) → (notify w).0 ≡ ok tt)
      → (elim result [
        | ok _ ↦ finish_change call notify (apply t2.registry plan) t2 w
        | err e ↦ (err e, t2, w)
      ])
        ≡ (err e, t', w')
      → t' ≡ t
  after_hooks-err apply plan (err e') t t2 t' w w' e same sends h = ground arith
  after_hooks-err apply plan (ok u) t t2 t' w w' e same sends h = failed (apply t2.registry plan) h
    where
      failed :
          (applied : Result Error (GroupRegistry × Bool))
          → finish_change call notify applied t2 w ≡ (err e, t', w')
          → t' ≡ t
      failed (err e') h = ground arith
      failed (ok (r, false)) h = absurd (ground arith)
      failed (ok (r, true)) h = absurd (ground (arith, sends w))

  -- An error that is not the notice's leaves the tool set alone.
  pub run_plan-err :
      (apply : GroupRegistry → GroupChangePlan → Result Error (GroupRegistry × Bool))
      (planned : Result Error GroupChangePlan) (t t' : ToolSet) (w w' : W) (e : Error)
      → AreQuiet
      → ((w : W) → (notify w).0 ≡ ok tt)
      → run_plan call notify apply planned t w ≡ (err e, t', w')
      → t' ≡ t
  run_plan-err apply (err e') t t' w w' e quiet sends h = ground arith
  run_plan-err apply (ok plan) t t' w w' e quiet sends h =
      let run = run_activation_hooks call notify plan.hooks t w in
      after_hooks-err apply plan run.0 t run.1 t' run.2 w' e
        (run_activation_hooks-quiet plan.hooks t w quiet) sends h
