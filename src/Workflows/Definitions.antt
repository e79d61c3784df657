-- ===== src/Workflows/Definitions.antt =====
-- The definitions that the operations on workflows store.
use multi_tenant_agentic_wor.Base.{
  ◌≡◌, refl, sym, subst, true, ◌&&◌, ◌==◌, Option, none, some, List, [], ◌∷◌, All, All-append,
  All-update_where, All-find_where, nat_eq, Result, ok, err, inl, inr,
}
use multi_tenant_agentic_wor.Graph.{Definition, CompilationError, validate_definition}
use multi_tenant_agentic_wor.Graph.Valid.{IsValid, validate_definition_iff}
use multi_tenant_agentic_wor.Store.{Workflow, World, find_workflow}
use multi_tenant_agentic_wor.Workflows.{
  is_drawn, as_invalid, empty_definition, check_new_definition, insert_workflow, write_workflow,
}
use multi_tenant_agentic_wor.Workflows.Limits.{
  WorkflowReach, here, next, Change, inserts, writes, leaves, WorkflowStep-Change,
}

-- A definition is valid or has neither nodes nor edges.
abbrev pub IsSound : Option Definition → Type 0
IsSound none = Unit
IsSound (some d) = is_drawn d ≡ true → IsValid d

abbrev pub AreSound : List Workflow → Type 0
AreSound = All (λ f. IsSound f.definition)

as_invalid-eq-ok : (r : Result CompilationError (Unit {0})) → as_invalid r ≡ ok tt → r ≡ ok tt
as_invalid-eq-ok (ok tt) h = refl
as_invalid-eq-ok (err e) h = cc

pub check_new_definition-IsSound :
    (d : Definition) → check_new_definition (some d) ≡ ok tt → IsSound (some d)
unfolding check_new_definition
check_new_definition-IsSound d h drawn =
    (validate_definition_iff d).0 (as_invalid-eq-ok (validate_definition d) (rw drawn at h))

empty-IsSound : IsSound (some empty_definition)
empty-IsSound h = cc

Change-AreSound : (w w' : World) → Change w w' → AreSound w.workflows → AreSound w'.workflows
unfolding insert_workflow write_workflow find_workflow
Change-AreSound w w' (inserts tenant f room owned (inl empty) same) sound = rw same (
    All-append (λ f. IsSound f.definition) w.workflows (f ∷ []) sound
      (subst IsSound (sym empty) empty-IsSound, tt))
Change-AreSound w w' (inserts tenant f room owned (inr (i, g, found, copied)) same) sound =
    rw same (
      All-append (λ f. IsSound f.definition) w.workflows (f ∷ []) sound
        (
          subst IsSound (sym copied)
              (All-find_where (λ f. IsSound f.definition)
                (λ f. f.id == i && f.tenant_id == tenant && f.is_active) w.workflows g sound
                found).0,
          tt,
        ))
Change-AreSound w w' (writes k change keep (inl kept) same) sound = rw same (
    All-update_where (λ f. IsSound f.definition) (λ f. f.id == k)
      (λ f. record (change f) { updated_at = w.clock }) w.workflows
      (λ f hit old. subst IsSound (sym (kept f)) old) sound)
Change-AreSound w w' (writes k change keep (inr (d, checked, replaced)) same) sound = rw same (
    All-update_where (λ f. IsSound f.definition) (λ f. f.id == k)
      (λ f. record (change f) { updated_at = w.clock }) w.workflows
      (λ f hit old. subst IsSound (sym (replaced f)) (check_new_definition-IsSound d checked))
      sound)
Change-AreSound w w' (leaves same) sound = rw same sound

-- If every stored definition is valid or has neither nodes nor edges, every one is so after any
-- sequence of creations, duplications, updates, pauses, resumptions and deletions.
pub WorkflowReach-AreSound :
    {w v : World} → AreSound w.workflows → WorkflowReach w v → AreSound v.workflows
WorkflowReach-AreSound sound here = sound
WorkflowReach-AreSound {w} sound (next {v} {v'} r s) =
    Change-AreSound v v' (WorkflowStep-Change s) (WorkflowReach-AreSound sound r)
