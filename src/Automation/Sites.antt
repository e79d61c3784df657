-- ===== src/Automation/Sites.antt =====
-- The plans, the users who ask for them and the worker that carries them out, one step at a time.
use multi_tenant_agentic_wor.Base.{
  ℕ, ◌≡◌, refl, ap, String, Bool, true, false, Option, none, some, List, [], ◌∷◌, ◌++◌, map, ◌==◌,
  if◌then◌else◌, find_where, find_where-append, nat_eq, Bool-cases, Option-cases, inl, inr, ok,
  >>=-eq-ok, >>-eq-ok, ok-pair,
}
use multi_tenant_agentic_wor.Tables.{User, Plan, plan_status_eq}
use multi_tenant_agentic_wor.Store.{World}
use multi_tenant_agentic_wor.Texts.{Texts}
use multi_tenant_agentic_wor.Automation.Plans.{
  current_or_error, find_plan, new_plan, insert_plan, write_plan, create_plan, approve_plan,
  reject_plan,
}
use multi_tenant_agentic_wor.Alerts.Recommendations.{find_current_recommendation}
use multi_tenant_agentic_wor.Automation.Worker.{
  Outside, Outcome, is_terminal, start, finish, fail, execute_plan, claim, run_once,
}
use multi_tenant_agentic_wor.Automation.Approval.{Ask, Shows, view_of, view}
use multi_tenant_agentic_wor.Automation.Moves.{IsKeyed, approve_plan-Asks, reject_plan-Asks}

-- The requests of users; `elsewhere` is any other part of the system.
pub data Request (t : Texts) (o : Outside) : World → World → Type 0 where
  creates :
      {w w' : World} {p : Plan} (tenant hours sla : ℕ) (user : User) (code : String)
      → create_plan t w tenant user code hours sla ≡ ok (p, w')
      → Request t o w w'
  approves :
      {w w' : World} (tenant i : ℕ) (user : User)
      → approve_plan w tenant user i ≡ ok w'
      → Request t o w w'
  rejects :
      {w w' : World} (tenant i : ℕ) (user : User) (remark : Option String)
      → reject_plan o.clean w tenant user i remark ≡ ok w'
      → Request t o w w'
  elsewhere : {w w' : World} → w'.plans ≡ w.plans → Request t o w w'

-- What the worker is doing: nothing, a plan that it started, or one that it carried out.
pub data Doing : Type 0 where
  idle : Doing
  started : (i : ℕ) → Doing
  carried : (i : ℕ) → (r : Outcome) → Doing

-- The world, the plans that the worker has claimed and not yet started, and what it is doing.
pub record Site : Type 0 where
  pub world : World
  pub left : List ℕ
  pub doing : Doing

abbrev pub site : World → List ℕ → Doing → Site
site w left d = record { world = w; left = left; doing = d }

-- A step of the system. A run of the worker is one step, or its parts are, with requests between them: it
-- claims plans, skips one that has ended, starts one, which others see once the creation of its retry
-- commits, carries it out, and writes how it ended, or that it failed before or after its writes. It may
-- die at any time. There is one worker.
pub data PlanStep (t : Texts) (o : Outside) : Site → Site → Type 0 where
  requests :
      {w w' : World} (left : List ℕ) (d : Doing)
      → Request t o w w'
      → PlanStep t o (site w left d) (site w' left d)
  claims :
      (w : World) (limit : ℕ) (tenant : Option ℕ)
      → PlanStep t o (site w [] idle) (site w (map (λ p. p.id) (claim t o w limit tenant)) idle)
  skips :
      (w : World) (i : ℕ) (is : List ℕ) (p : Plan)
      → find_plan w i ≡ some p
      → is_terminal p.status ≡ true
      → PlanStep t o (site w (i ∷ is) idle) (site w is idle)
  begins :
      (w : World) (i : ℕ) (is : List ℕ) (p : Plan)
      → find_plan w i ≡ some p
      → is_terminal p.status ≡ false
      → PlanStep t o (site w (i ∷ is) idle) (site (write_plan i (start t o) w) is (started i))
  carries :
      (w : World) (i : ℕ) (is : List ℕ) (p : Plan)
      → find_plan w i ≡ some p
      → PlanStep t o
          (site w is (started i))
          (site (execute_plan t o w p).1 is (carried i (execute_plan t o w p).0))
  finishes :
      (w : World) (i : ℕ) (is : List ℕ) (r : Outcome)
      → PlanStep t o
          (site w is (carried i r))
          (site (write_plan i (finish t o w.clock r) w) is idle)
  fails :
      (w : World) (i : ℕ) (is : List ℕ) (error : String)
      → PlanStep t o
          (site w is (started i))
          (site (write_plan i (fail t o w.clock error) w) is idle)
  aborts :
      (w : World) (i : ℕ) (is : List ℕ) (r : Outcome) (error : String)
      → PlanStep t o
          (site w is (carried i r))
          (site (write_plan i (fail t o w.clock error) w) is idle)
  dies : (w : World) (is : List ℕ) (d : Doing) → PlanStep t o (site w is d) (site w [] idle)
  runs :
      (w : World) (limit : ℕ) (tenant : Option ℕ)
      → PlanStep t o (site w [] idle) (site (run_once t o w limit tenant).0 [] idle)

find_where-append_last :
    (f : Plan → Bool) (ps : List Plan) (p : Plan)
    → find_where f ps ≡ none
    → find_where f (ps ++ p ∷ []) ≡ (if f p then some p else none)
unfolding find_where
find_where-append_last f [] p h = refl
find_where-append_last f (q ∷ ps) p h = elim (Bool-cases (f q)) [
  | inl hit ↦ cc (rw hit at h)
  | inr miss ↦ rw miss (find_where-append_last f ps p (rw miss at h))
]

insert_plan-Asks :
    (w : World) (p : Plan) (i : ℕ)
    → Ask none (view_of (some p))
    → Shows Ask (view w i) (view (insert_plan p w) i)
unfolding insert_plan find_plan
insert_plan-Asks w p i ask = elim (Option-cases (find_plan w i)) [
  | inl free ↦ elim (Bool-cases (p.id == i)) [
    | inl own ↦ rw (free, find_where-append_last (λ q. q.id == i) w.plans p free, own) (inr ask)
    | inr other ↦
        rw (free, find_where-append_last (λ q. q.id == i) w.plans p free, other) (inl refl)
  ]
  | inr (q, taken) ↦
      rw (taken, find_where-append (λ q. q.id == i) w.plans (p ∷ []) q taken) (inl refl)
]

pub kept-view : (w w' : World) → w'.plans ≡ w.plans → (i : ℕ) → view w' i ≡ view w i
unfolding find_plan
kept-view w w' same i = ap (λ ps. view_of (find_where (λ p. p.id == i) ps)) same

pub Request-Asks :
    {t : Texts} {o : Outside} {w w' : World}
    → Request t o w w'
    → IsKeyed w
    → (i : ℕ) → Shows Ask (view w i) (view w' i)
unfolding create_plan
Request-Asks {t} (creates {w} tenant hours sla user code h) keyed i =
    let (r, _, h₁) =
      >>=-eq-ok (current_or_error (find_current_recommendation t w tenant code hours sla)) _ h in
    let (_, h₂) = (>>-eq-ok _ _).0 h₁ in
    let (_, same) = ok-pair h₂ in
    rw same (insert_plan-Asks w (new_plan w tenant user r) i Ask.proposes)
Request-Asks (approves {w} {w'} tenant k user h) keyed i =
    approve_plan-Asks w w' tenant k user keyed h i
Request-Asks {t} {o} (rejects {w} {w'} tenant k user remark h) keyed i =
    reject_plan-Asks o.clean w w' tenant k user remark keyed h i
Request-Asks (elsewhere {w} {w'} same) keyed i = inl (kept-view w w' same i)
