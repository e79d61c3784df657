-- ===== src/Doctor/Patched.antt =====
-- What a patch may change in the rows of agents and tools, and that a single write is such a change.
use multi_tenant_agentic_wor.Base.{
  ℕ, String, ◌≡◌, ◌⊎◌, refl, sym, ap, subst, ◌∙◌, Bool, true, false, List, [], ◌∷◌, arith, ◌==◌,
  ==-sym, update_where, contains, Bool-cases, inl, inr, nat_eq, nat_beq_iff, string_eq,
}
use multi_tenant_agentic_wor.Base.Json
use multi_tenant_agentic_wor.Base.Json.{Json, Fields, Items, is_text}
use multi_tenant_agentic_wor.Tables.{Tool}
use multi_tenant_agentic_wor.Store.{AgentConfig, World}
use multi_tenant_agentic_wor.Agents.{valid_models}
use multi_tenant_agentic_wor.Doctor.{is_own_agent, is_own_tool, set_model, set_config}

-- Two tables that agree row by row, up to a relation.
abbrev pub Rows : {A : Type 0} → (A → A → Type 0) → List A → List A → Type 0
Rows R [] [] = Unit
Rows R [] (y ∷ ys) = ⊥
Rows R (x ∷ xs) [] = ⊥
Rows R (x ∷ xs) (y ∷ ys) = R x y × Rows R xs ys

-- An agent is as it was, or has another model of those that are supported.
abbrev pub AgentPatched : ℕ → AgentConfig → AgentConfig → Type 0
AgentPatched tenant a b =
    (b ≡ a)
    ⊎ ((a.tenant_id ≡ tenant)
        × ((model : String) × (contains valid_models model ≡ true)
            × (b ≡ record a { model = model })))

-- A tool is as it was, or has another URL or method.
abbrev pub ToolPatched : ℕ → Tool → Tool → Type 0
ToolPatched tenant x y =
    (y ≡ x)
    ⊎ ((x.tenant_id ≡ tenant)
        × ((config : Fields) × (((key : String)
                → (key == "url") ≡ false
                → (key == "method") ≡ false
                → Json.get key config ≡ Json.get key x.config)
              × (y ≡ record x { config = config }))))

pub record IsConfined (tenant : ℕ) (w w' : World) : Type 0 where
  pub agents : Rows (AgentPatched tenant) w.agent_configs w'.agent_configs
  pub tools : Rows (ToolPatched tenant) w.tools w'.tools
  pub suggestions : w'.suggestions ≡ w.suggestions

module _ {A : Type 0} (R : A → A → Type 0) where
  Rows-refl : ((x : A) → R x x) → (xs : List A) → Rows R xs xs
  Rows-refl same [] = tt
  Rows-refl same (x ∷ xs) = (same x, Rows-refl same xs)

  Rows-trans :
      ((x y z : A) → R x y → R y z → R x z)
      → (xs ys zs : List A) → Rows R xs ys
      → Rows R ys zs
      → Rows R xs zs
  Rows-trans trans [] [] [] h k = tt
  Rows-trans trans [] [] (z ∷ zs) h k = k
  Rows-trans trans [] (y ∷ ys) zs h k = absurd h
  Rows-trans trans (x ∷ xs) [] zs h k = absurd h
  Rows-trans trans (x ∷ xs) (y ∷ ys) [] h k = absurd k
  Rows-trans trans (x ∷ xs) (y ∷ ys) (z ∷ zs) h k =
      (trans x y z (h.0) (k.0), Rows-trans trans xs ys zs (h.1) (k.1))

  Rows-update_where :
      (p : A → Bool) (f : A → A) (xs : List A)
      → ((x : A) → R x x)
      → ((x : A) → p x ≡ true → R x (f x))
      → Rows R xs (update_where p f xs)
  unfolding update_where
  Rows-update_where p f [] same change = tt
  Rows-update_where p f (x ∷ xs) same change = elim (Bool-cases (p x)) [
    | inl hit ↦ rw hit (change x hit, Rows-update_where p f xs same change)
    | inr miss ↦ rw miss (same x, Rows-update_where p f xs same change)
  ]

module _ (tenant : ℕ) where
  AgentPatched-trans :
      (a b c : AgentConfig)
      → AgentPatched tenant a b
      → AgentPatched tenant b c
      → AgentPatched tenant a c
  AgentPatched-trans a b c (inl e) s = subst (λ d. AgentPatched tenant d c) e s
  AgentPatched-trans a b c (inr r) (inl e) = subst (AgentPatched tenant a) (sym e) (inr r)
  AgentPatched-trans a b c (inr (own, (m, v, e))) (inr (own', (m', v', e'))) =
      inr (own, (m', v', e' ∙ ap {A = AgentConfig} (λ d. record d { model = m' }) e))

  ToolPatched-trans :
      (x y z : Tool) → ToolPatched tenant x y → ToolPatched tenant y z → ToolPatched tenant x z
  ToolPatched-trans x y z (inl e) s = subst (λ d. ToolPatched tenant d z) e s
  ToolPatched-trans x y z (inr r) (inl e) = subst (ToolPatched tenant x) (sym e) (inr r)
  ToolPatched-trans x y z (inr (own, (c, (same, e)))) (inr (own', (c', (same', e')))) = inr (
    own,
    (
      c',
      (
        λ key u m. same' key u m ∙ ap {A = Tool} (λ d. Json.get key d.config) e ∙ same key u m,
        e' ∙ ap {A = Tool} (λ d. record d { config = c' }) e,
      ),
    ),
  )

  pub IsConfined-refl : (w : World) → IsConfined tenant w w
  IsConfined-refl w = record {
    agents = Rows-refl (AgentPatched tenant) (λ a. inl refl) w.agent_configs;
    tools = Rows-refl (ToolPatched tenant) (λ x. inl refl) w.tools;
    suggestions = refl;
  }

  pub IsConfined-trans :
      {u v w : World} → IsConfined tenant u v → IsConfined tenant v w → IsConfined tenant u w
  IsConfined-trans {u} {v} {w} h k = record {
    agents =
        Rows-trans (AgentPatched tenant) AgentPatched-trans u.agent_configs v.agent_configs
          w.agent_configs h.agents k.agents;
    tools =
        Rows-trans (ToolPatched tenant) ToolPatched-trans u.tools v.tools w.tools h.tools k.tools;
    suggestions = k.suggestions ∙ h.suggestions;
  }

  pub set_model-IsConfined :
      (i : ℕ) (model : String) (w : World)
      → contains valid_models model ≡ true
      → IsConfined tenant w (set_model tenant i model w)
  unfolding set_model
  set_model-IsConfined i model w valid = record {
    agents =
        Rows-update_where (AgentPatched tenant) (is_own_agent tenant i)
          (λ a. record a { model = model }) w.agent_configs (λ a. inl refl)
          (λ a own. inr (owned a own, (model, valid, refl)));
    tools = Rows-refl (ToolPatched tenant) (λ x. inl refl) w.tools;
    suggestions = refl;
  }
    where
      owned : (a : AgentConfig) → is_own_agent tenant i a ≡ true → a.tenant_id ≡ tenant
      owned a own = (nat_beq_iff a.tenant_id tenant).0 (ground arith)

  pub set_config-IsConfined :
      (i : ℕ) (key : String) (value : Json) (w : World)
      → ((k : String) → (k == "url") ≡ false → (k == "method") ≡ false → (k == key) ≡ false)
      → IsConfined tenant w (set_config tenant i key value w)
  unfolding set_config
  set_config-IsConfined i key value w known = record {
    agents = Rows-refl (AgentPatched tenant) (λ a. inl refl) w.agent_configs;
    tools =
        Rows-update_where (ToolPatched tenant) (is_own_tool tenant i)
          (λ x. record x { config = Json.put key value x.config }) w.tools (λ x. inl refl)
          (λ x own. inr (
            owned x own,
            (Json.put key value x.config, (λ k u m. elsewhere k x.config (known k u m), refl)),
          ));
    suggestions = refl;
  }
    where
      owned : (x : Tool) → is_own_tool tenant i x ≡ true → x.tenant_id ≡ tenant
      owned x own = (nat_beq_iff x.tenant_id tenant).0 (ground arith)

      elsewhere :
          (k : String) (d : Fields)
          → (k == key) ≡ false
          → Json.get k (Json.put key value d) ≡ Json.get k d
      elsewhere k d other = Json.get-put k key value d ∙ rw (==-sym key k, other) refl

  pub url_known :
      (k : String) → (k == "url") ≡ false → (k == "method") ≡ false → (k == "url") ≡ false
  url_known k u m = u

  pub method_known :
      (k : String) → (k == "url") ≡ false → (k == "method") ≡ false → (k == "method") ≡ false
  method_known k u m = m
