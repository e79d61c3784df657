-- ===== src/Base/Dict.antt =====
-- Python's `dict`: an association list in the order of insertion.
use mathlib.Core.Path.{◌≡◌, refl}
use mathlib.Core.Bool.{Bool, false, ◌||◌}
use mathlib.Core.Option.{Option, none, some}
use mathlib.Core.List.{List, [], ◌∷◌}
use native.Mathlib.Omega.{arith}
use multi_tenant_agentic_wor.Base.Tests.{Eq, ◌==◌, if◌then◌else◌}

abbrev pub Dict {ℓ κ} : Type ℓ → Type κ → Type (ℓ ⊔ κ)
Dict K V = List (K × V)

module _ {ℓ κ} {K : Type ℓ} {V : Type κ} ⦃e : Eq K⦄ where
  unfoldable pub get? : Dict K V → K → Option V
  get? [] k = none
  get? ((j, v) ∷ d) k = if j == k then some v else get? d k

  unfoldable pub get_or : Dict K V → K → V → V
  get_or [] k w = w
  get_or ((j, v) ∷ d) k w = if j == k then v else get_or d k w

  unfoldable pub has : Dict K V → K → Bool
  has [] k = false
  has ((j, v) ∷ d) k = j == k || has d k

  -- A key that is there keeps its place.
  unfoldable pub put : Dict K V → K → V → Dict K V
  put [] k v = (k, v) ∷ []
  put ((j, w) ∷ d) k v = if j == k then (j, v) ∷ d else (j, w) ∷ put d k v

  -- `pop(k, None)`, and `del` of a key that is there.
  unfoldable pub pop : Dict K V → K → Dict K V
  pop [] k = []
  pop ((j, w) ∷ d) k = let rest = pop d k in if j == k then rest else (j, w) ∷ rest

  pub get?-put :
      (d : Dict K V) (k j : K) (v : V) → get? (put d k v) j ≡ (if k == j then some v else get? d j)
  unfolding get? put
  get?-put [] k j v = refl
  get?-put ((i, w) ∷ d) k j v =
      ground (arith, e.equals_iff i k, e.equals_iff i j, e.equals_iff k j, get?-put d k j v)

  pub get?-pop : (d : Dict K V) (k j : K) → get? (pop d k) j ≡ (if k == j then none else get? d j)
  unfolding get? pop
  get?-pop [] k j = ground arith
  get?-pop ((i, w) ∷ d) k j =
      ground (arith, e.equals_iff i k, e.equals_iff i j, e.equals_iff k j, get?-pop d k j)

  pub has-put : (d : Dict K V) (k j : K) (v : V) → has (put d k v) j ≡ (k == j || has d j)
  unfolding has put
  has-put [] k j v = ground arith
  has-put ((i, w) ∷ d) k j v =
      ground (arith, e.equals_iff i k, e.equals_iff i j, e.equals_iff k j, has-put d k j v)

  pub get_or-put :
      (d : Dict K V) (k j : K) (v u : V)
      → get_or (put d k v) j u ≡ (if k == j then v else get_or d j u)
  unfolding get_or put
  get_or-put [] k j v u = refl
  get_or-put ((i, w) ∷ d) k j v u =
      ground (arith, e.equals_iff i k, e.equals_iff i j, e.equals_iff k j, get_or-put d k j v u)

  pub get_or-pop :
      (d : Dict K V) (k j : K) (u : V) → get_or (pop d k) j u ≡ (if k == j then u else get_or d j u)
  unfolding get_or pop
  get_or-pop [] k j u = ground arith
  get_or-pop ((i, w) ∷ d) k j u =
      ground (arith, e.equals_iff i k, e.equals_iff i j, e.equals_iff k j, get_or-pop d k j u)
