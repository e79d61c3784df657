-- ===== src/Base/Lists.antt =====
-- Lists measured by native numbers, and the queries and updates of a table by a Boolean condition.
use Prim.Native.Nat.{ℕ, zero, suc, ◌+◌, ◌≤◌}
use mathlib.Core.Path.{◌≡◌, refl, subst}
use mathlib.Core.Bool.{Bool, true, false, ◌||◌, ◌&&◌}
use mathlib.Core.List.{List, [], ◌∷◌, ◌++◌}
use mathlib.Core.Logic.{inl, inr}
use mathlib.Core.Option.{Option, none, some}
use native.Mathlib.Omega.{arith}
use multi_tenant_agentic_wor.Base.Tests.{Eq, ◌==◌, Bool-cases, if◌then◌else◌}

module _ {ℓ} {A : Type ℓ} where
  abbrev pub length : List A → ℕ
  length [] = 0
  length (x ∷ xs) = suc (length xs)

  abbrev pub take : ℕ → List A → List A
  take zero xs = []
  take (suc n) [] = []
  take (suc n) (x ∷ xs) = x ∷ take n xs

  abbrev pub drop : ℕ → List A → List A
  drop zero xs = xs
  drop (suc n) [] = []
  drop (suc n) (x ∷ xs) = drop n xs

  abbrev pub is_empty : List A → Bool
  is_empty [] = true
  is_empty (x ∷ xs) = false

  abbrev pub All {κ} : (A → Type κ) → List A → Type κ
  All P [] = Unit
  All P (x ∷ xs) = P x × All P xs

  abbrev pub reverse : List A → List A
  reverse [] = []
  reverse (x ∷ xs) = reverse xs ++ x ∷ []

  -- `SELECT … WHERE`, in the order of the table.
  unfoldable pub select_where : (A → Bool) → List A → List A
  select_where p [] = []
  select_where p (x ∷ xs) = let rest = select_where p xs in if p x then x ∷ rest else rest

  -- `scalar_one_or_none` of a query on a primary key.
  unfoldable pub find_where : (A → Bool) → List A → Option A
  find_where p [] = none
  find_where p (x ∷ xs) = if p x then some x else find_where p xs

  -- `UPDATE … WHERE`.
  unfoldable pub update_where : (A → Bool) → (A → A) → List A → List A
  update_where p f [] = []
  update_where p f (x ∷ xs) = (if p x then f x else x) ∷ update_where p f xs

  -- `SELECT count(…) WHERE`, and the `rowcount` of an update.
  unfoldable pub count_where : (A → Bool) → List A → ℕ
  count_where p [] = 0
  count_where p (x ∷ xs) = (if p x then 1 else 0) + count_where p xs

  unfoldable pub any_where : (A → Bool) → List A → Bool
  any_where p [] = false
  any_where p (x ∷ xs) = p x || any_where p xs

  unfoldable pub all_where : (A → Bool) → List A → Bool
  all_where p [] = true
  all_where p (x ∷ xs) = p x && all_where p xs

module _ {ℓ} {A : Type ℓ} where
  pub is_empty-eq-nil : (xs : List A) → is_empty xs ≡ true → xs ≡ []
  is_empty-eq-nil [] h = refl
  is_empty-eq-nil (x ∷ xs) h = cc

  pub length-append : (xs ys : List A) → length (xs ++ ys) ≡ length xs + length ys
  length-append [] ys = omega arith
  length-append (x ∷ xs) ys = omega (arith, length-append xs ys)

  pub length-select_where-le : (p : A → Bool) (xs : List A) → length (select_where p xs) ≤ length xs
  unfolding select_where
  length-select_where-le p [] = omega arith
  length-select_where-le p (x ∷ xs) = ground (arith, length-select_where-le p xs)

  pub count_where-append :
      (p : A → Bool) (xs : List A) (x : A)
      → count_where p (xs ++ x ∷ []) ≡ count_where p xs + (if p x then 1 else 0)
  unfolding count_where
  count_where-append p [] x = omega arith
  count_where-append p (y ∷ xs) x = omega (arith, count_where-append p xs x)

  -- An update that puts no new row under the condition leaves at most as many.
  pub count_where-update_where-le :
      (p q : A → Bool) (f : A → A) (xs : List A)
      → ((x : A) → p (f x) ≡ true → p x ≡ true)
      → count_where p (update_where q f xs) ≤ count_where p xs
  unfolding count_where update_where
  count_where-update_where-le p q f [] keep = omega arith
  count_where-update_where-le p q f (x ∷ xs) keep =
      ground (arith, keep x, count_where-update_where-le p q f xs keep)

  pub count_where-select_where-le :
      (p q : A → Bool) (xs : List A) → count_where p (select_where q xs) ≤ count_where p xs
  unfolding count_where select_where
  count_where-select_where-le p q [] = omega arith
  count_where-select_where-le p q (x ∷ xs) = ground (arith, count_where-select_where-le p q xs)

  pub count_where-eq-0 :
      (p : A → Bool) (xs : List A) → find_where p xs ≡ none → count_where p xs ≡ 0
  unfolding count_where find_where
  count_where-eq-0 p [] h = omega arith
  count_where-eq-0 p (x ∷ xs) h = elim (Bool-cases (p x)) [
    | inl e ↦ cc (rw e at h)
    | inr e ↦ rw e (omega (arith, count_where-eq-0 p xs (rw e at h)))
  ]

  pub All-select_where {κ} :
      (P : A → Type κ) (p : A → Bool) (xs : List A) → All P xs → All P (select_where p xs)
  unfolding select_where
  All-select_where P p [] h = tt
  All-select_where P p (x ∷ xs) h = elim (Bool-cases (p x)) [
    | inl e ↦ rw e (h.0, All-select_where P p xs h.1)
    | inr e ↦ rw e (All-select_where P p xs h.1)
  ]

  pub All-of_select_where {κ} :
      (P : A → Type κ) (p : A → Bool) (xs : List A)
      → All P (select_where p xs)
      → All (λ x. p x ≡ true → P x) xs
  unfolding select_where
  All-of_select_where P p [] h = tt
  All-of_select_where P p (x ∷ xs) h = elim (Bool-cases (p x)) [
    | inl e ↦
        let both : All P (x ∷ select_where p xs) = rw e at h in
        (λ _. both.0, All-of_select_where P p xs both.1)
    | inr e ↦
        let rest : All P (select_where p xs) = rw e at h in
        (λ t. cc, All-of_select_where P p xs rest)
  ]

  pub select_where-eq-nil :
      (p : A → Bool) (xs : List A) → All (λ x. p x ≡ false) xs → select_where p xs ≡ []
  unfolding select_where
  select_where-eq-nil p [] h = refl
  select_where-eq-nil p (x ∷ xs) h = rw (h.0) (select_where-eq-nil p xs h.1)

  pub any_where-append :
      (p : A → Bool) (xs ys : List A) → any_where p (xs ++ ys) ≡ (any_where p xs || any_where p ys)
  unfolding any_where
  any_where-append p [] ys = refl
  any_where-append p (x ∷ xs) ys = rw (any_where-append p xs ys) (ground arith)

  -- A query that holds of every row an update touches finds one, or what the update made of it.
  pub find_where-of_update :
      (p q : A → Bool) (f : A → A) (xs : List A) (x : A)
      → ((y : A) → p y ≡ true → q y ≡ true)
      → ((y : A) → q (f y) ≡ q y)
      → find_where p xs ≡ some x
      → (y : A) × (find_where q (update_where q f xs) ≡ some (f y))
  unfolding find_where update_where
  find_where-of_update p q f [] x sub same h = cc
  find_where-of_update p q f (y ∷ xs) x sub same h = elim (Bool-cases (q y)) [
    | inl hit ↦ (y, rw hit (rw (same y) (rw hit refl)))
    | inr miss ↦ elim (Bool-cases (p y)) [
      | inl e ↦ cc (sub y e, miss)
      | inr e ↦
          let (z, found) = find_where-of_update p q f xs x sub same (rw e at h) in
          (z, rw miss (rw miss found))
    ]
  ]

  pub find_where-nowhere :
      (p q : A → Bool) (f : A → A) (xs : List A)
      → ((y : A) → p y ≡ true → q y ≡ true)
      → ((y : A) → p (f y) ≡ false)
      → find_where p (update_where q f xs) ≡ none
  unfolding find_where update_where
  find_where-nowhere p q f [] sub gone = refl
  find_where-nowhere p q f (y ∷ xs) sub gone = elim (Bool-cases (q y)) [
    | inl hit ↦ rw hit (rw (gone y) (find_where-nowhere p q f xs sub gone))
    | inr miss ↦ elim (Bool-cases (p y)) [
      | inl e ↦ cc (sub y e, miss)
      | inr e ↦ rw miss (rw e (find_where-nowhere p q f xs sub gone))
    ]
  ]

  pub length-take-le : (n : ℕ) (xs : List A) → length (take n xs) ≤ n
  length-take-le zero xs = omega arith
  length-take-le (suc n) [] = omega arith
  length-take-le (suc n) (x ∷ xs) = omega (arith, length-take-le n xs)

  pub All-append {κ} : (P : A → Type κ) (xs ys : List A) → All P xs → All P ys → All P (xs ++ ys)
  All-append P [] ys hx hy = hy
  All-append P (x ∷ xs) ys hx hy = (hx.0, All-append P xs ys hx.1 hy)

  pub All-drop {κ} : (P : A → Type κ) (n : ℕ) (xs : List A) → All P xs → All P (drop n xs)
  All-drop P zero xs h = h
  All-drop P (suc n) [] h = h
  All-drop P (suc n) (x ∷ xs) h = All-drop P n xs h.1

  pub All-map {κ μ} :
      (P : A → Type κ) (Q : A → Type μ) (f : (x : A) → P x → Q x) (xs : List A)
      → All P xs
      → All Q xs
  All-map P Q f [] h = tt
  All-map P Q f (x ∷ xs) h = (f x h.0, All-map P Q f xs h.1)

  pub All-both {κ μ ν} :
      (P : A → Type κ) (Q : A → Type μ) (R : A → Type ν) (f : (x : A) → P x → Q x → R x)
      (xs : List A)
      → All P xs
      → All Q xs
      → All R xs
  All-both P Q R f [] hp hq = tt
  All-both P Q R f (x ∷ xs) hp hq = (f x hp.0 hq.0, All-both P Q R f xs hp.1 hq.1)

  pub All-find_where {κ} :
      (P : A → Type κ) (p : A → Bool) (xs : List A) (x : A)
      → All P xs
      → find_where p xs ≡ some x
      → P x × (p x ≡ true)
  unfolding find_where
  All-find_where P p [] x h e = cc
  All-find_where P p (y ∷ xs) x h e = elim (Bool-cases (p y)) [
    | inl hit ↦ let same : y ≡ x = ground arith in subst (λ z. P z × (p z ≡ true)) same (h.0, hit)
    | inr miss ↦ All-find_where P p xs x h.1 (rw miss at e)
  ]

  pub find_where-holds :
      (p : A → Bool) (xs : List A) (x : A) → find_where p xs ≡ some x → p x ≡ true
  unfolding find_where
  find_where-holds p [] x h = cc
  find_where-holds p (y ∷ xs) x h = elim (Bool-cases (p y)) [
    | inl e ↦ let here : y ≡ x = ground arith in subst (λ z. p z ≡ true) here e
    | inr e ↦ find_where-holds p xs x (rw e at h)
  ]

  pub find_where-append :
      (p : A → Bool) (xs ys : List A) (x : A)
      → find_where p xs ≡ some x
      → find_where p (xs ++ ys) ≡ some x
  unfolding find_where
  find_where-append p [] ys x h = cc
  find_where-append p (y ∷ xs) ys x h = elim (Bool-cases (p y)) [
    | inl e ↦ rw e (rw e at h)
    | inr e ↦ rw e (find_where-append p xs ys x (rw e at h))
  ]

  -- The query of a row after an update that touches it and leaves the condition of the query.
  pub find_where-update_where :
      (p q : A → Bool) (f : A → A) (xs : List A) (x : A)
      → ((y : A) → p (f y) ≡ p y)
      → q x ≡ true
      → find_where p xs ≡ some x
      → find_where p (update_where q f xs) ≡ some (f x)
  unfolding find_where update_where
  find_where-update_where p q f [] x same hit h = cc
  find_where-update_where p q f (y ∷ xs) x same hit h = elim (Bool-cases (p y)) [
    | inl e ↦
        let here : y ≡ x = ground arith in rw here (rw hit (rw (same x) (rw (← here) (rw e refl))))
    | inr e ↦ elim (Bool-cases (q y)) [
      | inl m ↦ rw m (rw (same y) (rw e (find_where-update_where p q f xs x same hit (rw e at h))))
      | inr m ↦ rw m (rw e (find_where-update_where p q f xs x same hit (rw e at h)))
    ]
  ]

  pub All-update_where {κ} :
      (P : A → Type κ) (p : A → Bool) (f : A → A) (xs : List A)
      → ((x : A) → p x ≡ true → P x → P (f x))
      → All P xs
      → All P (update_where p f xs)
  unfolding update_where
  All-update_where P p f [] keep h = tt
  All-update_where P p f (x ∷ xs) keep h = (
    elim (Bool-cases (p x)) [ inl hit ↦ rw hit (keep x hit h.0) | inr miss ↦ rw miss h.0 ],
    All-update_where P p f xs keep h.1,
  )

module _ {ℓ} {A : Type ℓ} ⦃e : Eq A⦄ where
  -- `in` and `not in` on a list or a set.
  unfoldable pub contains : List A → A → Bool
  contains [] a = false
  contains (x ∷ xs) a = x == a || contains xs a

  pub contains-append :
      (xs ys : List A) (a : A) → contains (xs ++ ys) a ≡ (contains xs a || contains ys a)
  unfolding contains
  contains-append [] ys a = refl
  contains-append (x ∷ xs) ys a = rw (contains-append xs ys a) (ground arith)
