-- ===== src/RateLimit/Full.antt =====
-- When a request is refused, against the window of its key.
use text.Mathlib.Text.{starts_with}
use multi_tenant_agentic_wor.Base.{
  ℕ, zero, suc, ◌≤◌, ◌<◌, ◌≡◌, ◌≢◌, ◌↔◌, refl, sym, ap, ◌∙◌, String, Bool, true, false, not, ◌||◌,
  List, [], ◌∷◌, ◌++◌, ◌==◌, arith, if◌then◌else◌, leb, drop, length, All, All-append, All-map,
  All-drop, count_where, Bool-cases, inl, inr, string_eq, ==-refl,
}
use multi_tenant_agentic_wor.Base.Dict
use multi_tenant_agentic_wor.Base.Dict.{Dict, get_or-put}
use multi_tenant_agentic_wor.RateLimit.{
  Request, RequestLog, recorded, Settings, get_key, is_within, first_within, trimmed, cleanup,
  touch, refusal, check_limit, admit, remaining, Moment, arrives, leaves, Passed, serve,
}
use multi_tenant_agentic_wor.RateLimit.Window.{
  in_window, InOrder, last_arrival, times_of, times_of-cleanup, times_of-touch, Tracks,
  cleanup-Tracks, serve-Tracks,
}

abbrev Ascends : List ℕ → Type 0
Ascends [] = Unit
Ascends (t ∷ ts) = All (λ s. t ≤ s) ts × Ascends ts

-- The times are in order, and none is after `last`.
abbrev IsDated : ℕ → List ℕ → Type 0
IsDated last ts = Ascends ts × All (λ t. t ≤ last) ts

Ascends-drop : (n : ℕ) (ts : List ℕ) → Ascends ts → Ascends (drop n ts)
Ascends-drop zero ts h = h
Ascends-drop (suc n) [] h = h
Ascends-drop (suc n) (t ∷ ts) h = Ascends-drop n ts h.1

Ascends-append :
    (ts : List ℕ) (now : ℕ) → Ascends ts → All (λ t. t ≤ now) ts → Ascends (ts ++ now ∷ [])
Ascends-append [] now h before = (tt, tt)
Ascends-append (t ∷ ts) now h before =
    (All-append (λ s. t ≤ s) ts (now ∷ []) h.0 (before.0, tt), Ascends-append ts now h.1 before.1)

IsDated-later : (last now : ℕ) (ts : List ℕ) → last ≤ now → IsDated last ts → IsDated now ts
IsDated-later last now ts later d =
    (d.0, All-map (λ t. t ≤ last) (λ t. t ≤ now) (λ t h. omega arith) ts d.1)

IsDated-append : (ts : List ℕ) (now : ℕ) → IsDated now ts → IsDated now (ts ++ now ∷ [])
IsDated-append ts now d =
    (Ascends-append ts now d.0 d.1, All-append (λ t. t ≤ now) ts (now ∷ []) d.1 (omega arith, tt))

count_where-All {ℓ} :
    {A : Type ℓ} (p : A → Bool) (xs : List A)
    → All (λ x. p x ≡ true) xs
    → count_where p xs ≡ length xs
unfolding count_where
count_where-All p [] h = refl
count_where-All p (x ∷ xs) h = rw h.0 (omega (arith, count_where-All p xs h.1))

module _ (c : Settings) where
  IsDated-trimmed : (last now : ℕ) (ts : List ℕ) → IsDated last ts → IsDated last (trimmed c now ts)
  unfolding trimmed
  IsDated-trimmed last now ts d = (
    Ascends-drop (first_within c now ts) ts d.0,
    All-drop (λ t. t ≤ last) (first_within c now ts) ts d.1,
  )

  -- After the first time within the window, all are.
  trimmed-within :
      (now : ℕ) (ts : List ℕ) → Ascends ts → All (λ t. is_within c now t ≡ true) (trimmed c now ts)
  unfolding trimmed first_within
  trimmed-within now [] h = tt
  trimmed-within now (t ∷ ts) h = elim (Bool-cases (is_within c now t)) [
    | inl e ↦
        rw e (e, All-map (λ s. t ≤ s) (λ s. is_within c now s ≡ true) (λ s k. ground arith) ts h.0)
    | inr e ↦ rw e (trimmed-within now ts h.1)
  ]

  -- Every list of the log is in order.
  abbrev InTime : ℕ → RequestLog → Type 0
  InTime last log = (k : String) → IsDated last (times_of log k)

  choose-IsDated :
      (b : Bool) (last : ℕ) (ts us : List ℕ)
      → IsDated last ts
      → IsDated last us
      → IsDated last (if b then ts else us)
  choose-IsDated true last ts us d e = d
  choose-IsDated false last ts us d e = e

  cleanup-InTime :
      (key : String) (last now : ℕ) (log : RequestLog)
      → last ≤ now
      → InTime last log
      → InTime now (cleanup c key now log)
  cleanup-InTime key last now log later d k = rw (times_of-cleanup c key now log k) (
      choose-IsDated (key == k) now _ _
        (IsDated-trimmed now now (times_of log key) (IsDated-later last now _ later (d key)))
        (IsDated-later last now _ later (d k)))

  touch-InTime :
      (key : String) (last : ℕ) (log : RequestLog) → InTime last log → InTime last (touch key log)
  touch-InTime key last log d k = rw (times_of-touch c key log k) (d k)

  check_limit-InTime :
      (key : String) (now : ℕ) (log : RequestLog)
      → InTime now log
      → InTime now (check_limit c key now log).1
  unfolding check_limit
  check_limit-InTime key now log d =
      elim (Bool-cases (leb c.max_requests (length (times_of log key)))) [
        | inl e ↦ rw e (touch-InTime key now log d)
        | inr e ↦ rw e (λ k. rw (get_or-put log key k (times_of log key ++ now ∷ []) []) (
            choose-IsDated (key == k) now _ _ (IsDated-append (times_of log key) now (d key))
              (d k)))
      ]

  admit-InTime :
      (now last : ℕ) (r : Request) (log : RequestLog)
      → last ≤ now
      → InTime last log
      → InTime now (admit c now r log).1
  unfolding admit
  admit-InTime now last r log later d =
      elim (Bool-cases (not (starts_with r.path "/api/") || r.method == "OPTIONS")) [
        | inl e ↦ rw e (λ k. IsDated-later last now (times_of log k) later (d k))
        | inr e ↦ rw e (
            check_limit-InTime (get_key c r) now _
              (cleanup-InTime (get_key c r) last now log later d))
      ]

  serve-InTime :
      (ms : List Moment) (last : ℕ) (h : List Passed) (log : RequestLog)
      → InOrder last ms
      → InTime last log
      → InTime (last_arrival last ms) (serve c ms h log).1
  unfolding serve remaining
  serve-InTime [] last h log o d = d
  serve-InTime (arrives now r ∷ ms) last h log o d =
      serve-InTime ms now _ _ o.1 (admit-InTime now last r log o.0 d)
  serve-InTime (leaves key ∷ ms) last h log o d =
      serve-InTime ms last h _ o (touch-InTime key last log d)

  refusal-ne-recorded : (key : String) (now : ℕ) (ts : List ℕ) → refusal c now ts ≢ recorded key
  refusal-ne-recorded key now [] = λ p. cc
  refusal-ne-recorded key now (t ∷ ts) = λ p. cc

  check_limit_iff :
      (key : String) (now n : ℕ) (log : RequestLog)
      → length (times_of log key) ≡ n
      → ((check_limit c key now log).0 ≡ recorded key) ↔ (n < c.max_requests)
  unfolding check_limit
  check_limit_iff key now n log same =
      elim (Bool-cases (leb c.max_requests (length (times_of log key)))) [
        | inl e ↦ rw e (
          λ p. absurd (refusal-ne-recorded key now (times_of log key) p),
          λ room. absurd (not_full (ground arith) room),
        )
        | inr e ↦ rw e (λ p. ground arith, λ room. refl)
      ]
    where
      not_full : c.max_requests ≤ n → n < c.max_requests → ⊥
      not_full full room = omega arith

  -- After the clean-up all times of the key are in the window.
  length-cleanup :
      (key : String) (last now : ℕ) (h : List Passed) (log : RequestLog)
      → last ≤ now
      → Tracks c last h log
      → InTime last log
      → length (times_of (cleanup c key now log) key) ≡ count_where (in_window c key now) h
  length-cleanup key last now h log later t d =
      let counted = (cleanup-Tracks c key last now h log later t).counted key now (omega arith) in
      let own : times_of (cleanup c key now log) key ≡ trimmed c now (times_of log key) =
        times_of-cleanup c key now log key ∙ rw (==-refl key) refl in
      ap length own
      ∙ sym (count_where-All (is_within c now) _ (trimmed-within now (times_of log key) (d key).0))
      ∙ sym (ap (count_where (is_within c now)) own)
      ∙ sym counted

-- A request to an API path, other than an OPTIONS request, that arrives after others in the order of
-- their times, is let through exactly when its key got fewer than the maximum through in the window
-- before it.
pub admit_iff :
    (c : Settings) (ms : List Moment) (now : ℕ) (r : Request)
    → InOrder 0 ms
    → last_arrival 0 ms ≤ now
    → starts_with r.path "/api/" ≡ true
    → (r.method == "OPTIONS") ≡ false
    → ((admit c now r (serve c ms [] []).1).0 ≡ recorded (get_key c r))
      ↔ (count_where (in_window c (get_key c r) now) (serve c ms [] []).0 < c.max_requests)
unfolding admit Dict.get_or count_where
admit_iff c ms now r o later api method =
    let t =
      serve-Tracks c ms 0 [] [] o
        (record { counted = λ i at after. refl; limited = λ i. omega arith }) in
    let d = serve-InTime c ms 0 [] [] o (λ k. (tt, tt)) in
    rw (api, method)
      (check_limit_iff c (get_key c r) now _ _
        (length-cleanup c (get_key c r) (last_arrival 0 ms) now _ _ later t d))
