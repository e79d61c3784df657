-- ===== src/RateLimit/Window.antt =====
-- The requests that one key gets through in a window.
use text.Mathlib.Text.{starts_with}
use multi_tenant_agentic_wor.Base.{
  ℕ, ◌+◌, ◌≤◌, ◌≡◌, refl, sym, ap, ◌∙◌, String, Bool, false, not, ◌&&◌, ◌||◌, List, [], ◌∷◌, ◌++◌,
  ◌==◌, arith, if◌then◌else◌, leb, length, length-append, is_empty, is_empty-eq-nil, count_where,
  count_where-append, Bool-cases, inl, inr, string_eq,
}
use multi_tenant_agentic_wor.Base.Dict
use multi_tenant_agentic_wor.Base.Dict.{Dict, get_or-put, get_or-pop}
use multi_tenant_agentic_wor.RateLimit.{
  Request, RequestLog, Verdict, Settings, get_key, is_within, first_within, trimmed, cleanup, touch,
  refusal, check_limit, admit, remaining, Moment, arrives, leaves, Passed, passed_by, serve,
}

count_where-le-length {ℓ} : {A : Type ℓ} (p : A → Bool) (xs : List A) → count_where p xs ≤ length xs
unfolding count_where
count_where-le-length p [] = omega arith
count_where-le-length p (x ∷ xs) = ground (arith, count_where-le-length p xs)

-- The times of a key.
abbrev pub times_of : RequestLog → String → List ℕ
times_of log k = Dict.get_or log k []

module _ (c : Settings) where
  count-trimmed :
      (now later : ℕ) (ts : List ℕ)
      → now ≤ later
      → count_where (is_within c later) (trimmed c now ts) ≡ count_where (is_within c later) ts
  unfolding trimmed first_within count_where
  count-trimmed now later [] h = refl
  count-trimmed now later (t ∷ ts) h = elim (Bool-cases (is_within c now t)) [
    | inl e ↦ rw e refl
    | inr e ↦
        let old : is_within c later t ≡ false = ground (arith, e) in
        rw e (rw old (count-trimmed now later ts h ∙ omega arith))
  ]

  length-trimmed : (now : ℕ) (ts : List ℕ) → length (trimmed c now ts) ≤ length ts
  unfolding trimmed first_within
  length-trimmed now [] = omega arith
  length-trimmed now (t ∷ ts) = elim (Bool-cases (is_within c now t)) [
    | inl e ↦ rw e (omega arith)
    | inr e ↦ rw e (omega (arith, length-trimmed now ts))
  ]

  pub times_of-cleanup :
      (key : String) (now : ℕ) (log : RequestLog) (k : String)
      → times_of (cleanup c key now log) k
        ≡ (if key == k then trimmed c now (times_of log key) else times_of log k)
  unfolding cleanup
  times_of-cleanup key now log k =
      elim (Bool-cases (is_empty (trimmed c now (Dict.get_or log key [])))) [
        | inl e ↦ rw e (
            get_or-pop log key k []
            ∙ ap (λ (ts : List ℕ). if key == k then ts else Dict.get_or log k [])
                (sym (is_empty-eq-nil _ e)))
        | inr e ↦ rw e (get_or-put log key k _ [])
      ]

  pub times_of-touch :
      (key : String) (log : RequestLog) (k : String) → times_of (touch key log) k ≡ times_of log k
  unfolding touch
  times_of-touch key log k = get_or-put log key k (Dict.get_or log key []) [] ∙ same
    where
      same :
          (if key == k then Dict.get_or log key [] else Dict.get_or log k []) ≡ Dict.get_or log k []
      same = ground (arith, string_eq.equals_iff key k)

-- The requests of the key `k` in the window that ends at `now`.
abbrev pub in_window : Settings → String → ℕ → Passed → Bool
in_window c k now p = p.key == k && is_within c now p.time

-- From the time `last` on the log counts the requests of every window that were let through.
pub record Tracks (c : Settings) (last : ℕ) (h : List Passed) (log : RequestLog) : Type 0 where
  pub counted :
      (k : String) (now : ℕ)
      → last ≤ now
      → count_where (in_window c k now) h ≡ count_where (is_within c now) (times_of log k)
  pub limited : (k : String) → length (times_of log k) ≤ c.max_requests

module _ (c : Settings) where
  pub cleanup-Tracks :
      (key : String) (last now : ℕ) (h : List Passed) (log : RequestLog)
      → last ≤ now
      → Tracks c last h log
      → Tracks c now h (cleanup c key now log)
  cleanup-Tracks key last now h log later t = record {
    counted = λ k at after. rw (times_of-cleanup c key now log k) (elim (Bool-cases (key == k)) [
      | inl e ↦ rw e (
          t.counted k at (omega arith)
          ∙ ap (λ i. count_where (is_within c at) (times_of log i))
              (sym ((string_eq.equals_iff key k).0 e))
          ∙ sym (count-trimmed c now at (times_of log key) after))
      | inr e ↦ rw e (t.counted k at (omega arith))
    ]);
    limited = λ k. rw (times_of-cleanup c key now log k) (elim (Bool-cases (key == k)) [
      | inl e ↦ rw e (omega (arith, length-trimmed c now (times_of log key), t.limited key))
      | inr e ↦ rw e (t.limited k)
    ]);
  }

  touch-Tracks :
      (key : String) (last : ℕ) (h : List Passed) (log : RequestLog)
      → Tracks c last h log
      → Tracks c last h (touch key log)
  touch-Tracks key last h log t = record {
    counted = λ k at after. rw (times_of-touch c key log k) (t.counted k at after);
    limited = λ k. rw (times_of-touch c key log k) (t.limited k);
  }

  record-Tracks :
      (key : String) (now : ℕ) (h : List Passed) (log : RequestLog)
      → length (times_of log key) + 1 ≤ c.max_requests
      → Tracks c now h log
      → Tracks c now
          (h ++ record { key = key; time = now } ∷ [])
          (Dict.put log key (times_of log key ++ now ∷ []))
  record-Tracks key now h log room t = record {
    counted = λ k at after. rw (get_or-put log key k (times_of log key ++ now ∷ []) []) (
        rw (count_where-append (in_window c k at) h (record { key = key; time = now }))
          (elim (Bool-cases (key == k)) [
            | inl e ↦ rw e (
                rw (count_where-append (is_within c at) (times_of log key) now) (
                  ap (λ n. n + (if is_within c at now then 1 else 0))
                    (t.counted k at after
                      ∙ ap (λ i. count_where (is_within c at) (times_of log i))
                          (sym ((string_eq.equals_iff key k).0 e)))))
            | inr e ↦ rw e (omega (arith, t.counted k at after))
          ]));
    limited = λ k.
        rw (get_or-put log key k (times_of log key ++ now ∷ []) []) (elim (Bool-cases (key == k)) [
          | inl e ↦ rw e (omega (arith, length-append (times_of log key) (now ∷ []), room))
          | inr e ↦ rw e (t.limited k)
        ]);
  }

  refusal-passes_none : (now : ℕ) (ts : List ℕ) → passed_by (refusal c now ts) now ≡ []
  refusal-passes_none now [] = refl
  refusal-passes_none now (t ∷ ts) = refl

  -- A verdict and a log, as far as they track what was let through.
  abbrev Follows : ℕ → List Passed → Verdict × RequestLog → Type 0
  Follows now h a = Tracks c now (h ++ passed_by a.0 now) a.1

  append-nothing : (h : List Passed) → h ++ [] ≡ h
  append-nothing [] = refl
  append-nothing (p ∷ h) = ap (λ r. p ∷ r) (append-nothing h)

  check_limit-Follows :
      (key : String) (now : ℕ) (h : List Passed) (log : RequestLog)
      → Tracks c now h log
      → Follows now h (check_limit c key now log)
  unfolding check_limit
  check_limit-Follows key now h log t =
      elim (Bool-cases (leb c.max_requests (length (times_of log key)))) [
        | inl e ↦ rw e (
            rw (refusal-passes_none now (times_of log key))
              (rw append-nothing (touch-Tracks key now h log t)))
        | inr e ↦ rw e (record-Tracks key now h log (ground arith) t)
      ]

  admit-Follows :
      (now last : ℕ) (r : Request) (h : List Passed) (log : RequestLog)
      → last ≤ now
      → Tracks c last h log
      → Follows now h (admit c now r log)
  unfolding admit
  admit-Follows now last r h log later t =
      elim (Bool-cases (not (starts_with r.path "/api/") || r.method == "OPTIONS")) [
        | inl e ↦ rw e (
            rw append-nothing (record {
              counted = λ k at after. t.counted k at (omega arith);
              limited = t.limited;
            }))
        | inr e ↦ rw e (
            check_limit-Follows (get_key c r) now h _
              (cleanup-Tracks (get_key c r) last now h log later t))
      ]

-- The requests arrive in the order of their times, none before `last`.
abbrev pub InOrder : ℕ → List Moment → Type 0
InOrder last [] = Unit
InOrder last (arrives now r ∷ ms) = (last ≤ now) × InOrder now ms
InOrder last (leaves key ∷ ms) = InOrder last ms

abbrev pub last_arrival : ℕ → List Moment → ℕ
last_arrival last [] = last
last_arrival last (arrives now r ∷ ms) = last_arrival now ms
last_arrival last (leaves key ∷ ms) = last_arrival last ms

pub serve-Tracks :
    (c : Settings) (ms : List Moment) (last : ℕ) (h : List Passed) (log : RequestLog)
    → InOrder last ms
    → Tracks c last h log
    → Tracks c (last_arrival last ms) (serve c ms h log).0 (serve c ms h log).1
unfolding serve remaining
serve-Tracks c [] last h log o t = t
serve-Tracks c (arrives now r ∷ ms) last h log o t =
    serve-Tracks c ms now _ _ o.1 (admit-Follows c now last r h log o.0 t)
serve-Tracks c (leaves key ∷ ms) last h log o t =
    serve-Tracks c ms last h _ o (touch-Tracks c key last h log t)

-- Of the requests that arrive in the order of their times, whatever their keys and however the
-- responses interleave, a key gets no more than the maximum through in any window that ends at the last
-- arrival or later.
pub serve-InWindow :
    (c : Settings) (ms : List Moment) (k : String) (now : ℕ)
    → InOrder 0 ms
    → last_arrival 0 ms ≤ now
    → count_where (in_window c k now) (serve c ms [] []).0 ≤ c.max_requests
unfolding Dict.get_or count_where
serve-InWindow c ms k now o after =
    let t =
      serve-Tracks c ms 0 [] [] o
        (record { counted = λ i at later. refl; limited = λ i. omega arith }) in
    let log = (serve c ms [] []).1 in
    omega (
      arith,
      t.counted k now after,
      t.limited k,
      count_where-le-length (is_within c now) (times_of log k),
    )
