-- ===== src/RateLimit.antt =====
-- backend/app/middleware/rate_limit.py: the sliding window of requests for each tenant or address.
-- Nothing is awaited between the clean-up and the recording of a request, so this part is one step;
-- the part after `call_next` is another, with other requests between the two.
pub mod Full
pub mod Window
use Prim.Native.String.{◌++◌ as text_append}
use text.Mathlib.Text.{starts_with}
use multi_tenant_agentic_wor.Base.{
  ℕ, zero, suc, ◌+◌, ◌-◌, String, Bool, true, false, not, ◌||◌, Option, none, some, List, [], ◌∷◌,
  ◌++◌, ◌==◌, if◌then◌else◌, leb, max, drop, length, is_empty, string_eq,
}
use multi_tenant_agentic_wor.Base.Dict
use multi_tenant_agentic_wor.Base.Dict.{Dict}

pub record Request : Type 0 where
  pub path : String
  pub method : String
  pub tenant_id : Option String
  pub forwarded_for : Option String
  pub client_host : Option String

-- The times of the requests by key, oldest first.
abbrev pub RequestLog : Type 0
RequestLog = Dict String (List ℕ)

-- What the middleware answers before the request goes on: it is not limited, it is recorded, it is
-- refused with a time to wait, or the refusal itself fails on an empty list.
pub data Verdict : Type 0 where
  unlimited : Verdict
  recorded : (key : String) → Verdict
  too_many : (retry_after : ℕ) → Verdict
  index_error : Verdict

-- `get_settings().RATE_LIMIT_TRUST_FORWARDED`, and `text.split(",")[0].strip()`.
pub record Settings : Type 0 where
  pub trust_forwarded : Bool
  pub first_address : String → String
  pub max_requests : ℕ
  pub window_seconds : ℕ

abbrev pub host_or_unknown : Option String → String
host_or_unknown none = "unknown"
host_or_unknown (some h) = h

abbrev pub forwarded_or : Settings → Option String → String → String
forwarded_or c none host = host
forwarded_or c (some f) host = if f == "" then host else c.first_address f

unfoldable pub client_ip : Settings → Request → String
client_ip c r =
    let host = host_or_unknown r.client_host in
    if c.trust_forwarded then forwarded_or c r.forwarded_for host else host

abbrev pub tenant_key_or : Option String → String → String
tenant_key_or none address = address
tenant_key_or (some t) address = if t == "" then address else text_append "tenant:" t

unfoldable pub get_key : Settings → Request → String
unfolding client_ip
get_key c r = tenant_key_or r.tenant_id (text_append "ip:" (client_ip c r))

-- `ts >= now - window_seconds`.
abbrev pub is_within : Settings → ℕ → ℕ → Bool
is_within c now ts = leb now (ts + c.window_seconds)

-- The index of the first time within the window, or the length.
unfoldable pub first_within : Settings → ℕ → List ℕ → ℕ
first_within c now [] = 0
first_within c now (ts ∷ rest) =
    let i = first_within c now rest in if is_within c now ts then 0 else suc i

unfoldable pub trimmed : Settings → ℕ → List ℕ → List ℕ
unfolding first_within
trimmed c now times = drop (first_within c now times) times

unfoldable pub cleanup : Settings → String → ℕ → RequestLog → RequestLog
unfolding trimmed
cleanup c key now log =
    let left = trimmed c now (Dict.get_or log key []) in
    if is_empty left then Dict.pop log key else Dict.put log key left

-- Reading a `defaultdict` puts the missing key in.
unfoldable pub touch : String → RequestLog → RequestLog
touch key log = Dict.put log key (Dict.get_or log key [])

abbrev pub refusal : Settings → ℕ → List ℕ → Verdict
refusal c now [] = index_error
refusal c now (oldest ∷ times) = too_many (max 1 (oldest + c.window_seconds - now))

-- The test of the limit, after the clean-up.
unfoldable pub check_limit : Settings → String → ℕ → RequestLog → Verdict × RequestLog
unfolding touch
check_limit c key now log =
    let times = Dict.get_or log key [] in
    if leb c.max_requests (length times)
    then (refusal c now times, touch key log)
    else (recorded key, Dict.put log key (times ++ now ∷ []))

-- `dispatch` up to `call_next`.
unfoldable pub admit : Settings → ℕ → Request → RequestLog → Verdict × RequestLog
unfolding get_key cleanup check_limit
admit c now r log =
    if not (starts_with r.path "/api/") || r.method == "OPTIONS"
    then (unlimited, log)
    else check_limit c (get_key c r) now (cleanup c (get_key c r) now log)

-- `dispatch` after `call_next`: the header X-RateLimit-Remaining.
unfoldable pub remaining : Settings → String → RequestLog → ℕ × RequestLog
unfolding touch
remaining c key log = (c.max_requests - length (Dict.get_or log key []), touch key log)

-- What happens at the middleware: a request arrives at a time, or the response of a recorded one leaves.
pub data Moment : Type 0 where
  arrives : (now : ℕ) → Request → Moment
  leaves : (key : String) → Moment

-- A recorded request: its key and its time.
pub record Passed : Type 0 where
  pub key : String
  pub time : ℕ

abbrev pub passed_by : Verdict → ℕ → List Passed
passed_by (recorded key) now = record { key = key; time = now } ∷ []
passed_by _ now = []

-- The log and the requests that were let through, after a sequence of moments.
unfoldable pub serve : Settings → List Moment → List Passed → RequestLog → List Passed × RequestLog
unfolding admit remaining
serve c [] h log = (h, log)
serve c (arrives now r ∷ ms) h log =
    serve c ms (h ++ passed_by (admit c now r log).0 now) (admit c now r log).1
serve c (leaves key ∷ ms) h log = serve c ms h (remaining c key log).1
