-- ===== src/Api/RateLimit.antt =====
-- `RateLimitMiddleware` of src/platform_backend/api/middleware/security.py: the counts in memory, and
-- in `Redis` those of Redis. A window is the number of a minute, the same for the whole of a request.
pub mod Quota
pub mod Redis
pub mod Failover
mod Tests
use compliance_engine.Policy.Catalog.{given}
use compliance_engine.Common.Text.{split, lstrip, rstrip}
use compliance_engine.Common.{
  ℕ, suc, ◌+◌, ◌-◌, max, String, Bool, true, false, not, ◌&&◌, ◌||◌, Option, none, some, List, [],
  ◌∷◌, str_eq, ◌==◌, ltb, if◌then◌else◌,
}

-- A value of the dict `_local`: a count, and the window that it is of.
pub record Entry : Type 0 where
  pub count : ℕ
  pub window : ℕ

-- The dict, from clients.
abbrev pub Local : Type 0
Local = List (String × Entry)

-- `_local[ip_key]` on the `defaultdict`
unfoldable pub entry : String → Local → Entry
entry ip [] = record { count = 0; window = 0 }
entry ip ((j, e) ∷ local) = if str_eq j ip then e else entry ip local

unfoldable pub put : String → Entry → Local → Local
put ip e [] = (ip, e) ∷ []
put ip e ((j, d) ∷ local) = if str_eq j ip then (j, e) ∷ local else (j, d) ∷ put ip e local

-- The count that a request adds to: that of another window is dropped.
abbrev pub count_in : ℕ → Entry → ℕ
count_in window e = if e.window == window then e.count else 0

unfoldable pub current : ℕ → String → Local → ℕ
unfolding entry
current window ip local = count_in window (entry ip local)

-- `_increment`
unfoldable pub increment : ℕ → String → Local → ℕ × Local
unfolding current put
increment window ip local = (
  current window ip local + 1,
  put ip (record { count = current window ip local + 1; window = window }) local,
)

pub record Request : Type 0 where
  pub path : String
  pub ip : String

-- The request goes on uncounted, or with the two headers, or is answered with 429.
pub data Reply : Type 0 where
  uncounted too_many : Reply
  counted : (limit remaining : ℕ) → Reply

abbrev pub is_exempt : String → Bool
is_exempt path = str_eq path "/health" || str_eq path "/ready" || str_eq path "/openapi.json"

-- `.split(",")[0].strip()`
unfoldable first_stripped : List String → String
unfolding lstrip rstrip
first_stripped [] = ""
first_stripped (s ∷ _) = rstrip (lstrip s)

-- `_client_ip`, of the header `X-Forwarded-For` and the host of the connection
unfoldable pub client_ip : Option String → Option String → String
unfolding split first_stripped
client_ip forwarded host = elim (given forwarded) [
  | some f ↦ first_stripped (split b',' f)
  | none ↦ elim host [ some h ↦ h | none ↦ "unknown" ]
]

-- The reply to a request that is counted as the `count`th.
abbrev pub reply_to : ℕ → ℕ → Reply
reply_to limit count = if ltb limit count then too_many else counted limit (limit - count)

-- `dispatch`, with the limit per minute that the middleware was made with.
unfoldable pub dispatch : ℕ → ℕ → Request → Local → Reply × Local
unfolding increment
dispatch limit_per_minute window r local =
    let (count, local') = increment window r.ip local in
    if is_exempt r.path
    then (uncounted, local)
    else (reply_to (max limit_per_minute 1) count, local')
