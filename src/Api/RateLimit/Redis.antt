-- ===== src/Api/RateLimit/Redis.antt =====
-- The counts in Redis, and the replies by either way of counting.
use compliance_engine.Common.{
  ℕ, ◌+◌, ◌≤◌, ◌≡◌, max, String, Bool, true, false, ◌&&◌, List, [], ◌∷◌, str_eq, eq_iff, refl, sym,
  ap, ◌∙◌, ◌==◌, ==_iff, arith, Bool-cases, inl, inr, if◌then◌else◌, if_again, if_swap,
}
use compliance_engine.Api.RateLimit.Quota.{entry-put}
use compliance_engine.Api.RateLimit.{
  Local, entry, current, increment, Request, Reply, uncounted, reply_to, is_exempt, dispatch,
}

-- The counters under the keys `ratelimit:{ip}:{window}`. A key lives for 120 seconds from its last
-- `INCR`, longer than its window.
abbrev pub Counters : Type 0
Counters = List ((String × ℕ) × ℕ)

abbrev pub is_counter : String → ℕ → String × ℕ → Bool
is_counter ip window k = str_eq k.0 ip && k.1 == window

unfoldable pub counter : String → ℕ → Counters → ℕ
counter ip window [] = 0
counter ip window ((k, n) ∷ cs) = if is_counter ip window k then n else counter ip window cs

-- `INCR`, which answers with the new count
unfoldable pub incr : String → ℕ → Counters → ℕ × Counters
incr ip window [] = (1, ((ip, window), 1) ∷ [])
incr ip window ((k, n) ∷ cs) =
    let (m, cs') = incr ip window cs in
    if is_counter ip window k then (n + 1, (k, n + 1) ∷ cs) else (m, (k, n) ∷ cs')

-- `dispatch` where Redis answers
unfoldable pub dispatch_redis : ℕ → ℕ → Request → Counters → Reply × Counters
unfolding incr
dispatch_redis limit_per_minute window r cs =
    let (count, cs') = incr r.ip window cs in
    if is_exempt r.path then (uncounted, cs) else (reply_to (max limit_per_minute 1) count, cs')

pub incr-count :
    (ip : String) (window : ℕ) (cs : Counters) → (incr ip window cs).0 ≡ counter ip window cs + 1
unfolding incr counter
incr-count ip window [] = refl
incr-count ip window ((k, n) ∷ cs) = elim (Bool-cases (is_counter ip window k)) [
  | inl hit ↦ rw hit refl
  | inr miss ↦ rw miss (incr-count ip window cs)
]

and_both : (a b : Bool) → (a && b) ≡ true → (a ≡ true) × (b ≡ true)
and_both true b h = (refl, h)
and_both false b h = cc

pub counter-incr :
    (ip j : String) (w v : ℕ) (cs : Counters)
    → counter ip w (incr j v cs).1
      ≡ (if is_counter ip w (j, v) then counter j v cs + 1 else counter ip w cs)
unfolding incr counter
counter-incr ip j w v [] = refl
counter-incr ip j w v (((i, u), n) ∷ cs) = elim (Bool-cases (is_counter j v (i, u))) [
  | inl hit ↦
      let (same_ip, same_window) = and_both (str_eq i j) (u == v) hit in
      rw (hit, (eq_iff i j).0 same_ip, (==_iff u v).0 same_window)
        (if_again (is_counter ip w (j, v)) (n + 1) n (counter ip w cs))
  | inr miss ↦
      rw (miss, counter-incr ip j w v cs)
        (if_swap (is_counter ip w (i, u)) (is_counter ip w (j, v)) n (counter j v cs + 1)
          (counter ip w cs) (λ h. ground (arith, h, miss, eq_iff i ip, eq_iff j ip, eq_iff i j)))
]

current-at :
    (w v : ℕ) (ip j : String) (local : Local)
    → current w ip (increment v j local).1
      ≡ (if str_eq j ip then (if v == w then current v j local + 1 else 0) else current w ip local)
unfolding current increment
current-at w v ip j local =
    rw (entry-put ip j _ local)
      (elim (Bool-cases (str_eq j ip)) [ inl same ↦ rw same | inr other ↦ rw other ])

-- Both have the same counts from the window `last` on.
abbrev pub Agree : ℕ → Counters → Local → Type 0
Agree last cs local =
    ((ip : String) (w : ℕ) → last ≤ w → counter ip w cs ≡ current w ip local)
    × ((ip : String) → (entry ip local).window ≤ last)

increment-Agree :
    (last w : ℕ) (j : String) (cs : Counters) (local : Local)
    → last ≤ w
    → Agree last cs local
    → Agree w (incr j w cs).1 (increment w j local).1
unfolding increment current
increment-Agree last w j cs local h (same, old) = (
  λ ip v later.
      counter-incr ip j v w cs
      ∙ ground (arith, same ip v (omega arith), same j w h, old ip, eq_iff j ip, later, h)
      ∙ sym (current-at v w ip j local),
  λ ip. rw (entry-put ip j _ local) (ground (arith, old ip)),
)

-- Requests with the windows that they arrive in, one after the other.
abbrev pub InOrder : ℕ → List (ℕ × Request) → Type 0
InOrder last [] = Unit
InOrder last ((w, r) ∷ rs) = (last ≤ w) × InOrder w rs

unfoldable pub replies : ℕ → List (ℕ × Request) → Local → List Reply
unfolding dispatch
replies limit [] local = []
replies limit ((w, r) ∷ rs) local =
    let (reply, local') = dispatch limit w r local in reply ∷ replies limit rs local'

unfoldable pub replies_redis : ℕ → List (ℕ × Request) → Counters → List Reply
unfolding dispatch_redis
replies_redis limit [] cs = []
replies_redis limit ((w, r) ∷ rs) cs =
    let (reply, cs') = dispatch_redis limit w r cs in reply ∷ replies_redis limit rs cs'

Agree-later :
    (last w : ℕ) (cs : Counters) (local : Local) → last ≤ w → Agree last cs local → Agree w cs local
Agree-later last w cs local h (same, old) =
    (λ ip v later. same ip v (omega arith), λ ip. omega (arith, old ip))

replies-Agree :
    (limit last : ℕ) (rs : List (ℕ × Request)) (cs : Counters) (local : Local)
    → InOrder last rs
    → Agree last cs local
    → replies_redis limit rs cs ≡ replies limit rs local
unfolding replies replies_redis increment
replies-Agree limit last [] cs local order agree = refl
replies-Agree limit last ((w, r) ∷ rs) cs local (h, order) agree =
    elim (Bool-cases (is_exempt r.path)) [
      | inl exempt ↦ rw exempt (
          ap (λ l. uncounted ∷ l)
            (replies-Agree limit w rs cs local order (Agree-later last w cs local h agree)))
      | inr limited ↦ rw limited (
          rw (incr-count r.ip w cs ∙ ap (λ n. n + 1) (agree.0 r.ip w h)) (
            ap (λ l. reply_to (max limit 1) (current w r.ip local + 1) ∷ l)
              (replies-Agree limit w rs (incr r.ip w cs).1 (increment w r.ip local).1 order
                (increment-Agree last w r.ip cs local h agree))))
    ]

nothing_counted : Agree 0 [] []
unfolding counter current entry
nothing_counted = (λ ip w later. ground arith, λ ip. omega arith)

-- From the start, whatever requests arrive in the order of their windows, the middleware
-- replies to each as it would with the other way of counting: the counters in Redis, one for
-- each client and window, and the counts in memory, one for each client, agree.
pub replies_redis-replies :
    (limit : ℕ) (rs : List (ℕ × Request))
    → InOrder 0 rs
    → replies_redis limit rs [] ≡ replies limit rs []
replies_redis-replies limit rs order = replies-Agree limit 0 rs [] [] order nothing_counted
