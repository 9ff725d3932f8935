-- ===== src/Api/RateLimit/Quota.antt =====
-- How many requests of a client a window lets through.
use compliance_engine.Common.{
  ℕ, ◌+◌, ◌≡◌, min, max, String, Bool, true, false, not, ◌&&◌, List, [], ◌∷◌, str_eq, eq_iff, refl,
  arith, Bool-cases, inl, inr, if◌then◌else◌, count, if_again, if_swap, ==_iff,
}
use compliance_engine.Api.RateLimit.{
  Entry, Local, entry, put, current, increment, Request, Reply, counted, is_exempt, dispatch,
}

-- The request is one of this client, and it counts.
abbrev pub counts_for : String → Request → Bool
counts_for ip r = str_eq r.ip ip && not (is_exempt r.path)

abbrev pub is_counted : Reply → Bool
is_counted (counted limit remaining) = true
is_counted _ = false

-- How many of the client's requests go through.
unfoldable pub passed : ℕ → ℕ → String → List Request → Local → ℕ
passed limit window ip [] local = 0
passed limit window ip (r ∷ rs) local =
    let (reply, local') = dispatch limit window r local in
    (if counts_for ip r && is_counted reply then 1 else 0) + passed limit window ip rs local'

pub entry-put :
    (ip j : String) (e : Entry) (local : Local)
    → entry ip (put j e local) ≡ (if str_eq j ip then e else entry ip local)
unfolding entry put
entry-put ip j e [] = refl
entry-put ip j e ((k, d) ∷ local) = elim (Bool-cases (str_eq k j)) [
  | inl same ↦ rw (same, (eq_iff k j).0 same) (if_again (str_eq j ip) e d (entry ip local))
  | inr other ↦
      rw (other, entry-put ip j e local)
        (if_swap (str_eq k ip) (str_eq j ip) d e (entry ip local)
          (λ h. ground (arith, eq_iff k ip, eq_iff j ip, eq_iff k j)))
]

pub current-increment :
    (window : ℕ) (ip j : String) (local : Local)
    → current window ip (increment window j local).1
      ≡ (if str_eq j ip then current window j local + 1 else current window ip local)
unfolding current increment
current-increment window ip j local = rw (entry-put ip j _ local) (elim (Bool-cases (str_eq j ip)) [
  | inl same ↦ rw (same, (==_iff window window).1 refl)
  | inr other ↦ rw other
])

-- Within one window, whatever other clients ask in between, as many of a client's counted
-- requests go through as its quota leaves: those before and these together make the smaller of
-- the limit and the number of its requests. Requests for the three exempt paths use up
-- nothing.
pub passed-min :
    (limit window : ℕ) (ip : String) (rs : List Request) (local : Local)
    → passed limit window ip rs local + min (max limit 1) (current window ip local)
      ≡ min (max limit 1) (current window ip local + count (counts_for ip) rs)
unfolding passed dispatch
passed-min limit window ip [] local = omega arith
passed-min limit window ip (r ∷ rs) local = elim (Bool-cases (is_exempt r.path)) [
  | inl exempt ↦ rw exempt (ground (arith, passed-min limit window ip rs local))
  | inr limited ↦ rw limited (
      ground (
        arith,
        passed-min limit window ip rs (increment window r.ip local).1,
        current-increment window ip r.ip local,
        eq_iff r.ip ip,
      ))
]
