-- ===== src/Api/RateLimit/Failover.antt =====
-- `_increment` of src/platform_backend/api/middleware/security.py where Redis may fail: the request is
-- counted in memory then.
use compliance_engine.Common.{
  ℕ, ◌+◌, ◌*◌, ◌≤◌, min, max, String, ◌&&◌, List, [], ◌∷◌, eq_iff, ==_iff, arith, Bool-cases, inl,
  inr, if◌then◌else◌,
}
use compliance_engine.Api.RateLimit.{Local, current, increment, Request, Reply, is_exempt, dispatch}
use compliance_engine.Api.RateLimit.Quota.{counts_for, is_counted, current-increment}
use compliance_engine.Api.RateLimit.Redis.{
  Counters, counter, incr, dispatch_redis, incr-count, counter-incr,
}

-- Redis answers, or counts and its answer is lost, or does not count.
pub data Answer : Type 0 where
  answered lost refused : Answer

unfoldable pub dispatch_any : ℕ → ℕ → Answer → Request → Counters → Local → Reply × Counters × Local
unfolding dispatch dispatch_redis incr
dispatch_any limit window answered r cs local =
    let (reply, cs') = dispatch_redis limit window r cs in (reply, cs', local)
dispatch_any limit window lost r cs local =
    let (reply, local') = dispatch limit window r local in
    (reply, (if is_exempt r.path then cs else (incr r.ip window cs).1), local')
dispatch_any limit window refused r cs local =
    let (reply, local') = dispatch limit window r local in (reply, cs, local')

unfoldable pub passed_any : ℕ → ℕ → String → List (Answer × Request) → Counters → Local → ℕ
unfolding dispatch_any
passed_any limit window ip [] cs local = 0
passed_any limit window ip ((a, r) ∷ rs) cs local =
    let (reply, cs', local') = dispatch_any limit window a r cs local in
    (if counts_for ip r && is_counted reply then 1 else 0)
    + passed_any limit window ip rs cs' local'

-- However often Redis fails within one window, before or after it counts, and whatever other
-- clients ask in between, no more of a client's counted requests go through than twice the
-- limit, less what each of the two ways of counting has of the client already, up to the
-- limit.
pub passed_any-le :
    (limit window : ℕ) (ip : String) (rs : List (Answer × Request)) (cs : Counters) (local : Local)
    → passed_any limit window ip rs cs local
        + min (max limit 1) (counter ip window cs)
        + min (max limit 1) (current window ip local)
      ≤ 2 * max limit 1
unfolding passed_any dispatch_any dispatch dispatch_redis incr
passed_any-le limit window ip [] cs local = omega arith
passed_any-le limit window ip ((answered, r) ∷ rs) cs local = elim (Bool-cases (is_exempt r.path)) [
  | inl exempt ↦ rw exempt (ground (arith, passed_any-le limit window ip rs cs local))
  | inr limited ↦ rw limited (
      ground (
        arith,
        passed_any-le limit window ip rs (incr r.ip window cs).1 local,
        counter-incr ip r.ip window window cs,
        incr-count r.ip window cs,
        current-increment window ip r.ip local,
        eq_iff r.ip ip,
        ==_iff window window,
      ))
]
passed_any-le limit window ip ((lost, r) ∷ rs) cs local = elim (Bool-cases (is_exempt r.path)) [
  | inl exempt ↦ rw exempt (ground (arith, passed_any-le limit window ip rs cs local))
  | inr limited ↦ rw limited (
      ground (
        arith,
        passed_any-le limit window ip rs (incr r.ip window cs).1 (increment window r.ip local).1,
        counter-incr ip r.ip window window cs,
        incr-count r.ip window cs,
        current-increment window ip r.ip local,
        eq_iff r.ip ip,
        ==_iff window window,
      ))
]
passed_any-le limit window ip ((refused, r) ∷ rs) cs local = elim (Bool-cases (is_exempt r.path)) [
  | inl exempt ↦ rw exempt (ground (arith, passed_any-le limit window ip rs cs local))
  | inr limited ↦ rw limited (
      ground (
        arith,
        passed_any-le limit window ip rs cs (increment window r.ip local).1,
        counter-incr ip r.ip window window cs,
        incr-count r.ip window cs,
        current-increment window ip r.ip local,
        eq_iff r.ip ip,
        ==_iff window window,
      ))
]
