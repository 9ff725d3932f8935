-- ===== src/Api/RateLimit/Tests.antt =====
-- A client at its limit.
use compliance_engine.Api.RateLimit.Failover.{
  Answer, answered, lost, refused, dispatch_any, passed_any, passed_any-le,
}
use compliance_engine.Api.RateLimit.Redis.{counter}
use compliance_engine.Common.{◌≤◌, ◌*◌}
use compliance_engine.Common.{◌+◌, ◌≡◌, min, max, refl, List, [], ◌∷◌, count, ℕ, some, arith}
use compliance_engine.Api.RateLimit.{
  Request, current, dispatch, too_many, uncounted, counted, increment, client_ip,
}
use compliance_engine.Api.RateLimit.Redis.{
  replies, replies_redis, dispatch_redis, replies_redis-replies,
}
use compliance_engine.Api.RateLimit.Quota.{passed, counts_for, passed-min}

abbrev ask : Request
ask = record { path = "/scans"; ip = "10.0.0.1" }

abbrev health : Request
health = record ask { path = "/health" }

abbrev other : Request
other = record ask { ip = "10.0.0.2" }

abbrev requests : List Request
requests = ask ∷ health ∷ other ∷ ask ∷ ask ∷ []

two_pass : passed 2 7 "10.0.0.1" requests [] ≡ 2
unfolding passed dispatch
two_pass = refl

third_refused :
    (dispatch 2 7 ask (increment 7 "10.0.0.1" (increment 7 "10.0.0.1" []).1).1).0 ≡ too_many
unfolding dispatch
third_refused = refl

passed-min_example :
    passed 2 7 "10.0.0.1" requests [] + min (max 2 1) (current 7 "10.0.0.1" [])
    ≡ min (max 2 1) (current 7 "10.0.0.1" [] + count (counts_for "10.0.0.1") requests)
passed-min_example = passed-min 2 7 "10.0.0.1" requests []

-- Two minutes, with a request that needs no quota.
abbrev timed : List (ℕ × Request)
timed = (7, ask) ∷ (7, ask) ∷ (7, health) ∷ (8, ask) ∷ []

second_refused : replies_redis 1 timed [] ≡ counted 1 0 ∷ too_many ∷ uncounted ∷ counted 1 0 ∷ []
unfolding replies_redis dispatch_redis
second_refused = refl

forwarded : client_ip (some " 10.0.0.7 , 10.0.0.1") (some "10.0.0.1") ≡ "10.0.0.7"
unfolding client_ip
forwarded = refl

replies_redis-replies_example : replies_redis 1 timed [] ≡ replies 1 timed []
replies_redis-replies_example =
    replies_redis-replies 1 timed (omega arith, (omega arith, (omega arith, (omega arith, tt))))

-- Redis counts the second request without an answer, and the third not at all.
abbrev answers : List (Answer × Request)
answers = (answered, ask) ∷ (lost, ask) ∷ (refused, ask) ∷ []

two_counts : passed_any 1 7 "10.0.0.1" answers [] [] ≡ 2
unfolding passed_any dispatch_any
two_counts = refl

passed_any-le_example :
    passed_any 1 7 "10.0.0.1" answers [] []
      + min (max 1 1) (counter "10.0.0.1" 7 [])
      + min (max 1 1) (current 7 "10.0.0.1" [])
    ≤ 2 * max 1 1
passed_any-le_example = passed_any-le 1 7 "10.0.0.1" answers [] []
