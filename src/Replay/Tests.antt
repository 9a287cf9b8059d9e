-- ===== src/Replay/Tests.antt =====
-- Runs of the guard, and the theorems at concrete requests.
use decepti_forge.Base.{
  ◌*◌, ◌≡◌, ◌≢◌, refl, [], ◌∷◌, String, Option, some, none, arith, str_eq, if◌then◌else◌,
}
use decepti_forge.Replay.Store.{second, reserve}
use decepti_forge.Replay.Guard.{
  ParsedTime, finite, not_a_number, accepted, refused, check, scope_key,
}
use decepti_forge.Replay.SingleUse.{serve, check_single_use}
use decepti_forge.Replay.Gaps.{check_future_replayed}

abbrev parse : String → Option ParsedTime
parse s =
    if str_eq s "1000"
    then some (finite (1000 * second))
    else (if str_eq s "nan" then some not_a_number else none)

-- Two replays of one nonce: the first attempt is new, the second is refused.
check_twice :
    (check
      (reserve (1001 * second))
      300
      parse
      "org"
      (1001 * second)
      (some "n1")
      (some "1000")
      (check
        (reserve (1000 * second))
        300
        parse
        "org"
        (1000 * second)
        (some "n1")
        (some "1000")
        []).1).0
    ≡ refused 409 "replayed nonce"
unfolding check reserve scope_key
check_twice = refl

check_single_use_example :
    (check (reserve (1200 * second)) 300 parse "org" (1200 * second) (some "n1") (some "1000") (
      serve
        (record { at = 1100 * second; key = "org:n2"; ttl = 301 } ∷ [])
        (check
          (reserve (1000 * second))
          300
          parse
          "org"
          (1000 * second)
          (some "n1")
          (some "1000")
          []).1)).0
    ≢ accepted
unfolding check reserve scope_key
check_single_use_example =
    check_single_use parse 300 "org" "n1" "1000" (1000 * second) (1000 * second) (1000 * second)
      (1200 * second) (1200 * second) []
      (record { at = 1100 * second; key = "org:n2"; ttl = 301 } ∷ []) refl refl (omega arith)
      (omega arith)

check_future_replayed_example :
    (check
      (reserve (1300 * second))
      300
      parse
      "org"
      (1300 * second)
      (some "n1")
      (some "1000")
      (check
        (reserve (800 * second))
        300
        parse
        "org"
        (800 * second)
        (some "n1")
        (some "1000")
        []).1).0
    ≡ accepted
unfolding check reserve scope_key
check_future_replayed_example =
    check_future_replayed parse 300 "org" "n1" "1000" (1000 * second) (800 * second) [] refl
      (omega arith) refl
