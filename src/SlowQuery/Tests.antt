-- ===== src/SlowQuery/Tests.antt =====
-- A slow log on which the theorem on sql/collectors/redis_collector.py applies.
use dbshield.Common.{
  zero, suc, ℕ, ◌<◌, arith, String, ◌≡◌, refl, some, List, [], ◌∷◌, ok, err, exception,
  integrity_error,
}
use dbshield.Common.Among.{Among}
use dbshield.SlowQuery.Collector.{
  Entry, Store, Tried, stored, conflict, attempts, update_or_create_with_retry, redis_detail,
  visit_entries, commit, collect_detail,
}
use dbshield.SlowQuery.Again.{collect_detail_once}

abbrev entry : ℕ → Entry
entry t = record { start_time = t; duration = 12000; command = "KEYS" ∷ "*" ∷ []; client = "" }

abbrev log : List Entry
log = entry 1030 ∷ entry 1020 ∷ entry 990 ∷ []

abbrev store : Store
store = record { details = []; last_cursor = some 1000; now = 1040 }

-- the upsert meets another one, and is tried again
abbrev tries : ℕ → Tried
tries zero = stored
tries (suc zero) = conflict integrity_error
tries (suc (suc n)) = stored

stores : update_or_create_with_retry tries ≡ ok tt
unfolding update_or_create_with_retry attempts
stores = refl

gives_up_test : update_or_create_with_retry (λ _. conflict integrity_error) ≡ err integrity_error
unfolding update_or_create_with_retry attempts
gives_up_test = refl

abbrev md5 : String → String
md5 text = text

abbrev collected : Store
collected = record (collect_detail md5 "redis:6379" (ok log) (ok tt) tries store) { now = 1050 }

collect_detail_once_example :
    ((x : Entry)
      → Among x log
      → 1000 < x.start_time
      → Among (redis_detail md5 "redis:6379" x) collected.details)
    × (collect_detail md5 "redis:6379" (ok log) (err (exception "lost")) tries collected
        ≡ collected)
collect_detail_once_example =
    collect_detail_once md5 "redis:6379" log tries tries (err (exception "lost")) store 1050 stores
      (ground arith)

collected_test :
    (collected.last_cursor ≡ some 1030)
    × (collected.details
        ≡ redis_detail md5 "redis:6379" (entry 1030)
          ∷ redis_detail md5 "redis:6379" (entry 1020)
          ∷ [])
unfolding collect_detail visit_entries commit update_or_create_with_retry attempts
collected_test = (refl, refl)
