-- ===== src/Fetch/Pool/Tests.antt =====
-- CheckLinkStatus of two URLs, where the second is answered first.
use source_rudder.Prelude.{◌+◌, ◌*◌, ◌≤◌, refl, false, some, List, [], ◌∷◌, length, Text, bytes}
use source_rudder.Fetch.Surface.{LinkStatus}
use source_rudder.Fetch.Pool.{
  Job, Pool, jobs_from, no_results, workers_for, first_pool, set_at, cancelled, hand, finish, leave,
  Reach, here, later, IsFinished,
}
use source_rudder.Fetch.Pool.Filled.{Answered}
use source_rudder.Fetch.Pool.Finish.{steps, check_link_status-ends, check_link_status-answers}

abbrev two_urls : List Text
two_urls = bytes "http://a/" ∷ bytes "http://b/" ∷ []

abbrev first_job : Job
first_job = record { index = 0; url = bytes "http://a/" }

abbrev second_job : Job
second_job = record { index = 1; url = bytes "http://b/" }

abbrev gave_up : Job → LinkStatus
gave_up j = record { url = j.url; valid = false; status = 0; error = bytes "context canceled" }

abbrev all_answered : Pool
all_answered = record {
  pending = [];
  busy = [];
  idle = 0;
  gone = 2;
  results = some (gave_up first_job) ∷ some (gave_up second_job) ∷ [];
}

both_run : Reach (first_pool two_urls) all_answered
unfolding first_pool jobs_from workers_for no_results set_at
both_run =
    later
      (later
        (later
          (later (later (later here hand) hand)
            (finish [] second_job (first_job ∷ []) (cancelled (bytes "context canceled"))))
          (finish [] first_job [] (cancelled (bytes "context canceled"))))
        leave)
      leave

two_workers : IsFinished two_urls all_answered
unfolding workers_for
two_workers = refl

ends_example : steps both_run ≤ 3 * length two_urls + 8
ends_example = check_link_status-ends two_urls both_run

answers_two_example : Answered two_urls all_answered 1 (bytes "http://b/")
answers_two_example =
    check_link_status-answers two_urls both_run two_workers 1 (bytes "http://b/") refl
