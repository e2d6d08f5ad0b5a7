-- ===== src/Examples/Fup.antt =====
-- Three subscribers and a scan of them, with a queue that takes every task and one that refuses.
use mathlib.Core.List.{Memᴰ}
use isp.Common.{ℕ, ◌≡◌, refl, true, false, some, none, if◌then◌else◌, [], ◌∷◌, ◌==◌}
use isp.Fup.Scanner.{
  Subscriber, SessionStats, stats_of, is_above, get_active_sessions_above_fup, Fup, Formats, Faults,
  scan_breaches,
}
use isp.Fup.Settled.{scan_breaches_settles, refused_coa_is_lost}
use isp.Fup.Queued.{IsQueued, scan_breaches_queues}

abbrev subscriber : ℕ → ℕ → Subscriber
subscriber id bytes_used = record {
  id = id;
  username = "u";
  nas_ip = "10.0.0.1";
  status = "active";
  is_online = true;
  fup_threshold = 100;
  bytes_used = bytes_used;
  fup_active = false;
  fup_throttle = "1M/1M";
  speed_override = none;
  override_expires_at = none;
}

abbrev over_and_under : Fup
over_and_under = record {
  subscribers = subscriber 7 100 ∷ subscriber 8 40 ∷ subscriber 9 250 ∷ [];
  queue = record { rows = []; next_id = 1 };
}

abbrev formats : Formats
formats = record {
  decimal = λ n. if n == 7 then "7" else "9";
  coa_payload = λ id nas_ip. id ∷ [];
  revert_payload = λ id. some (0 ∷ id ∷ []);
  warning_payload = λ id username pct. id ∷ pct ∷ [];
  throttled_payload = λ id username speed. some (1 ∷ id ∷ []);
}

-- The database refuses to flag subscriber 9.
abbrev one_refused : Faults
one_refused = record {
  refuses_flag = λ id. id == 9;
  refuses_clear = λ id. false;
  refuses_task = λ task. false;
}

abbrev queue_down : Faults
queue_down = record {
  refuses_flag = λ id. false;
  refuses_clear = λ id. false;
  refuses_task = λ task. true;
}

scan_breaches_settles_example :
    ((scan_breaches formats one_refused 5 over_and_under).1 ≡ true)
    × ((r : Subscriber)
        → Memᴰ r (scan_breaches formats one_refused 5 over_and_under).0.subscribers
        → is_above r ≡ true
        → Memᴰ r over_and_under.subscribers × ((r.id == 9) ≡ true))
scan_breaches_settles_example =
    scan_breaches_settles formats one_refused 5 over_and_under (λ x. refl)

scan_breaches_queues_example :
    IsQueued (7 ∷ []) (scan_breaches formats one_refused 5 over_and_under).0.queue.rows
unfolding is_above
scan_breaches_queues_example =
    scan_breaches_queues formats one_refused (λ x. refl) 5 over_and_under (subscriber 7 100)
      (Memᴰ.head refl) refl refl

refused_coa_is_lost_example :
    ((scan_breaches formats queue_down 5 over_and_under).1 ≡ false)
    × ((scan_breaches formats queue_down 5 over_and_under).0.queue ≡ over_and_under.queue)
    × ((y : SessionStats)
        → Memᴰ y (
            get_active_sessions_above_fup
              (scan_breaches formats queue_down 5 over_and_under).0.subscribers)
        → (y.subscriber_id == 7) ≡ false)
unfolding is_above get_active_sessions_above_fup
refused_coa_is_lost_example =
    refused_coa_is_lost formats queue_down 5 over_and_under (stats_of (subscriber 7 100))
      (stats_of (subscriber 9 250) ∷ []) refl refl refl
