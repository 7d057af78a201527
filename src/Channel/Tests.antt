-- ===== src/Channel/Tests.antt =====
-- Runs of a channel, and the theorems at inputs that meet their hypotheses.
use cu_cascade.Base.{◌-◌, ◌≡◌, refl, true, false, none, some, [], ◌∷◌, arith}
use cu_cascade.Base.Words.{word_size, sub64}
use cu_cascade.Channel.{
  idle, poll, notified, NotificationChannel, notification_channel, get_notifier, release_notifier,
  notify, wait,
}
use cu_cascade.Channel.Sleeping.{
  Sleepers, enter_all, wake, shutdown_and_wake, release_and_wake, shutdowns, shutdown_wakes_one,
}
use cu_cascade.Channel.Waiting.{gets, releases, happen, history, count_only_falls}

abbrev one_counted : NotificationChannel
one_counted = record { has_been_notified = false; n_active_notifiers = 1; is_running = true }

-- A waiter that sleeps at first is woken by a post, after a spurious wake-up.
post_wakes : (wait ((λ c. c) ∷ notify ∷ []) one_counted).1 ≡ some notified
unfolding wait notify
post_wakes = refl

count_only_falls_example :
    let c = history notification_channel (gets ∷ releases ∷ []) in
    (c.n_active_notifiers ≡ word_size - 1) × ((wait [] c).1 ≡ none)
unfolding history happen get_notifier release_notifier notification_channel
count_only_falls_example =
    count_only_falls (gets ∷ releases ∷ []) (omega arith) (omega arith) refl refl

-- Three threads sleep.
abbrev three_asleep : Sleepers
three_asleep = record { channel = one_counted; asleep = 3; returned = [] }

shutdown_wakes_one_example :
    let u = enter_all 2 (shutdown_and_wake three_asleep) in
    (u.asleep ≡ 2) × (u.returned ≡ shutdowns 3 [])
shutdown_wakes_one_example = shutdown_wakes_one three_asleep 2 2 refl

-- The last notifier wakes all of them.
last_notifier : (release_and_wake three_asleep).returned ≡ idle ∷ idle ∷ idle ∷ []
unfolding release_and_wake release_notifier wake poll sub64
last_notifier = refl
