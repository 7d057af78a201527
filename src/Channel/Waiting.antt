-- ===== src/Channel/Waiting.antt =====
-- When a waiter of the channel goes on, and what the count of notifiers is.
use cu_cascade.Base.{
  ℕ, suc, ◌+◌, ◌-◌, ◌<◌, ◌≡◌, refl, ◌≢◌, inl, inr, true, false, none, some, List, [], ◌∷◌, ◌==◌,
  arith, Bool-cases, ◌%◌,
}
use cu_cascade.Base.Words.{word_size, sub64}
use cu_cascade.Channel.{
  idle, notified, shutdown, NotificationChannel, notification_channel, get_notifier, notify,
  release_notifier, shutdown_channel, wait,
}

-- What the clients of a channel do to it, but for waiting.
pub data Event : Type 0 where
  gets releases posts stops : Event

unfoldable pub happen : NotificationChannel → Event → NotificationChannel
happen c gets = get_notifier c
happen c releases = release_notifier c
happen c posts = notify c
happen c stops = shutdown_channel c

unfoldable pub history : NotificationChannel → List Event → NotificationChannel
history c [] = c
history c (e ∷ es) = history (happen c e) es

abbrev pub releases_in : List Event → ℕ
releases_in [] = 0
releases_in (releases ∷ es) = suc (releases_in es)
releases_in (gets ∷ es) = releases_in es
releases_in (posts ∷ es) = releases_in es
releases_in (stops ∷ es) = releases_in es

-- A post is kept until one waiter has taken it: the next `wait` on a running channel returns `notified`
-- at once, and the one after it, with notifiers counted and no other post, sleeps.
pub post_wakes_once :
    (c : NotificationChannel)
    → c.is_running ≡ true
    → c.n_active_notifiers ≢ 0
    → let first = wait [] (notify c) in
      (first.1 ≡ some notified) × (first.0.has_been_notified ≡ false) × ((wait [] first.0).1 ≡ none)
unfolding wait notify
post_wakes_once c r n = (ground arith, ground arith, ground arith)

-- After a shutdown every `wait` returns `shutdown` at once, whatever was posted and counted.
pub shutdown_ends_waits :
    (ws : List (NotificationChannel → NotificationChannel)) (c : NotificationChannel)
    → (wait ws (shutdown_channel c)).1 ≡ some shutdown
unfolding wait shutdown_channel
shutdown_ends_waits [] c = ground arith
shutdown_ends_waits (w ∷ ws) c = elim (Bool-cases c.has_been_notified) [
  | inl e ↦ rw (e, wait) refl
  | inr e ↦ elim (Bool-cases (c.n_active_notifiers == 0)) [
    | inl z ↦ rw (e, z, wait) refl
    | inr z ↦ rw (e, z, wait) refl
  ]
]

counts :
    (c : NotificationChannel) (es : List Event)
    → c.n_active_notifiers < word_size
    → releases_in es < word_size
    → (history c es).n_active_notifiers
      ≡ (c.n_active_notifiers + (word_size - releases_in es)) % word_size
unfolding history happen get_notifier release_notifier notify shutdown_channel sub64
counts c [] w h = omega arith
counts c (gets ∷ es) w h = counts c es w h
counts c (posts ∷ es) w h = counts _ es w h
counts c (stops ∷ es) w h = counts _ es w h
counts c (releases ∷ es) w h =
    omega (arith, counts (release_notifier c) es (omega arith) (omega arith))

-- The count of notifiers only falls: after any history of a new channel in which 0 < n < 2^64 notifiers
-- were destroyed, however many were created, it is 2^64 - n. If the channel still runs and no post is
-- pending, a `wait` sleeps then, even if no notifier is left: it does not report `idle`.
pub count_only_falls :
    (es : List Event)
    → 0 < releases_in es
    → releases_in es < word_size
    → (history notification_channel es).is_running ≡ true
    → (history notification_channel es).has_been_notified ≡ false
    → let c = history notification_channel es in
      (c.n_active_notifiers ≡ word_size - releases_in es) × ((wait [] c).1 ≡ none)
unfolding notification_channel wait
count_only_falls es p h r n =
    let k = counts notification_channel es (omega arith) h in (omega arith, ground arith)

-- As long as no notifier was destroyed, `wait` on a running channel without a post returns `idle` at
-- once, although any number of notifiers may be alive.
pub never_counted :
    (es : List Event)
    → releases_in es ≡ 0
    → (history notification_channel es).is_running ≡ true
    → (history notification_channel es).has_been_notified ≡ false
    → (wait [] (history notification_channel es)).1 ≡ some idle
unfolding notification_channel wait
never_counted es z r n =
    let k = counts notification_channel es (omega arith) (omega arith) in ground arith
