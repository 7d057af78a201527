-- ===== src/Channel.antt =====
-- include/memory/notification_channel.hpp and src/memory/notification_channel.cpp. A method runs under
-- the channel's mutex; `wait` sleeps on the condition variable, and takes the changes that the other
-- threads make up to each of its wake-ups. The methods here change the fields; Sleeping has them with the
-- threads that they wake.
pub mod Waiting
pub mod Sleeping
mod Tests
use cu_cascade.Base.{
  ℕ, Bool, true, false, not, ◌||◌, Option, none, some, List, [], ◌∷◌, ◌==◌, if◌then◌else◌,
}
use cu_cascade.Base.Words.{sub64}

pub data WaitStatus : Type 0 where
  idle notified shutdown : WaitStatus

pub record NotificationChannel : Type 0 where
  pub has_been_notified : Bool
  pub n_active_notifiers : ℕ
  pub is_running : Bool

unfoldable pub notification_channel : NotificationChannel
notification_channel = record {
  has_been_notified = false;
  n_active_notifiers = 0;
  is_running = true;
}

-- The constructor of `event_notifier` takes a share of the channel, and leaves its fields alone.
unfoldable pub get_notifier : NotificationChannel → NotificationChannel
get_notifier c = c

unfoldable pub notify : NotificationChannel → NotificationChannel
notify c = record c { has_been_notified = true }

-- The destructor of `event_notifier`. The counter is a `size_t`.
unfoldable pub release_notifier : NotificationChannel → NotificationChannel
release_notifier c = record c { n_active_notifiers = sub64 c.n_active_notifiers 1 }

unfoldable pub shutdown_channel : NotificationChannel → NotificationChannel
shutdown_channel c = record c { is_running = false }

-- The destructor of `notify_on_exit`: `post()`, and then the destructor of the notifier.
unfoldable pub notify_on_exit : NotificationChannel → NotificationChannel
unfolding notify release_notifier
notify_on_exit c = release_notifier (notify c)

-- One evaluation of the predicate of `wait`, and the status if it holds.
unfoldable pub poll : NotificationChannel → NotificationChannel × Option WaitStatus
poll c =
    let c' = record c { has_been_notified = false } in
    if c.has_been_notified || (c.n_active_notifiers == 0 || not c.is_running)
    then (
      c',
      some (if not c.is_running then shutdown else if c.has_been_notified then notified else idle),
    )
    else (c', none)

-- `none` means that the call still sleeps after the given wake-ups.
unfoldable pub wait :
    List (NotificationChannel → NotificationChannel)
    → NotificationChannel
    → NotificationChannel × Option WaitStatus
unfolding poll
wait [] c = poll c
wait (w ∷ ws) c =
    let (c', status) = poll c in elim status [ some s ↦ (c', some s) | none ↦ wait ws (w c') ]
