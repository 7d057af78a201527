-- ===== src/Channel/Sleeping.antt =====
-- The threads that sleep in `wait`, and whom src/memory/notification_channel.cpp wakes: `notify_one` wakes
-- one of those that sleep on the condition variable, `notify_all` all of them. A thread that is woken tests the
-- predicate again, before anything else happens to the channel, and sleeps on or returns its status. No thread wakes of itself.
use mathlib.Core.Path.{subst}
use cu_cascade.Base.{
  ℕ, zero, suc, ◌≡◌, refl, ap, ◌∙◌, sym, false, none, some, List, ◌∷◌, ◌==◌, if◌then◌else◌, Option,
  Bool-cases, inl, inr,
}
use cu_cascade.Channel.{
  WaitStatus, shutdown, NotificationChannel, poll, notify, release_notifier, shutdown_channel,
}

-- `returned` has the statuses of the threads that have gone on, the last first.
pub record Sleepers : Type 0 where
  pub channel : NotificationChannel
  pub asleep : ℕ
  pub returned : List WaitStatus

-- The next thread to test the predicate: it returns, or it is one of `asleep + 1` that sleep.
abbrev pub tested : Sleepers → NotificationChannel × Option WaitStatus → Sleepers
tested t (c, none) = record t { channel = c; asleep = suc t.asleep }
tested t (c, some s) = record t { channel = c; returned = s ∷ t.returned }

-- A thread calls `wait`.
unfoldable pub enter : Sleepers → Sleepers
unfolding poll
enter t = tested t (poll t.channel)

-- One of so many sleeping threads is woken, if there is one.
abbrev pub wake_next : Sleepers → ℕ → Sleepers
unfolding poll
wake_next t zero = t
wake_next t (suc n) = tested (record t { asleep = n }) (poll t.channel)

-- As many of the sleeping threads are woken, one after the other.
unfoldable pub wake : ℕ → Sleepers → Sleepers
unfolding wake_next
wake zero t = t
wake (suc n) t = wake n (wake_next t t.asleep)

-- `notify_one`
abbrev pub notify_one : Sleepers → Sleepers
unfolding wake
notify_one t = wake 1 t

-- `notify_all`
abbrev pub notify_all : Sleepers → Sleepers
unfolding wake
notify_all t = wake t.asleep t

unfoldable pub shutdown_and_wake : Sleepers → Sleepers
unfolding notify_one shutdown_channel
shutdown_and_wake t = notify_one (record t { channel = shutdown_channel t.channel })

unfoldable pub notify_and_wake : Sleepers → Sleepers
unfolding notify_one notify
notify_and_wake t = notify_one (record t { channel = notify t.channel })

unfoldable pub release_and_wake : Sleepers → Sleepers
unfolding notify_all release_notifier
release_and_wake t =
    let t' : Sleepers = record t { channel = release_notifier t.channel } in
    if t'.channel.n_active_notifiers == 0 then notify_all t' else t'

-- Threads that go on calling `wait`.
unfoldable pub enter_all : ℕ → Sleepers → Sleepers
enter_all zero t = t
enter_all (suc n) t = enter_all n (enter t)

-- The status of a thread that tests a channel that is shut down.
stopped_poll :
    (c : NotificationChannel)
    → c.is_running ≡ false
    → poll c ≡ (record c { has_been_notified = false }, some shutdown)
unfolding poll
stopped_poll c r = elim (Bool-cases c.has_been_notified) [
  | inl e ↦ rw (e, r) refl
  | inr e ↦ elim (Bool-cases (c.n_active_notifiers == 0)) [
    | inl z ↦ rw (e, z, r) refl
    | inr z ↦ rw (e, z, r) refl
  ]
]

-- So many more threads have returned `shutdown`.
abbrev pub shutdowns : ℕ → List WaitStatus → List WaitStatus
shutdowns zero ss = ss
shutdowns (suc n) ss = shutdowns n (shutdown ∷ ss)

-- Each thread that calls `wait` on a channel that is shut down returns.
enter_stopped :
    (n : ℕ) (t : Sleepers)
    → t.channel.is_running ≡ false
    → ((enter_all n t).asleep ≡ t.asleep) × ((enter_all n t).returned ≡ shutdowns n t.returned)
unfolding enter_all enter
enter_stopped zero t r = (refl, refl)
enter_stopped (suc n) t r =
    subst
      (λ (u : Sleepers).
        ((enter_all n u).asleep ≡ t.asleep)
        × ((enter_all n u).returned ≡ shutdowns n (shutdown ∷ t.returned)))
      (sym (ap (tested t) (stopped_poll t.channel r)))
      (enter_stopped n
        (record t {
          channel = record t.channel { has_been_notified = false };
          returned = shutdown ∷ t.returned;
        })
        r)

woken_one :
    (t : Sleepers) (n : ℕ)
    → t.asleep ≡ suc n
    → t.channel.is_running ≡ false
    → wake 1 t ≡ record t {
      channel = record t.channel { has_been_notified = false };
      asleep = n;
      returned = shutdown ∷ t.returned;
    }
unfolding wake
woken_one t n e r =
    ap (wake_next t) e ∙ ap (tested (record t { asleep = n })) (stopped_poll t.channel r)

-- A shutdown wakes one of the threads that sleep in `wait`, and no other: of n + 1 of them one returns `shutdown`, and
-- n still sleep, however many threads call `wait` afterwards, although each of those returns `shutdown` at once.
pub shutdown_wakes_one :
    (t : Sleepers) (n later : ℕ)
    → t.asleep ≡ suc n
    → let u = enter_all later (shutdown_and_wake t) in
      (u.asleep ≡ n) × (u.returned ≡ shutdowns (suc later) t.returned)
unfolding shutdown_and_wake shutdown_channel
shutdown_wakes_one t n later e =
    let stopped : Sleepers = record t { channel = shutdown_channel t.channel } in
    rw (woken_one stopped n e refl) (
      enter_stopped later
        (record stopped {
          channel = record stopped.channel { has_been_notified = false };
          asleep = n;
          returned = shutdown ∷ t.returned;
        })
        refl)
