-- ===== src/Cancellation.antt =====
-- src/runtime/cancellation.rs: `CancellationToken`, with the tasks that wait for it and the tasks that
-- cancel it. Every atomic access, and every call of the notifier, is one turn of a schedule. The
-- notifier, `tokio::sync::Notify`, is an argument.
pub mod Wakeups
use spark_x_distributed_quer.Base.{
  ℕ, ◌≡◌, Bool, true, false, Option, none, some, List, [], ◌∷◌, get_elem?, set, if◌then◌else◌,
}
use spark_x_distributed_quer.Error.{Result, ok, err, cancelled}

-- `Notify`, with a waiter known by a number. What its documentation promises: `notify_waiters` notifies
-- every waiter that is enabled, and no call takes back an enabling or a notification.
pub record Notify {ℓ} (N : Type ℓ) : Type ℓ where
  pub default : N
  pub enable : ℕ → N → N
  pub notify_waiters : N → N
  pub is_enabled : ℕ → N → Bool
  pub is_notified : ℕ → N → Bool
  pub enables : (i : ℕ) (n : N) → is_enabled i (enable i n) ≡ true
  pub keeps_enabled : (i j : ℕ) (n : N) → is_enabled i n ≡ true → is_enabled i (enable j n) ≡ true
  pub stays_enabled :
      (i : ℕ) (n : N) → is_enabled i n ≡ true → is_enabled i (notify_waiters n) ≡ true
  pub notifies : (i : ℕ) (n : N) → is_enabled i n ≡ true → is_notified i (notify_waiters n) ≡ true
  pub keeps_notified :
      (i j : ℕ) (n : N) → is_notified i n ≡ true → is_notified i (enable j n) ≡ true

-- `cancelled().await`: before its first test, past it, enabled, past its second test, and returned.
pub data Waiter : Type 0 where
  calls unregistered registered parked returned : Waiter

-- `cancel()`: before the swap, before the notification, and returned.
pub data Canceller : Type 0 where
  calls swapped returned : Canceller

pub record Token {ℓ} (N : Type ℓ) : Type ℓ where
  pub is_cancelled : Bool
  pub notify : N
  pub waiters : List Waiter
  pub cancellers : List Canceller

pub data Turn : Type 0 where
  waiter canceller : ℕ → Turn

module _ {ℓ} {N : Type ℓ} (notifier : Notify N) where
  abbrev pub new_token : List Waiter → List Canceller → Token N
  new_token waiters cancellers = record {
    is_cancelled = false;
    notify = notifier.default;
    waiters = waiters;
    cancellers = cancellers;
  }

  unfoldable pub check : Token N → Result (Unit {0})
  check t = if t.is_cancelled then err cancelled else ok tt

  unfoldable pub wait_step : Bool → ℕ → N → Waiter → N × Waiter
  wait_step is_set i n Waiter.calls = (n, if is_set then Waiter.returned else Waiter.unregistered)
  wait_step is_set i n Waiter.unregistered = (notifier.enable i n, Waiter.registered)
  wait_step is_set i n Waiter.registered = (n, if is_set then Waiter.returned else Waiter.parked)
  wait_step is_set i n Waiter.parked =
      (n, if notifier.is_notified i n then Waiter.returned else Waiter.parked)
  wait_step is_set i n Waiter.returned = (n, Waiter.returned)

  abbrev pub move_waiter : ℕ → Token N → Option Waiter → Token N
  move_waiter i t none = t
  move_waiter i t (some w) =
      let (n, moved) = wait_step t.is_cancelled i t.notify w in
      record t { notify = n; waiters = set t.waiters i moved }

  -- The swap answers the old value, and only who finds it unset notifies.
  abbrev pub move_canceller : ℕ → Token N → Option Canceller → Token N
  move_canceller j t (some Canceller.calls) = record t {
    is_cancelled = true;
    cancellers =
        set t.cancellers j (if t.is_cancelled then Canceller.returned else Canceller.swapped);
  }
  move_canceller j t (some Canceller.swapped) = record t {
    notify = notifier.notify_waiters t.notify;
    cancellers = set t.cancellers j Canceller.returned;
  }
  move_canceller j t _ = t

  unfoldable pub turn : Turn → Token N → Token N
  unfolding wait_step
  turn (waiter i) t = move_waiter i t (get_elem? t.waiters i)
  turn (canceller j) t = move_canceller j t (get_elem? t.cancellers j)

  unfoldable pub take_turns : List Turn → Token N → Token N
  unfolding turn
  take_turns [] t = t
  take_turns (a ∷ rest) t = take_turns rest (turn a t)
