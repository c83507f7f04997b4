-- ===== src/Scenarios/Waiting.antt =====
-- Two tasks that wait for a token, and one that cancels it between the tests of the first.
use spark_x_distributed_quer.Base.{
  ℕ, zero, suc, ◌≡◌, ◌≢◌, refl, Bool, true, false, ◌||◌, some, List, [], ◌∷◌, get_elem?, ◌==◌,
  arith,
}
use spark_x_distributed_quer.Cancellation.{
  Notify, Waiter, Canceller, Token, Turn, waiter, canceller, take_turns,
}
use spark_x_distributed_quer.Cancellation.Wakeups.{start, no_wakeup_is_lost}

-- A notifier that keeps the set of the enabled waiters and the set of the notified ones.
abbrev Sets : Type 0
Sets = (ℕ → Bool) × (ℕ → Bool)

sets_enable : (i : ℕ) (n : Sets) → ((i == i) || n.0 i) ≡ true
sets_enable i n = ground arith

sets_keep : (i j : ℕ) (n : Sets) → n.0 i ≡ true → ((j == i) || n.0 i) ≡ true
sets_keep i j n h = ground arith

sets_notify : (i : ℕ) (n : Sets) → n.0 i ≡ true → (n.0 i || n.1 i) ≡ true
sets_notify i n h = ground arith

abbrev sets : Notify Sets
sets = record {
  default = (λ _. false, λ _. false);
  enable = λ i n. (λ k. (i == k) || n.0 k, n.1);
  notify_waiters = λ n. (n.0, λ k. n.0 k || n.1 k);
  is_enabled = λ i n. n.0 i;
  is_notified = λ i n. n.1 i;
  enables = sets_enable;
  keeps_enabled = sets_keep;
  stays_enabled = λ i n h. h;
  notifies = sets_notify;
  keeps_notified = λ i j n h. h;
}

abbrev crossed : List Turn
crossed = waiter 0 ∷ waiter 0 ∷ waiter 0 ∷ canceller 0 ∷ waiter 1 ∷ canceller 0 ∷ []

abbrev after : Token Sets
after = take_turns sets crossed (start sets 2 1)

is_set : after.is_cancelled ≡ true
unfolding take_turns
is_set = refl

nobody_notifies : (j : ℕ) → get_elem? after.cancellers j ≢ some Canceller.swapped
unfolding take_turns
nobody_notifies zero h = cc
nobody_notifies (suc j) h = ground (arith, h)

is_parked : get_elem? after.waiters 0 ≡ some Waiter.parked
unfolding take_turns
is_parked = refl

no_wakeup_is_lost_example : sets.is_notified 0 after.notify ≡ true
no_wakeup_is_lost_example = no_wakeup_is_lost sets 2 1 crossed 0 is_set nobody_notifies is_parked
