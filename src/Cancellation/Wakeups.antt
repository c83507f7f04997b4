-- ===== src/Cancellation/Wakeups.antt =====
-- src/runtime/cancellation.rs: no wake-up is lost.
use spark_x_distributed_quer.Base.{
  ℕ, zero, suc, sym, subst, ◌⊎◌, ◌≡◌, ◌≢◌, refl, Bool, true, false, some, some_eq, List, [], ◌∷◌,
  get_elem?, set, get_elem?-set, arith, ◌==◌, ==_iff, Option-cases, Bool-cases, inl, inr, replicate,
}
use spark_x_distributed_quer.Cancellation.{
  Notify, Waiter, Canceller, Token, Turn, waiter, canceller, new_token, wait_step, move_waiter,
  move_canceller, turn, take_turns,
}

-- What stands in a list after a write to it.
after_set {ℓ} :
    {A : Type ℓ} (xs : List A) (i k : ℕ) (v : A) {a u : A}
    → get_elem? xs i ≡ some a
    → get_elem? (set xs i v) k ≡ some u
    → ((i ≡ k) × (v ≡ u)) ⊎ (get_elem? xs k ≡ some u)
after_set xs i k v h g = elim (Bool-cases (i == k)) [
  | inl same ↦ inl ((==_iff i k).0 same, some_eq (rw (get_elem?-set xs i k v h, same) at g))
  | inr other ↦ inr (rw (get_elem?-set xs i k v h, other) at g)
]

set_here {ℓ} :
    {A : Type ℓ} (xs : List A) (j : ℕ) (v : A) {a : A}
    → get_elem? xs j ≡ some a
    → get_elem? (set xs j v) j ≡ some v
set_here xs j v h = ground (arith, get_elem?-set xs j j v h)

-- A canceller past its swap is still there when another one writes.
still_swapped :
    (cs : List Canceller) (j m : ℕ) (v : Canceller)
    → get_elem? cs j ≡ some Canceller.calls
    → get_elem? cs m ≡ some Canceller.swapped
    → get_elem? (set cs j v) m ≡ some Canceller.swapped
still_swapped cs j m v h x = elim (Bool-cases (j == m)) [
  | inl same ↦
      let here : j ≡ m = (==_iff j m).0 same in
      absurd (ground (arith, h, subst (λ k. get_elem? cs k ≡ some Canceller.swapped) (sym here) x))
  | inr other ↦ rw (get_elem?-set cs j m v h, other) x
]

-- Whether a waiter has enabled its notification, and not returned.
abbrev is_listening : Waiter → Bool
is_listening Waiter.registered = true
is_listening Waiter.parked = true
is_listening _ = false

module _ {ℓ} {N : Type ℓ} (notifier : Notify N) where
  -- Who listens is enabled; and once the flag is set and no canceller has its notification before it,
  -- who is parked is notified.
  record IsAwake (t : Token N) : Type ℓ where
    enabled :
        (i : ℕ) (w : Waiter)
        → get_elem? t.waiters i ≡ some w
        → is_listening w ≡ true
        → notifier.is_enabled i t.notify ≡ true
    woken :
        (i : ℕ)
        → t.is_cancelled ≡ true
        → ((j : ℕ) → get_elem? t.cancellers j ≢ some Canceller.swapped)
        → get_elem? t.waiters i ≡ some Waiter.parked
        → notifier.is_notified i t.notify ≡ true

  -- A waiter's turn keeps the enabled and the notified ones, and leaves a listener enabled.
  wait_step_keeps :
      (is_set : Bool) (i j : ℕ) (n : N) (w : Waiter)
      → notifier.is_enabled j n ≡ true
      → notifier.is_enabled j (wait_step notifier is_set i n w).0 ≡ true
  unfolding wait_step
  wait_step_keeps is_set i j n Waiter.unregistered h = notifier.keeps_enabled j i n h
  wait_step_keeps is_set i j n Waiter.calls h = h
  wait_step_keeps is_set i j n Waiter.registered h = h
  wait_step_keeps is_set i j n Waiter.parked h = h
  wait_step_keeps is_set i j n Waiter.returned h = h

  wait_step_keeps_notified :
      (is_set : Bool) (i j : ℕ) (n : N) (w : Waiter)
      → notifier.is_notified j n ≡ true
      → notifier.is_notified j (wait_step notifier is_set i n w).0 ≡ true
  unfolding wait_step
  wait_step_keeps_notified is_set i j n Waiter.unregistered h = notifier.keeps_notified j i n h
  wait_step_keeps_notified is_set i j n Waiter.calls h = h
  wait_step_keeps_notified is_set i j n Waiter.registered h = h
  wait_step_keeps_notified is_set i j n Waiter.parked h = h
  wait_step_keeps_notified is_set i j n Waiter.returned h = h

  wait_step_listens :
      (is_set : Bool) (i : ℕ) (n : N) (w : Waiter)
      → (is_listening w ≡ true → notifier.is_enabled i n ≡ true)
      → is_listening (wait_step notifier is_set i n w).1 ≡ true
      → notifier.is_enabled i (wait_step notifier is_set i n w).0 ≡ true
  unfolding wait_step
  wait_step_listens is_set i n Waiter.calls f h = ground arith
  wait_step_listens is_set i n Waiter.unregistered f h = notifier.enables i n
  wait_step_listens is_set i n Waiter.registered f h = f refl
  wait_step_listens is_set i n Waiter.parked f h = f refl
  wait_step_listens is_set i n Waiter.returned f h = absurd (ground (arith, h))

  -- Who is parked after its turn, with the flag set, was parked before.
  wait_step_parked :
      (i : ℕ) (n : N) (w : Waiter)
      → (wait_step notifier true i n w).1 ≡ Waiter.parked
      → w ≡ Waiter.parked
  unfolding wait_step
  wait_step_parked i n Waiter.calls h = cc
  wait_step_parked i n Waiter.unregistered h = cc
  wait_step_parked i n Waiter.registered h = cc
  wait_step_parked i n Waiter.parked h = refl
  wait_step_parked i n Waiter.returned h = cc

  waiter-IsAwake :
      (i : ℕ) (t : Token N) (w : Waiter)
      → get_elem? t.waiters i ≡ some w
      → IsAwake t
      → IsAwake (move_waiter notifier i t (some w))
  waiter-IsAwake i t w e a =
      let next = wait_step notifier t.is_cancelled i t.notify w in
      record {
        enabled = λ k v f l. elim (after_set t.waiters i k next.1 e f) [
          | inl (same, moved) ↦
              subst (λ x. notifier.is_enabled x next.0 ≡ true) same
                (wait_step_listens t.is_cancelled i t.notify w (a.enabled i w e) (rw moved l))
          | inr there ↦ wait_step_keeps t.is_cancelled i k t.notify w (a.enabled k v there l)
        ];
        woken = λ k c q f. elim (after_set t.waiters i k next.1 e f) [
          | inl (same, moved) ↦
              let was : w ≡ Waiter.parked =
                wait_step_parked i t.notify w
                  (subst (λ b. (wait_step notifier b i t.notify w).1 ≡ Waiter.parked) c moved) in
              let before = a.woken i c q (subst (λ x. get_elem? t.waiters i ≡ some x) was e) in
              subst (λ x. notifier.is_notified x next.0 ≡ true) same
                (wait_step_keeps_notified t.is_cancelled i i t.notify w before)
          | inr there ↦ wait_step_keeps_notified t.is_cancelled i k t.notify w (a.woken k c q there)
        ];
      }

  canceller-IsAwake :
      (j : ℕ) (t : Token N) (c : Canceller)
      → get_elem? t.cancellers j ≡ some c
      → IsAwake t
      → IsAwake (move_canceller notifier j t (some c))
  canceller-IsAwake j t Canceller.calls e a = record {
    enabled = a.enabled;
    woken = λ k h q f. elim (Bool-cases t.is_cancelled) [
      | inl set_before ↦
          a.woken k set_before
            (λ m x. q m (rw set_before (still_swapped t.cancellers j m Canceller.returned e x))) f
      | inr first ↦ absurd (q j (rw first (set_here t.cancellers j Canceller.swapped e)))
    ];
  }
  canceller-IsAwake j t Canceller.swapped e a = record {
    enabled = λ k v f l. notifier.stays_enabled k t.notify (a.enabled k v f l);
    woken = λ k h q f. notifier.notifies k t.notify (a.enabled k Waiter.parked f refl);
  }
  canceller-IsAwake j t Canceller.returned e a = a

  turn-IsAwake : (m : Turn) (t : Token N) → IsAwake t → IsAwake (turn notifier m t)
  unfolding turn
  turn-IsAwake (waiter i) t a = elim (Option-cases (get_elem? t.waiters i)) [
    | inl nobody ↦ rw (nobody, turn) a
    | inr (w, e) ↦ rw (e, turn) (waiter-IsAwake i t w e a)
  ]
  turn-IsAwake (canceller j) t a = elim (Option-cases (get_elem? t.cancellers j)) [
    | inl nobody ↦ rw (nobody, turn) a
    | inr (c, e) ↦ rw (e, turn) (canceller-IsAwake j t c e a)
  ]

  take_turns-IsAwake :
      (turns : List Turn) (t : Token N) → IsAwake t → IsAwake (take_turns notifier turns t)
  unfolding take_turns
  take_turns-IsAwake [] t a = a
  take_turns-IsAwake (m ∷ rest) t a =
      take_turns-IsAwake rest (turn notifier m t) (turn-IsAwake m t a)

  -- Tasks that have not begun.
  abbrev pub start : ℕ → ℕ → Token N
  start waiters cancellers =
      new_token notifier (replicate waiters Waiter.calls) (replicate cancellers Canceller.calls)

  replicate_at {κ} : {A : Type κ} (n i : ℕ) (x y : A) → get_elem? (replicate n x) i ≡ some y → x ≡ y
  replicate_at zero i x y h = absurd (ground (arith, h))
  replicate_at (suc n) zero x y h = some_eq h
  replicate_at (suc n) (suc i) x y h = replicate_at n i x y h

  start-IsAwake : (waiters cancellers : ℕ) → IsAwake (start waiters cancellers)
  start-IsAwake waiters cancellers = record {
    enabled = λ i w f l.
        let same = replicate_at waiters i Waiter.calls w f in absurd (ground (arith, same, l));
    woken = λ i h q f. absurd (ground (arith, h));
  }

  -- However the tasks that wait for a token and those that cancel it interleave: once the token is
  -- cancelled and no task is between the swap that cancelled it and its notification, every task that
  -- is parked has been notified. No wake-up is lost.
  pub no_wakeup_is_lost :
      (waiters cancellers : ℕ) (turns : List Turn) (i : ℕ)
      → (take_turns notifier turns (start waiters cancellers)).is_cancelled ≡ true
      → ((j : ℕ)
          → get_elem? (take_turns notifier turns (start waiters cancellers)).cancellers j
            ≢ some Canceller.swapped)
      → get_elem? (take_turns notifier turns (start waiters cancellers)).waiters i
        ≡ some Waiter.parked
      → notifier.is_notified i (take_turns notifier turns (start waiters cancellers)).notify ≡ true
  no_wakeup_is_lost waiters cancellers turns i =
      (take_turns-IsAwake turns (start waiters cancellers) (start-IsAwake waiters cancellers)).woken
        i
