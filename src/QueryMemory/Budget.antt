-- ===== src/QueryMemory/Budget.antt =====
-- src/runtime/memory.rs: no schedule reserves more than the limit.
use spark_x_distributed_quer.Base.{
  zero, suc, ℕ, zero, suc, ◌+◌, ◌≤◌, ◌≡◌, refl, max, some, List, [], ◌∷◌, arith, get_elem?,
  replicate, u64_max, false, true, checked_add_u64, none, ap, sym, Bool, ◌∙◌, if◌then◌else◌,
  Option-cases, inl, inr, All, leb,
}
use spark_x_distributed_quer.Error.{Result-cases, ok}
use spark_x_distributed_quer.QueryMemory.{
  MemoryState, new_memory, next_reserved, Client, Action, start_growth, try_exchange, exchange, act,
  System, step_client, run_schedule,
}
use spark_x_distributed_quer.QueryMemory.Clients.{
  IsWithin, claims-get, highest-get, claims, mark, highest,
}
use spark_x_distributed_quer.QueryMemory.Actions.{Keeps-IsWithin, Ready, act-Keeps}

act-Ready :
    (s : System) (i : ℕ) (c : Client)
    → get_elem? s.clients i ≡ some c
    → IsWithin s
    → Ready s.memory c
act-Ready s i c h w = record {
  held = omega (arith, claims-get s.clients i c h, w.exact);
  within = w.within;
  ranged = w.ranged;
  marked = omega (arith, highest-get s.clients i s.memory.peak_bytes c h, w.peak_within);
}

step_client-IsWithin : (a : ℕ × Action) (s : System) → IsWithin s → IsWithin (step_client a s)
unfolding step_client
step_client-IsWithin (i, action) s w = elim (Option-cases (get_elem? s.clients i)) [
  | inl nobody ↦ rw nobody w
  | inr (c, h) ↦ rw h (
      Keeps-IsWithin s i c (act action s.memory c).1 (act action s.memory c).0 h w
        (act-Keeps action s.memory c (act-Ready s i c h w)))
]

run_schedule-IsWithin :
    (schedule : List (ℕ × Action)) (s : System) → IsWithin s → IsWithin (run_schedule schedule s)
unfolding run_schedule
run_schedule-IsWithin [] s w = w
run_schedule-IsWithin (a ∷ rest) s w =
    run_schedule-IsWithin rest (step_client a s) (step_client-IsWithin a s w)

-- A memory that nothing has reserved yet, and its clients.
abbrev pub start : ℕ → ℕ → System
start limit_bytes count = record {
  memory = new_memory limit_bytes;
  clients = replicate count (Client.idle 0);
}

claims_start :
    (n : ℕ)
    → (claims (replicate n (Client.idle 0)) ≡ 0) × (highest 0 (replicate n (Client.idle 0)) ≡ 0)
claims_start zero = (refl, refl)
claims_start (suc n) = let (a, b) = claims_start n in (omega arith, omega arith)

start-IsWithin :
    (limit_bytes count : ℕ) → limit_bytes ≤ u64_max → IsWithin (start limit_bytes count)
unfolding new_memory
start-IsWithin limit_bytes count h =
    let (none_held, none_marked) = claims_start count in
    record {
      exact = omega (arith, none_held);
      within = omega arith;
      ranged = omega (arith, h);
      peak_within = omega (arith, none_marked);
      peaked = omega arith;
    }

-- However the clients of one memory interleave, and whichever exchanges fail: the reserved bytes are
-- the sum of the bytes of the clients' reservations, and at most the limit.
pub memory_is_not_overcommitted :
    (limit_bytes count : ℕ) (schedule : List (ℕ × Action))
    → limit_bytes ≤ u64_max
    → let s = run_schedule schedule (start limit_bytes count) in
      (s.memory.reserved_bytes ≡ claims s.clients)
      × (s.memory.reserved_bytes ≤ s.memory.limit_bytes)
memory_is_not_overcommitted limit_bytes count schedule h =
    let w =
      run_schedule-IsWithin schedule (start limit_bytes count)
        (start-IsWithin limit_bytes count h) in
    (w.exact, w.within)

highest-unmarked : (cs : List Client) (p : ℕ) → All (λ c. mark c ≡ 0) cs → highest p cs ≡ p
highest-unmarked [] p h = refl
highest-unmarked (c ∷ cs) p h = omega (arith, h.0, highest-unmarked cs p h.1)

-- However the clients of one memory interleave: whenever no client is between its exchange and its
-- update of the peak, the recorded peak is at least the reserved bytes, and at most the limit.
pub peak_covers_reservations :
    (limit_bytes count : ℕ) (schedule : List (ℕ × Action))
    → limit_bytes ≤ u64_max
    → All (λ c. mark c ≡ 0) (run_schedule schedule (start limit_bytes count)).clients
    → let m = (run_schedule schedule (start limit_bytes count)).memory in
      (m.reserved_bytes ≤ m.peak_bytes) × (m.peak_bytes ≤ m.limit_bytes)
peak_covers_reservations limit_bytes count schedule h quiet =
    let s = run_schedule schedule (start limit_bytes count) in
    let w =
      run_schedule-IsWithin schedule (start limit_bytes count)
        (start-IsWithin limit_bytes count h) in
    let same = highest-unmarked s.clients s.memory.peak_bytes quiet in
    (omega (arith, same, w.peaked), omega (arith, same, w.peak_within))

-- A growth that no other client disturbs, from the load to the update of the peak.
abbrev pub then_act : Action → MemoryState × Client → MemoryState × Client
then_act action (m, c) = act action m c

-- The loop, where some exchanges fail spuriously before one does not.
unfoldable pub exchange_after : ℕ → MemoryState × Client → MemoryState × Client
exchange_after zero s = then_act (Action.exchanges false) s
exchange_after (suc failures) s = exchange_after failures (then_act (Action.exchanges true) s)

unfoldable pub grow_alone : ℕ → ℕ → MemoryState → Client → MemoryState × Client
unfolding exchange_after
grow_alone failures additional m c =
    then_act Action.raises_peak (exchange_after failures (act (Action.grows additional) m c))

exchange_after-idle :
    (failures bytes : ℕ) (m : MemoryState)
    → exchange_after failures (m, Client.idle bytes) ≡ (m, Client.idle bytes)
unfolding exchange_after act
exchange_after-idle zero bytes m = refl
exchange_after-idle (suc failures) bytes m = exchange_after-idle failures bytes m

try_exchange-ok :
    (fails : Bool) (bytes current additional next : ℕ) (m : MemoryState)
    → next_reserved m.limit_bytes current additional ≡ ok next
    → try_exchange fails bytes current additional m ≡ exchange fails bytes current additional next m
unfolding try_exchange
try_exchange-ok fails bytes current additional next m e = rw (e, try_exchange) refl

try_exchange-refused :
    (fails : Bool) (bytes current additional : ℕ) (m : MemoryState)
    → ¬ ((next : ℕ) × (next_reserved m.limit_bytes current additional ≡ ok next))
    → try_exchange fails bytes current additional m ≡ (m, Client.idle bytes)
unfolding try_exchange
try_exchange-refused fails bytes current additional m fails_all =
    elim (Result-cases (next_reserved m.limit_bytes current additional)) [
      | inl (next, e) ↦ absurd (fails_all (next, e))
      | inr (inl (x, e)) ↦ rw (e, try_exchange) refl
      | inr (inr (x, e)) ↦ rw (e, try_exchange) refl
    ]

-- A spurious failure reads the same value again, or finds the limit exceeded as the next pass would.
exchange_after-loaded :
    (failures bytes additional : ℕ) (m : MemoryState)
    → exchange_after failures (m, Client.loaded bytes m.reserved_bytes additional)
      ≡ try_exchange false bytes m.reserved_bytes additional m
unfolding exchange_after act
exchange_after-loaded zero bytes additional m = refl
exchange_after-loaded (suc failures) bytes additional m =
    elim (Result-cases (next_reserved m.limit_bytes m.reserved_bytes additional)) [
      | inl (next, e) ↦
          ap (exchange_after failures)
            (try_exchange-ok true bytes m.reserved_bytes additional next m e)
          ∙ exchange_after-loaded failures bytes additional m
      | inr other ↦
          let over : ¬ (
              (next : ℕ) × (next_reserved m.limit_bytes m.reserved_bytes additional ≡ ok next)) =
            (λ (next, e). absurd (ground (arith, other, e))) in
          ap (exchange_after failures)
            (try_exchange-refused true bytes m.reserved_bytes additional m over)
          ∙ exchange_after-idle failures bytes m
          ∙ sym (try_exchange-refused false bytes m.reserved_bytes additional m over)
    ]

start_growth-some :
    (bytes additional size : ℕ) (m : MemoryState)
    → checked_add_u64 bytes additional ≡ some size
    → start_growth bytes additional m ≡ (m, Client.loaded bytes m.reserved_bytes additional)
unfolding start_growth
start_growth-some bytes additional size m e = rw (e, start_growth) refl

start_growth-none :
    (bytes additional : ℕ) (m : MemoryState)
    → checked_add_u64 bytes additional ≡ none
    → start_growth bytes additional m ≡ (m, Client.idle bytes)
unfolding start_growth
start_growth-none bytes additional m e = rw (e, start_growth) refl

-- A growth that no other client disturbs ends as soon as one exchange does not fail spuriously, however
-- many do before: if the limit admits its bytes, they are added to the reservation, to the memory and,
-- if they exceed it, to the peak; otherwise neither the reservation nor the memory changes.
pub grow_alone-result :
    (failures bytes additional : ℕ) (m : MemoryState)
    → bytes ≤ m.reserved_bytes
    → m.reserved_bytes ≤ m.limit_bytes
    → m.limit_bytes ≤ u64_max
    → grow_alone failures additional m (Client.idle bytes) ≡ (
        if leb (m.reserved_bytes + additional) m.limit_bytes
        then (
          record m {
            reserved_bytes = m.reserved_bytes + additional;
            peak_bytes = max m.peak_bytes (m.reserved_bytes + additional);
          },
          Client.idle (bytes + additional),
        )
        else (m, Client.idle bytes))
unfolding grow_alone act try_exchange next_reserved
grow_alone-result failures bytes additional m h a b =
    elim (Option-cases (checked_add_u64 bytes additional)) [
      | inl over ↦
          ap (λ s. then_act Action.raises_peak (exchange_after failures s))
            (start_growth-none bytes additional m over)
          ∙ ap (then_act Action.raises_peak) (exchange_after-idle failures bytes m)
          ∙ ground (arith, over)
      | inr (size, e) ↦
          ap (λ s. then_act Action.raises_peak (exchange_after failures s))
            (start_growth-some bytes additional size m e)
          ∙ ap (then_act Action.raises_peak) (exchange_after-loaded failures bytes additional m)
          ∙ ground (arith, e)
    ]
