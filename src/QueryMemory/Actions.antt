-- ===== src/QueryMemory/Actions.antt =====
-- src/runtime/memory.rs: every action of a client keeps the account.
use spark_x_distributed_quer.Base.{
  ℕ, ◌+◌, ◌-◌, ◌≤◌, ◌≡◌, refl, min, some, arith, get_elem?, set, u64_max, Bool, not, ◌&&◌, ◌==◌,
  subst, Bool-cases, Option-cases, inl, inr, checked_add_u64,
}
use spark_x_distributed_quer.Error.{ok, Result-cases}
use spark_x_distributed_quer.QueryMemory.{
  MemoryState, next_reserved, release, Client, Action, start_growth, exchange, try_exchange, act,
  System,
}
use spark_x_distributed_quer.QueryMemory.Clients.{
  IsWithin, Keeps, claims-set, highest-set, claim, mark,
}

-- The invariant after an action that keeps what it must.
pub Keeps-IsWithin :
    (s : System) (i : ℕ) (c c' : Client) (m' : MemoryState)
    → get_elem? s.clients i ≡ some c
    → IsWithin s
    → Keeps s.memory c m' c'
    → IsWithin (record { memory = m'; clients = set s.clients i c' })
Keeps-IsWithin s i c c' m' h w k =
    let (up, down, own) =
      highest-set s.clients i s.memory.peak_bytes m'.peak_bytes c c' h k.peak k.written k.covered in
    record {
      exact = omega (arith, k.exact, w.exact, claims-set s.clients i c c' h);
      within = omega (arith, k.within, k.limit);
      ranged = omega (arith, k.limit, w.ranged);
      peak_within = omega (arith, down, k.marked, w.peak_within, k.limit);
      peaked = omega (arith, k.reached, up, own, w.peaked);
    }

-- What the memory must be when a client is to act.
pub record Ready (m : MemoryState) (c : Client) : Type 0 where
  pub held : claim c ≤ m.reserved_bytes
  pub within : m.reserved_bytes ≤ m.limit_bytes
  pub ranged : m.limit_bytes ≤ u64_max
  pub marked : mark c ≤ m.limit_bytes

pub Keeps-refl : (m : MemoryState) (c : Client) → Ready m c → Keeps m c m c
Keeps-refl m c r = record {
  limit = refl;
  exact = refl;
  within = r.within;
  marked = r.marked;
  peak = omega arith;
  written = omega arith;
  covered = omega arith;
  reached = omega arith;
}

pub release-Keeps :
    (m : MemoryState) (bytes amount : ℕ)
    → amount ≤ bytes
    → Ready m (Client.idle bytes)
    → Keeps m (Client.idle bytes) (release amount m) (Client.idle (bytes - amount))
unfolding release
release-Keeps m bytes amount h r = record {
  limit = ground arith;
  exact = ground (arith, h, r.held);
  within = ground (arith, h, r.held, r.within);
  marked = omega arith;
  peak = ground arith;
  written = ground arith;
  covered = ground arith;
  reached = ground (arith, h, r.held);
}

pub next_reserved-bounds :
    (limit current bytes next : ℕ)
    → next_reserved limit current bytes ≡ ok next
    → (next ≡ current + bytes) × (next ≤ limit)
unfolding next_reserved
next_reserved-bounds limit current bytes next h = ground arith

-- A client that moves on without a write.
pub same_bytes-Keeps :
    (m : MemoryState) (c c' : Client)
    → Ready m c
    → claim c' ≡ claim c
    → mark c ≡ 0
    → mark c' ≡ 0
    → Keeps m c m c'
same_bytes-Keeps m c c' r same unmarked unmarked' = record {
  limit = refl;
  exact = omega (arith, same);
  within = r.within;
  marked = omega (arith, unmarked');
  peak = omega arith;
  written = omega arith;
  covered = omega (arith, unmarked);
  reached = omega arith;
}

pub exchange-Keeps :
    (fails : Bool) (bytes current additional next : ℕ) (m : MemoryState)
    → Ready m (Client.loaded bytes current additional)
    → next_reserved m.limit_bytes current additional ≡ ok next
    → Keeps m
        (Client.loaded bytes current additional)
        (exchange fails bytes current additional next m).0
        (exchange fails bytes current additional next m).1
exchange-Keeps fails bytes current additional next m r e =
    let (sum, low) = next_reserved-bounds m.limit_bytes current additional next e in
    elim (Bool-cases (not fails && m.reserved_bytes == current)) [
      | inl swapped ↦
          let same : m.reserved_bytes ≡ current = ground (arith, swapped) in
          rw swapped (record {
            limit = refl;
            exact = omega arith;
            within = low;
            marked = low;
            peak = omega arith;
            written = omega arith;
            covered = omega arith;
            reached = omega arith;
          })
      | inr kept ↦ rw kept (same_bytes-Keeps m _ _ r refl refl refl)
    ]

pub try_exchange-Keeps :
    (fails : Bool) (bytes current additional : ℕ) (m : MemoryState)
    → Ready m (Client.loaded bytes current additional)
    → Keeps m
        (Client.loaded bytes current additional)
        (try_exchange fails bytes current additional m).0
        (try_exchange fails bytes current additional m).1
unfolding try_exchange
try_exchange-Keeps fails bytes current additional m r =
    elim (Result-cases (next_reserved m.limit_bytes current additional)) [
      | inl (next, e) ↦
          rw (e, try_exchange) (exchange-Keeps fails bytes current additional next m r e)
      | inr (inl (_, e)) ↦ rw (e, try_exchange) (same_bytes-Keeps m _ _ r refl refl refl)
      | inr (inr (_, e)) ↦ rw (e, try_exchange) (same_bytes-Keeps m _ _ r refl refl refl)
    ]

pub start_growth-Keeps :
    (bytes additional : ℕ) (m : MemoryState)
    → Ready m (Client.idle bytes)
    → Keeps m
        (Client.idle bytes)
        (start_growth bytes additional m).0
        (start_growth bytes additional m).1
unfolding start_growth
start_growth-Keeps bytes additional m r = elim (Option-cases (checked_add_u64 bytes additional)) [
  | inl over ↦ rw (over, start_growth) (same_bytes-Keeps m _ _ r refl refl refl)
  | inr (next, e) ↦ rw (e, start_growth) (same_bytes-Keeps m _ _ r refl refl refl)
]

pub act-Keeps :
    (action : Action) (m : MemoryState) (c : Client)
    → Ready m c
    → Keeps m c (act action m c).0 (act action m c).1
unfolding act
act-Keeps (Action.grows additional) m (Client.idle bytes) r =
    start_growth-Keeps bytes additional m r
act-Keeps (Action.exchanges fails) m (Client.loaded bytes current additional) r =
    try_exchange-Keeps fails bytes current additional m r
act-Keeps Action.raises_peak m (Client.exchanged bytes additional next) r = record {
  limit = refl;
  exact = refl;
  within = r.within;
  marked = omega arith;
  peak = omega arith;
  written = omega arith;
  covered = omega arith;
  reached = omega arith;
}
act-Keeps (Action.shrinks amount) m (Client.idle bytes) r =
    release-Keeps m bytes (min amount bytes) (omega arith) r
act-Keeps Action.drops m (Client.idle bytes) r =
    let e : bytes - bytes ≡ 0 = omega arith in
    subst (λ n. Keeps m (Client.idle bytes) (release bytes m) (Client.idle n)) e
      (release-Keeps m bytes bytes (omega arith) r)
act-Keeps _ m c r = Keeps-refl m c r
