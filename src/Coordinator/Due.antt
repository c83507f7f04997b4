-- ===== src/Coordinator/Due.antt =====
-- src/cluster/coordinator.rs, `advance_time`: what it leaves leased.
use mathlib.Core.Option
use spark_x_distributed_quer.Base.{
  ℕ, ◌<◌, ◌≤◌, ◌+◌, true, [], ◌∷◌, key_eq, ◌≡◌, refl, sym, ap, ◌∙◌, some, String, List, false,
  arith, str_ord, nat_ord, pair_ord, Bool-cases, Option-cases, inl, inr, some_eq, leb, leb→lt,
  subst,
}
use spark_x_distributed_quer.BTreeMap.{BTreeMap, get, Distinct}
use spark_x_distributed_quer.Protocol.{WorkerId}
use spark_x_distributed_quer.Coordinator.State.{
  PartitionRuntime, WorkerRuntime, StageKey, Coordinator, retry_or_fail,
}
use spark_x_distributed_quer.Coordinator.Time.{
  has_worker, is_silent, timed_out_workers, advance_time,
}
use spark_x_distributed_quer.Coordinator.Time.Expiry.{expire, advance_time-stages}
use spark_x_distributed_quer.Coordinator.Lifecycle.{partition_at, at_index}
use spark_x_distributed_quer.Coordinator.Lifecycle.Methods.{at_index-expire_stages}

-- A worker that, if it is registered and alive, was heard within the timeout.
abbrev pub WasHeard : Coordinator → ℕ → WorkerId → Type 0
WasHeard c now_ms w =
    (worker : WorkerRuntime)
    → get w c.workers ≡ some worker
    → worker.alive ≡ true
    → now_ms ≤ worker.last_received_at_ms + c.config.heartbeat_timeout_ms

-- A partition under a lease is under one that still runs, of a worker that was heard.
abbrev pub IsCurrent : Coordinator → ℕ → PartitionRuntime → Type 0
IsCurrent c now_ms (PartitionRuntime.active task worker_id lease started_at_ms) =
    WasHeard c now_ms worker_id × (now_ms < lease.expires_at_ms)
IsCurrent c now_ms (PartitionRuntime.cancelling task worker_id lease) =
    WasHeard c now_ms worker_id × (now_ms < lease.expires_at_ms)
IsCurrent c now_ms _ = Unit

-- A worker that is alive and was not heard within the timeout is among those that time out.
timed_out_workers-silent :
    (now_ms timeout_ms : ℕ) (w : WorkerId) (worker : WorkerRuntime)
    (m : BTreeMap WorkerId WorkerRuntime)
    → get w m ≡ some worker
    → worker.alive ≡ true
    → worker.last_received_at_ms + timeout_ms < now_ms
    → has_worker (timed_out_workers now_ms timeout_ms m) w ≡ true
unfolding get timed_out_workers is_silent
timed_out_workers-silent now_ms timeout_ms w worker [] found alive late =
    absurd (ground (arith, found))
timed_out_workers-silent now_ms timeout_ms w worker ((id, first) ∷ rest) found alive late =
    elim (Bool-cases (key_eq id w)) [
      | inl same ↦
          let is_first : first ≡ worker = some_eq (rw same at found) in
          let out : is_silent now_ms timeout_ms first ≡ true =
            rw is_first (unfold is_silent in ground (arith, alive, late)) in
          rw (out, same) refl
      | inr other ↦
          let later =
            timed_out_workers-silent now_ms timeout_ms w worker rest (rw other at found) alive
              late in
          ground (arith, later)
    ]

retry_or_fail-IsCurrent :
    (maximum attempt : ℕ) (error : String) (now_ms : ℕ) (c : Coordinator)
    → IsCurrent c now_ms (retry_or_fail maximum attempt error)
unfolding retry_or_fail
retry_or_fail-IsCurrent maximum attempt error now_ms c = ground arith

module _ (c : Coordinator) (now_ms : ℕ) where
  abbrev silent : List WorkerId
  silent = timed_out_workers now_ms c.config.heartbeat_timeout_ms c.workers

  heard-WasHeard : (w : WorkerId) → has_worker silent w ≡ false → WasHeard c now_ms w
  heard-WasHeard w heard worker found alive =
      elim (Bool-cases (leb now_ms (worker.last_received_at_ms + c.config.heartbeat_timeout_ms))) [
        | inl within ↦ ground (arith, within)
        | inr beyond ↦
            let late = leb→lt now_ms _ beyond in
            let out =
              timed_out_workers-silent now_ms c.config.heartbeat_timeout_ms w worker c.workers found
                alive late in
            absurd (ground (arith, heard, out))
      ]

  expire-IsCurrent :
      (maximum : ℕ) (p : PartitionRuntime) → IsCurrent c now_ms (expire maximum now_ms silent p)
  unfolding expire
  expire-IsCurrent maximum (PartitionRuntime.active t w l s) =
      elim (Bool-cases (has_worker silent w)) [
        | inl silenced ↦ rw silenced (retry_or_fail-IsCurrent maximum t.attempt _ now_ms c)
        | inr heard ↦ elim (Bool-cases (leb l.expires_at_ms now_ms)) [
          | inl due ↦ rw (heard, due) (retry_or_fail-IsCurrent maximum t.attempt _ now_ms c)
          | inr runs ↦ rw (heard, runs) (heard-WasHeard w heard, leb→lt l.expires_at_ms now_ms runs)
        ]
      ]
  expire-IsCurrent maximum (PartitionRuntime.cancelling t w l) =
      elim (Bool-cases (has_worker silent w)) [
        | inl silenced ↦ rw silenced tt
        | inr heard ↦ elim (Bool-cases (leb l.expires_at_ms now_ms)) [
          | inl due ↦ rw (heard, due) tt
          | inr runs ↦ rw (heard, runs) (heard-WasHeard w heard, leb→lt l.expires_at_ms now_ms runs)
        ]
      ]
  expire-IsCurrent maximum _ = tt

-- After the clock has advanced, every partition that is still leased, active or stopping, is under a
-- lease that runs beyond now, and if its worker was registered and alive before, that worker was heard
-- no longer ago than the heartbeat timeout.
pub advance_time-IsCurrent :
    (now_ms : ℕ) (c : Coordinator) (key : StageKey) (i : ℕ) (p : PartitionRuntime)
    → Distinct c.stages
    → partition_at (advance_time now_ms c).1 key i ≡ some p
    → IsCurrent c now_ms p
unfolding partition_at
advance_time-IsCurrent now_ms c key i p d h =
    let maximum = c.config.max_task_attempts in
    let silent = timed_out_workers now_ms c.config.heartbeat_timeout_ms c.workers in
    let e : Option.map (expire maximum now_ms silent) (at_index i (get key c.stages)) ≡ some p =
      sym (
        ap (λ m. at_index i (get key m)) (advance_time-stages now_ms c d)
        ∙ at_index-expire_stages maximum now_ms silent c.stages key i)
      ∙ h in
    elim (Option-cases (at_index i (get key c.stages))) [
      | inl nothing ↦ absurd (ground (arith, nothing, e))
      | inr (q, f) ↦
          let same : expire maximum now_ms silent q ≡ p = some_eq (rw f at e) in
          subst (IsCurrent c now_ms) same (expire-IsCurrent c now_ms maximum q)
    ]
