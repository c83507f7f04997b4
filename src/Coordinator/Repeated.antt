-- ===== src/Coordinator/Repeated.antt =====
-- src/cluster/coordinator.rs, `cancel_query`: what an accepted cancellation records, and a repeated one.
use spark_x_distributed_quer.Base.{
  ◌≡◌, ◌≢◌, refl, ap, ◌∙◌, String, some, [], ◌∷◌, true, false, arith, str_ord, nat_ord, pair_ord,
  Option-cases, inl, inr, key_eq, key_eq_iff, key_eq_self, if◌then◌else◌,
}
use spark_x_distributed_quer.BTreeMap.{BTreeMap, get}
use spark_x_distributed_quer.BTreeMap.Laws.{get-insert}
use spark_x_distributed_quer.Error.{ok, err}
use spark_x_distributed_quer.Error.Exec.{proceed-eq-ok}
use spark_x_distributed_quer.Protocol.{
  QueryId, CoordinatorMessage, PlanCodec, validate_coordinator_message,
}
use spark_x_distributed_quer.Coordinator.State.{
  StageKey, StageRuntime, Coordinator, coordinator_error,
}
use spark_x_distributed_quer.Coordinator.Status.{has_query}
use spark_x_distributed_quer.Coordinator.Cancel.{
  cancel, cancel_new, cancel_stages, check_cancel, cancellation,
}

pub has_query-cancel_stages :
    (q r : QueryId) (m : BTreeMap StageKey StageRuntime)
    → has_query q (cancel_stages r m) ≡ has_query q m
unfolding has_query cancel_stages
has_query-cancel_stages q r [] = refl
has_query-cancel_stages q r ((key, stage) ∷ rest) = ground (arith, has_query-cancel_stages q r rest)

-- What an accepted cancellation found and did.
pub accepted_cancel :
    (codec : PlanCodec) (q : QueryId) (reason : String) (c : Coordinator) (m : CoordinatorMessage)
    → (cancel codec q reason c).0 ≡ ok m
    → (check_cancel codec q reason c ≡ ok tt)
      × ((cancel codec q reason c).1 ≡ (cancel_new q reason (get q c.cancelled_queries) c).1)
      × ((cancel_new q reason (get q c.cancelled_queries) c).0 ≡ ok m)
unfolding cancel
accepted_cancel codec q reason c m h =
    let (_, e, f) =
      proceed-eq-ok (check_cancel codec q reason c)
        (λ _ d. cancel_new q reason (get q d.cancelled_queries) d) c h in
    (e, rw e refl, f)

-- The state after a cancellation: the reason is on record and the query's stages are still there.
pub after_cancel :
    (q : QueryId) (reason : String) (c : Coordinator) (m : CoordinatorMessage)
    → (cancel_new q reason (get q c.cancelled_queries) c).0 ≡ ok m
    → (get q (cancel_new q reason (get q c.cancelled_queries) c).1.cancelled_queries ≡ some reason)
      × (has_query q (cancel_new q reason (get q c.cancelled_queries) c).1.stages
          ≡ has_query q c.stages)
      × (m ≡ cancellation q reason)
unfolding cancel_new
after_cancel q reason c m h = elim (Option-cases (get q c.cancelled_queries)) [
  | inl fresh ↦
      rw (fresh, cancel_new)
        (
          ground (arith, get-insert q q reason c.cancelled_queries, key_eq_self q),
          has_query-cancel_stages q q c.stages,
          ground (arith, fresh, h),
        )
  | inr (r, e) ↦
      let same : key_eq r reason ≡ true = ground (arith, e, h) in
      let now : r ≡ reason = (key_eq_iff r reason).0 same in
      rw (e, cancel_new) (rw same (e ∙ ap some now, refl, ground (arith, e, same, h)))
]

pub check_cancel_same :
    (codec : PlanCodec) (q : QueryId) (reason : String) (c s : Coordinator)
    → has_query q s.stages ≡ has_query q c.stages
    → check_cancel codec q reason s ≡ check_cancel codec q reason c
unfolding check_cancel
check_cancel_same codec q reason c s e = rw e refl

-- The checks for another reason differ only in the message.
pub check_cancel_other :
    (codec : PlanCodec) (q : QueryId) (reason other : String) (c : Coordinator)
    → check_cancel codec q reason c ≡ ok tt
    → validate_coordinator_message codec (cancellation q other) ≡ ok tt
    → check_cancel codec q other c ≡ ok tt
unfolding check_cancel
check_cancel_other codec q reason other c h valid = rw valid (ground arith)

-- The answer to a cancellation of a query that has a reason on record.
pub cancel_on_record :
    (codec : PlanCodec) (q : QueryId) (reason existing : String) (s : Coordinator)
    → check_cancel codec q reason s ≡ ok tt
    → get q s.cancelled_queries ≡ some existing
    → cancel codec q reason s ≡ (
        if key_eq existing reason
        then (ok (cancellation q reason), s)
        else (err (coordinator_error "query was already cancelled for a different reason"), s))
unfolding cancel cancel_new
cancel_on_record codec q reason existing s checked recorded = rw (checked, recorded) refl

-- What holds after an accepted cancellation.
pub record IsRecorded (codec : PlanCodec) (q : QueryId) (reason : String) (c s : Coordinator)
    (m : CoordinatorMessage) : Type 0 where
  pub recorded : get q s.cancelled_queries ≡ some reason
  pub same_queries : has_query q s.stages ≡ has_query q c.stages
  pub message : m ≡ cancellation q reason
  pub checked : check_cancel codec q reason c ≡ ok tt

pub cancel-IsRecorded :
    (codec : PlanCodec) (q : QueryId) (reason : String) (c : Coordinator) (m : CoordinatorMessage)
    → (cancel codec q reason c).0 ≡ ok m
    → IsRecorded codec q reason c (cancel codec q reason c).1 m
cancel-IsRecorded codec q reason c m h =
    let (checked, state, accepted) = accepted_cancel codec q reason c m h in
    let (recorded, queries, message) = after_cancel q reason c m accepted in
    record {
      recorded = rw state recorded;
      same_queries = rw state queries;
      message = message;
      checked = checked;
    }

-- Cancelling a query again for the same reason answers with the same message and changes nothing.
pub repeated_cancel_changes_nothing :
    (codec : PlanCodec) (q : QueryId) (reason : String) (c : Coordinator) (m : CoordinatorMessage)
    → (cancel codec q reason c).0 ≡ ok m
    → cancel codec q reason (cancel codec q reason c).1 ≡ (ok m, (cancel codec q reason c).1)
repeated_cancel_changes_nothing codec q reason c m h =
    let r = cancel-IsRecorded codec q reason c m h in
    let s = (cancel codec q reason c).1 in
    cancel_on_record codec q reason reason s
      (check_cancel_same codec q reason c s r.same_queries ∙ r.checked) r.recorded
    ∙ rw (key_eq_self reason, r.message) refl

-- Once a query is cancelled, a valid cancellation for another reason is refused, and changes nothing.
pub other_cancel_is_refused :
    (codec : PlanCodec) (q : QueryId) (reason other : String) (c : Coordinator)
    (m : CoordinatorMessage)
    → (cancel codec q reason c).0 ≡ ok m
    → reason ≢ other
    → validate_coordinator_message codec (cancellation q other) ≡ ok tt
    → cancel codec q other (cancel codec q reason c).1 ≡ (
      err (coordinator_error "query was already cancelled for a different reason"),
      (cancel codec q reason c).1,
    )
other_cancel_is_refused codec q reason other c m h different valid =
    let r = cancel-IsRecorded codec q reason c m h in
    let s = (cancel codec q reason c).1 in
    let apart : key_eq reason other ≡ false = ground (arith, key_eq_iff reason other, different) in
    cancel_on_record codec q other reason s
      (check_cancel_same codec q other c s r.same_queries
        ∙ check_cancel_other codec q reason other c r.checked valid)
      r.recorded
    ∙ rw apart refl
