-- ===== src/Jobs/Sound/Failing.antt =====
-- The except sections of execute_job, and mark_job_failed.
use plt_converter.Prelude.{
  inl, inr, Bool-cases, ltb, ℕ, refl, ◌&&◌, Bool, Option, none, some, List, arith,
}
use plt_converter.Jobs.Rows.{
  Metric, is_finalizing, is_settled, is_ready, Message, Job, World, Answer,
}
use plt_converter.Jobs.Billing.{requires_billing, release_failed, persist_release}
use plt_converter.Jobs.Handlers.{fail_now, cancel_now}
use plt_converter.Jobs.Running.{
  is_withdrawn, elapsed, cancel_run, enqueue_retry, fail_transient, fail_run, mark_failed,
}
use plt_converter.Jobs.Life.{apply}
use plt_converter.Jobs.Sound.{IsSoundFor, IsSound}
use plt_converter.Jobs.Sound.Sections.{requeued-IsSound, released-IsSound, counted-IsSound}

pub retry-IsSound :
    (w : World) (started : ℕ) (m : Message) (own : Job) (j : Option Job) (member committed : Bool)
    (leaving : ℕ) (waiting : List ℕ)
    → IsSoundFor j member committed leaving
    → IsSound (
        apply (fail_transient w started m own j) (record {
          job = j;
          member = member;
          waiting = waiting;
          committed = committed;
          leaving = leaving;
        }))
unfolding fail_transient cancel_run enqueue_retry
retry-IsSound w started m own none member committed leaving waiting s = ground arith
retry-IsSound w started m own (some j) member committed leaving waiting s =
    elim (Bool-cases (is_ready j.status)) [
      | inl ready ↦ simp ready s
      | inr running ↦ elim (Bool-cases (is_withdrawn j)) [
        | inl withdrawn ↦
            simp (running, withdrawn)
              (released-IsSound w (cancel_now w j) (cancel_now w j) (Answer.returns none) (some j)
                member committed leaving waiting Metric.metric_cancelled s.retried s.numbered refl
                refl refl)
        | inr wanted ↦ elim (Bool-cases (ltb j.retry_count 1)) [
          | inl few ↦
              simp (running, wanted, few)
                (requeued-IsSound w j w.enqueue member committed leaving waiting (ground arith))
          | inr many ↦
              simp (running, wanted, many)
                (counted-IsSound w j
                  (record (fail_now w m j) { duration = some (elapsed w started) }) Answer.raises
                  (some j) member committed leaving waiting Metric.metric_failed s.retried
                  s.numbered refl refl refl)
        ]
      ]
    ]

pub fail-IsSound :
    (w : World) (started : ℕ) (m : Message) (own : Job) (j : Option Job) (member committed : Bool)
    (leaving : ℕ) (waiting : List ℕ)
    → IsSoundFor j member committed leaving
    → IsSound (
        apply (fail_run w started m own j) (record {
          job = j;
          member = member;
          waiting = waiting;
          committed = committed;
          leaving = leaving;
        }))
unfolding fail_run
fail-IsSound w started m own none member committed leaving waiting s =
    unfold persist_release release_failed requires_billing in ground arith
fail-IsSound w started m own (some j) member committed leaving waiting s =
    elim (Bool-cases (is_ready j.status)) [
      | inl ready ↦ simp ready s
      | inr running ↦ elim (Bool-cases (is_withdrawn j)) [
        | inl withdrawn ↦
            let k : Job = record (cancel_now w j) {
              error = none;
              duration = some (elapsed w started);
            } in
            simp (running, withdrawn)
              (counted-IsSound w k k Answer.raises (some j) member committed leaving waiting
                Metric.metric_cancelled s.retried s.numbered refl refl refl)
        | inr wanted ↦
            simp (running, wanted)
              (counted-IsSound w j (record (fail_now w m j) { duration = some (elapsed w started) })
                Answer.raises (some j) member committed leaving waiting Metric.metric_failed
                s.retried s.numbered refl refl refl)
      ]
    ]

pub mark_failed-IsSound :
    (w : World) (transient : Bool) (m : Message) (j : Option Job) (member committed : Bool)
    (leaving : ℕ) (waiting : List ℕ)
    → IsSoundFor j member committed leaving
    → IsSound (
        apply (mark_failed w transient m j) (record {
          job = j;
          member = member;
          waiting = waiting;
          committed = committed;
          leaving = leaving;
        }))
unfolding mark_failed cancel_run enqueue_retry
mark_failed-IsSound w transient m none member committed leaving waiting s = tt
mark_failed-IsSound w transient m (some j) member committed leaving waiting s =
    elim (Bool-cases (is_settled j.status)) [
      | inl settled ↦ simp settled (unfold requires_billing in ground arith)
      | inr open_job ↦ elim (Bool-cases (is_finalizing j.status)) [
        | inl final ↦ simp (open_job, final) s
        | inr running ↦ elim (Bool-cases (is_withdrawn j)) [
          | inl withdrawn ↦
              simp (open_job, running, withdrawn)
                (released-IsSound w (cancel_now w j) (cancel_now w j) (Answer.returns none) (some j)
                  member committed leaving waiting Metric.metric_cancelled s.retried s.numbered refl
                  refl refl)
          | inr wanted ↦ elim (Bool-cases (transient && ltb j.retry_count 1)) [
            | inl few ↦
                simp (open_job, running, wanted, few)
                  (requeued-IsSound w j w.enqueue member committed leaving waiting (ground arith))
            | inr many ↦
                simp (open_job, running, wanted, many)
                  (counted-IsSound w j (fail_now w m j) (Answer.returns none) (some j) member
                    committed leaving waiting Metric.metric_failed s.retried s.numbered refl refl
                    refl)
          ]
        ]
      ]
    ]
