-- ===== src/Notification/Dispatch.antt =====
-- A dispatch settles the jobs of its batch.
use cobo_iam_services.Base.{
  ℕ, suc, ◌+◌, ◌≤◌, String, ◌≡◌, inl, inr, refl, ap, sym, ◌∙◌, subst, some, List, [], ◌∷◌, ◌==◌,
  arith, eq_iff, Bool-cases, In, here, there, length, ne_of_eq-false,
}
use cobo_iam_services.Base.Results.{Result, ok, Exec, lift, ◌>>=◌}
use cobo_iam_services.Base.Steps.{step-ok}
use cobo_iam_services.Dict.{Dict, lookup, insert, lookup-insert_same, lookup-insert_other}
use cobo_iam_services.Authz.{SubjectRef}
use cobo_iam_services.Notification.{
  NotificationJobDto, DispatchPendingRequest, State, Ports, key, job_key, update_job_status,
  deliver, dispatch_job, dispatch_jobs, dispatch_pending, authorize, or_panic, or_fifty,
  resolve_recipients, recipients_request, list_pending_jobs, create_delivery,
}
use cobo_iam_services.Notification.Batch.{IsAt, batch, IsFiled, batch-IsAt, limited, length-batch}

-- A dispatched job is stored under the key.
abbrev pub IsDone : String → Dict NotificationJobDto → Type 0
IsDone k jobs = (j : NotificationJobDto) × (lookup k jobs ≡ some j) × (j.status ≡ "dispatched")

-- What a step keeps: jobs stay, and dispatched ones stay dispatched.
record Keeps (before after : Dict NotificationJobDto) : Type 0 where
  stays : (k : String) → IsAt k before → IsAt k after
  done : (k : String) → IsDone k before → IsDone k after

abbrev dispatched : NotificationJobDto → NotificationJobDto
dispatched j = record j { status = "dispatched" }

written-Keeps :
    (at : String) (old : NotificationJobDto) (jobs : Dict NotificationJobDto)
    → Keeps jobs (insert at (dispatched old) jobs) × IsDone at (insert at (dispatched old) jobs)
written-Keeps at old jobs = (
  record { stays = stays; done = done },
  (dispatched old, lookup-insert_same at (dispatched old) jobs, refl),
)
  where
    here_done : (k : String) → at ≡ k → IsDone k (insert at (dispatched old) jobs)
    here_done k e =
        subst (λ i. IsDone i (insert at (dispatched old) jobs)) e
          (dispatched old, lookup-insert_same at (dispatched old) jobs, refl)

    stays : (k : String) → IsAt k jobs → IsAt k (insert at (dispatched old) jobs)
    stays k (j, found) = elim (Bool-cases (at == k)) [
      | inl e ↦ let (i, there_now, is) = here_done k ((eq_iff at k).0 e) in (i, there_now)
      | inr n ↦ (j, lookup-insert_other at k (dispatched old) jobs (ne_of_eq-false n) ∙ found)
    ]

    done : (k : String) → IsDone k jobs → IsDone k (insert at (dispatched old) jobs)
    done k (j, found, is) = elim (Bool-cases (at == k)) [
      | inl e ↦ here_done k ((eq_iff at k).0 e)
      | inr n ↦ (j, lookup-insert_other at k (dispatched old) jobs (ne_of_eq-false n) ∙ found, is)
    ]

module _ {O : Type 0} where
  update-Keeps :
      (company_id id : String) (s : State O)
      → IsAt (key company_id id) s.jobs
      → Keeps s.jobs (update_job_status company_id id "dispatched" s).1.jobs
        × IsDone (key company_id id) (update_job_status company_id id "dispatched" s).1.jobs
  unfolding update_job_status
  update-Keeps company_id id s (old, found) =
      rw (update_job_status, found) (written-Keeps (key company_id id) old s.jobs)

Keeps-trans : {a b c : Dict NotificationJobDto} → Keeps a b → Keeps b c → Keeps a c
Keeps-trans p q = record {
  stays = λ k at. q.stays k (p.stays k at);
  done = λ k at. q.done k (p.done k at);
}

ok_inj : {n m : ℕ} → Path (Result ℕ) (ok n) (ok m) → n ≡ m
ok_inj h = cc

module _ {O : Type 0} (ports : Ports O) where
  deliver-jobs :
      (job : NotificationJobDto) (recipients : List String) (s : State O)
      → (deliver ports job recipients s).1.jobs ≡ s.jobs
  unfolding deliver create_delivery
  deliver-jobs job [] s = refl
  deliver-jobs job (r ∷ recipients) s = deliver-jobs job recipients _

  dispatch_job-Keeps :
      (subject : SubjectRef) (job : NotificationJobDto) (s s' : State O)
      → IsAt (job_key job) s.jobs
      → dispatch_job ports subject job s ≡ (ok tt, s')
      → Keeps s.jobs s'.jobs × IsDone (job_key job) s'.jobs
  unfolding dispatch_job
  dispatch_job-Keeps subject job s s' at h =
      let (recipients, resolved, rest) =
        step-ok
          (lift (or_panic ports (resolve_recipients ports (recipients_request ports subject job))))
          _ s s' tt h in
      let (sent, delivered, updated) =
        step-ok (deliver ports job recipients)
          (λ u. update_job_status job.company_id job.notification_job_id "dispatched") s s' tt
          rest in
      let mid = (deliver ports job recipients s).1 in
      let same = deliver-jobs job recipients s in
      let result =
        update-Keeps job.company_id job.notification_job_id mid
          (subst (λ jobs. IsAt (job_key job) jobs) (sym same) at) in
      let next = ap (λ r. r.1) updated in
      let end =
        (update_job_status job.company_id job.notification_job_id "dispatched" mid).1.jobs in
      subst (λ (t : State O). Keeps s.jobs t.jobs × IsDone (job_key job) t.jobs) next
        (subst (λ jobs. Keeps jobs end × IsDone (job_key job) end) same result)

  dispatch_jobs-Keeps :
      (subject : SubjectRef) (jobs : List NotificationJobDto) (d n : ℕ) (s s' : State O)
      → ((j : NotificationJobDto) → In j jobs → IsAt (job_key j) s.jobs)
      → dispatch_jobs ports subject d jobs s ≡ (ok n, s')
      → (n ≡ d + length jobs)
        × Keeps s.jobs s'.jobs
        × ((j : NotificationJobDto) → In j jobs → IsDone (job_key j) s'.jobs)
  unfolding dispatch_jobs
  dispatch_jobs-Keeps subject [] d n s s' at h =
      let count : d ≡ n = ok_inj (ap (λ r. r.0) h) in
      let next = ap (λ r. r.1) h in
      (
        omega (arith, count),
        subst (λ (t : State O). Keeps s.jobs t.jobs) next
            (record { stays = λ k a. a; done = λ k a. a }),
        λ j m. elim m [ ],
      )
  dispatch_jobs-Keeps subject (job ∷ jobs) d n s s' at h =
      let (u, first, rest) =
        step-ok (dispatch_job ports subject job) (λ v. dispatch_jobs ports subject (suc d) jobs) s
          s' n h in
      let mid = (dispatch_job ports subject job s).1 in
      let (keeps, settled) = dispatch_job-Keeps subject job s mid (at job here) first in
      let (count, later, others) =
        dispatch_jobs-Keeps subject jobs (suc d) n mid s'
          (λ j m. keeps.stays (job_key j) (at j (there m))) rest in
      (omega (arith, count), Keeps-trans keeps later, λ j m. settle mid later settled others j m)
    where
      settle :
          (mid : State O)
          → Keeps mid.jobs s'.jobs
          → IsDone (job_key job) mid.jobs
          → ((j : NotificationJobDto) → In j jobs → IsDone (job_key j) s'.jobs)
          → (j : NotificationJobDto) → In j (job ∷ jobs)
          → IsDone (job_key j) s'.jobs
      settle mid later settled others j here = later.done (job_key j) settled
      settle mid later settled others j (there m) = others j m

module _ {O : Type 0} (ports : Ports O) where
  list_pending-batch :
      (company_id : String) (limit : ℕ) (f : List NotificationJobDto → Exec (State O) ℕ)
      (s : State O)
      → (list_pending_jobs company_id (or_fifty limit) >>= f) s
        ≡ f (batch company_id limit s.jobs) s
  unfolding list_pending_jobs
  list_pending-batch company_id limit f s = rw (limited limit) refl

  -- A dispatch that succeeds, where every job is stored under its own key, takes at most the
  -- requested number of jobs (50 by default), counts them, and leaves each of them stored under its
  -- key with status `dispatched`.
  pub dispatch_pending-settles :
      (req : DispatchPendingRequest) (n : ℕ) (s s' : State O)
      → IsFiled s.jobs
      → dispatch_pending ports req s ≡ (ok n, s')
      → (n ≡ length (batch req.subject.company_id req.limit s.jobs))
        × (n ≤ or_fifty req.limit)
        × ((j : NotificationJobDto)
            → In j (batch req.subject.company_id req.limit s.jobs)
            → IsDone (job_key j) s'.jobs)
  unfolding dispatch_pending
  dispatch_pending-settles req n s s' filed h =
      let company_id = req.subject.company_id in
      let (u, granted, rest) =
        step-ok (lift (authorize ports req.subject "notification.dispatch" ""))
          (λ v.
            list_pending_jobs company_id (or_fifty req.limit)
            >>= (λ jobs. dispatch_jobs ports req.subject 0 jobs))
          s s' n h in
      let listed : dispatch_jobs ports req.subject 0 (batch company_id req.limit s.jobs) s
          ≡ (ok n, s') =
        sym (
          list_pending-batch company_id req.limit (λ jobs. dispatch_jobs ports req.subject 0 jobs)
            s)
        ∙ rest in
      let (count, keeps, settled) =
        dispatch_jobs-Keeps ports req.subject (batch company_id req.limit s.jobs) 0 n s s'
          (batch-IsAt company_id req.limit s.jobs filed) listed in
      (
        omega (arith, count),
        omega (arith, count, length-batch company_id req.limit s.jobs),
        settled,
      )
