-- ===== src/Notification/Batch.antt =====
-- The batch of a dispatch: pending jobs of the company, by id, up to the limit.
use cobo_iam_services.Base.{
  ℕ, zero, suc, ◌≤◌, String, ◌≡◌, ◌⊎◌, inl, inr, refl, subst, false, some, List, [], ◌∷◌, ◌==◌,
  ◌&&◌, arith, eq_iff, Bool-cases, In, here, there, length, take, length-take, eqb,
}
use Prim.Native.String.{compare}
use cobo_iam_services.Dict.{Dict, lookup}
use cobo_iam_services.Notification.{
  NotificationJobDto, job_key, pending_of, sort_jobs, insert_job, or_fifty, is_less,
}

-- A job is stored under the key.
abbrev pub IsAt : String → Dict NotificationJobDto → Type 0
IsAt k jobs = (j : NotificationJobDto) × (lookup k jobs ≡ some j)

pub In-cons :
    {j i : NotificationJobDto} {jobs : List NotificationJobDto}
    → In j (i ∷ jobs)
    → (j ≡ i) ⊎ In j jobs
In-cons here = inl refl
In-cons (there m) = inr m

-- The batch of a dispatch.
abbrev pub batch : String → ℕ → Dict NotificationJobDto → List NotificationJobDto
batch company_id limit jobs = take (or_fifty limit) (sort_jobs (pending_of company_id jobs))

-- Every job is stored under its own key.
unfoldable pub IsFiled : Dict NotificationJobDto → Type 0
IsFiled jobs = (k : String) (j : NotificationJobDto) → In (k, j) jobs → k ≡ job_key j

In-IsAt :
    (k : String) (j : NotificationJobDto) (jobs : Dict NotificationJobDto)
    → In (k, j) jobs
    → IsAt k jobs
unfolding lookup
In-IsAt k j _ (here {xs = jobs}) = (j, rw ((eq_iff k k).1 refl) refl)
In-IsAt k j _ (there {y = (i, other)} {xs = jobs} m) = elim (Bool-cases (i == k)) [
  | inl e ↦ (other, rw e refl)
  | inr n ↦ let (found, at) = In-IsAt k j jobs m in (found, rw n at)
]

pending_of-In :
    (company_id : String) (j : NotificationJobDto) (jobs : Dict NotificationJobDto)
    → In j (pending_of company_id jobs)
    → (k : String) × In (k, j) jobs
unfolding pending_of
pending_of-In company_id j [] m = elim m [ ]
pending_of-In company_id j ((k, i) ∷ jobs) m =
    elim (Bool-cases (i.company_id == company_id && i.status == "pending")) [
      | inl is ↦ elim (In-cons (rw is at m)) [
        | inl e ↦ (k, subst (λ h. In (k, j) ((k, h) ∷ jobs)) e here)
        | inr n ↦ let (l, at) = pending_of-In company_id j jobs n in (l, there at)
      ]
      | inr isnt ↦ let (l, at) = pending_of-In company_id j jobs (rw isnt at m) in (l, there at)
    ]

In-insert_job :
    (j i : NotificationJobDto) (jobs : List NotificationJobDto)
    → In j (insert_job i jobs)
    → (j ≡ i) ⊎ In j jobs
unfolding insert_job
In-insert_job j i [] m = In-cons m
In-insert_job j i (h ∷ jobs) m =
    elim (Bool-cases (is_less (compare h.notification_job_id i.notification_job_id))) [
      | inl before ↦ elim (In-cons (rw before at m)) [
        | inl e ↦ inr (subst (λ k. In j (k ∷ jobs)) e here)
        | inr n ↦ elim (In-insert_job j i jobs n) [ inl e ↦ inl e | inr o ↦ inr (there o) ]
      ]
      | inr after ↦ In-cons (rw after at m)
    ]

In-sort_jobs :
    (j : NotificationJobDto) (jobs : List NotificationJobDto) → In j (sort_jobs jobs) → In j jobs
unfolding sort_jobs
In-sort_jobs j [] m = elim m [ ]
In-sort_jobs j (i ∷ jobs) m = elim (In-insert_job j i (sort_jobs jobs) m) [
  | inl e ↦ subst (λ k. In j (k ∷ jobs)) e here
  | inr n ↦ there (In-sort_jobs j jobs n)
]

In-take_jobs :
    (j : NotificationJobDto) (n : ℕ) (jobs : List NotificationJobDto)
    → In j (take n jobs)
    → In j jobs
In-take_jobs j zero jobs m = elim m [ ]
In-take_jobs j (suc n) [] m = elim m [ ]
In-take_jobs j (suc n) (i ∷ jobs) m = elim (In-cons m) [
  | inl e ↦ subst (λ k. In j (k ∷ jobs)) e here
  | inr o ↦ there (In-take_jobs j n jobs o)
]

pub batch-IsAt :
    (company_id : String) (limit : ℕ) (jobs : Dict NotificationJobDto)
    → IsFiled jobs
    → (j : NotificationJobDto) → In j (batch company_id limit jobs)
    → IsAt (job_key j) jobs
unfolding IsFiled
batch-IsAt company_id limit jobs filed j m =
    let pending = pending_of company_id jobs in
    let (k, at) =
      pending_of-In company_id j jobs
        (In-sort_jobs j pending (In-take_jobs j (or_fifty limit) (sort_jobs pending) m)) in
    In-IsAt (job_key j) j jobs (subst (λ i. In (i, j) jobs) (filed k j at) at)

pub limited : (limit : ℕ) → eqb (or_fifty limit) 0 ≡ false
limited limit = elim (Bool-cases (eqb limit 0)) [ inl e ↦ rw e refl | inr n ↦ rw (n, n) refl ]

pub length-batch :
    (company_id : String) (limit : ℕ) (jobs : Dict NotificationJobDto)
    → length (batch company_id limit jobs) ≤ or_fifty limit
length-batch company_id limit jobs =
    omega (arith, length-take (or_fifty limit) (sort_jobs (pending_of company_id jobs)))
