-- ===== src/Shlab/Jobs/JobIds.antt =====
-- Job IDs: when they stay distinct, and how `addjob` comes to use one twice.
use sysprog2021s.Prelude.{
  ℕ, ◌+◌, ◌≤◌, ◌≡◌, ◌≢◌, refl, Bool, true, false, ◌&&◌, Option, none, some, List, [], ◌∷◌, ◌==◌,
  if◌then◌else◌, arith,
}
use sysprog2021s.Shlab.Jobs.{
  JobState, Job, JobTable, max_jobs, step_jid, addjob, first_jid, pid2jid,
}
use sysprog2021s.Shlab.Jobs.Table.{has_pid, job_of, AllSound, filled, fill_slot-filled}
use sysprog2021s.Shlab.Jobs.Laws.{IsTable, AllBelow, addjob_lem}

-- How many jobs have a job ID.
unfoldable pub count_jid : ℕ → List Job → ℕ
count_jid n [] = 0
count_jid n (j ∷ js) = (if j.jid == n then 1 else 0) + count_jid n js

count_jid-filled :
    (n : ℕ) (new : Job) (js : List Job)
    → AllSound js
    → n ≢ 0
    → count_jid n (filled new js) ≡ count_jid n js + (if has_pid 0 js && new.jid == n then 1 else 0)
unfolding count_jid filled has_pid
count_jid-filled n new [] a m = refl
count_jid-filled n new (j ∷ js) a m = ground (arith, count_jid-filled n new js)

count_jid-above : (n : ℕ) (js : List Job) → AllBelow n js → count_jid n js ≡ 0
unfolding count_jid
count_jid-above n [] b = refl
count_jid-above n (j ∷ js) b = ground (arith, count_jid-above n js)

-- While the next job ID is above that of every job, an added job is the only one with its job ID,
-- and every other job ID is used as often as before.
pub count_jid-addjob :
    (verbose : Bool) (pid : ℕ) (state : JobState) (cmdline : List ℕ) (t : JobTable) (n : ℕ)
    → IsTable t
    → pid ≢ 0
    → n ≢ 0
    → AllBelow t.nextjid t.jobs
    → let (added, t', out) = addjob verbose pid state cmdline t in
      count_jid n t'.jobs ≡ (if added && t.nextjid == n then 1 else count_jid n t.jobs)
unfolding addjob
count_jid-addjob verbose pid state cmdline t n v m k below =
    let new : Job = record { pid = pid; jid = t.nextjid; state = state; cmdline = cmdline } in
    ground (
      arith,
      fill_slot-filled new t.jobs,
      count_jid-filled n new t.jobs,
      count_jid-above t.nextjid t.jobs,
    )

module _ (verbose : Bool) (state : JobState) (cmdline : List ℕ) where
  addjob-count :
      (pid : ℕ) (t : JobTable) (n : ℕ)
      → AllSound t.jobs
      → n ≢ 0
      → (addjob verbose pid state cmdline t).0 ≡ true
      → ((addjob verbose pid state cmdline t).1.nextjid ≡ step_jid t.nextjid)
        × (count_jid n (addjob verbose pid state cmdline t).1.jobs
            ≡ count_jid n t.jobs + (if t.nextjid == n then 1 else 0))
  unfolding addjob
  addjob-count pid t n a m ok =
      let new : Job = record { pid = pid; jid = t.nextjid; state = state; cmdline = cmdline } in
      ground (arith, fill_slot-filled new t.jobs, count_jid-filled n new t.jobs)

  -- Where the next job ID is MAXJOBS or more, two jobs added in a row make the second one share
  -- job ID 1 with every job that already had it.
  pub addjob_reuses_jid :
      (p q : ℕ) (t : JobTable)
      → IsTable t
      → max_jobs ≤ t.nextjid
      → p ≢ 0
      → has_pid p t.jobs ≡ false
      → (addjob verbose p state cmdline t).0 ≡ true
      → (addjob verbose q state cmdline (addjob verbose p state cmdline t).1).0 ≡ true
      → count_jid 1 (addjob verbose q state cmdline (addjob verbose p state cmdline t).1).1.jobs
        ≡ count_jid 1 t.jobs + 1
  addjob_reuses_jid p q t v le n fresh ok ok' = ground (
    arith,
    addjob_lem verbose p state cmdline t p v n fresh n,
    addjob-count p t 1,
    addjob-count q (addjob verbose p state cmdline t).1 1,
  )

-- `pid2jid` gives the job ID of a pid's job, and 0 where there is none.
abbrev pub jid_of : Option Job → ℕ
jid_of none = 0
jid_of (some j) = j.jid

first_jid-job_of : (p : ℕ) (js : List Job) → first_jid p js ≡ jid_of (job_of p js)
unfolding first_jid job_of
first_jid-job_of p [] = refl
first_jid-job_of p (j ∷ js) = ground (arith, first_jid-job_of p js)

pub pid2jid-job_of : (p : ℕ) (js : List Job) → p ≢ 0 → pid2jid js p ≡ jid_of (job_of p js)
unfolding pid2jid
pid2jid-job_of p js n = ground (arith, first_jid-job_of p js)
