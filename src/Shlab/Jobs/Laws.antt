-- ===== src/Shlab/Jobs/Laws.antt =====
-- What the helper routines of the job list promise to the shell.
use sysprog2021s.Prelude.{
  ℕ, ◌+◌, ◌≤◌, ◌<◌, ◌≡◌, ◌≢◌, Bool, true, false, ◌&&◌, none, some, List, [], ◌∷◌, ltb, ◌==◌,
  if◌then◌else◌, length, ◌⊎◌, arith,
}
use sysprog2021s.Shlab.Jobs.{
  JobState, Job, JobTable, too_many_jobs, maxjid, maxjid_from, addjob, deletejob, max_jobs,
}
use sysprog2021s.Shlab.Jobs.Table.{
  has_pid, job_of, AllSound, removed, fill_slot-filled, clear_pid-removed, length-filled,
  length-removed, job_of-filled, filled-AllSound, removed-AllSound, job_of-removed, job_of-absent,
}

pub record IsTable (t : JobTable) : Type 0 where
  pub size : length t.jobs ≡ max_jobs
  pub sound : AllSound t.jobs
  pub next : t.nextjid ≢ 0

abbrev pub new_job : JobTable → ℕ → JobState → List ℕ → Job
new_job t pid state cmdline = record {
  pid = pid;
  jid = t.nextjid;
  state = state;
  cmdline = cmdline;
}

-- `addjob` of a pid that no job has succeeds exactly if an entry is free, and keeps the list well
-- formed. If it succeeds, the pid has the new job with the next job ID; every other pid has the
-- job that it had. If it fails, nothing changes and the failure is reported.
pub addjob_lem :
    (verbose : Bool) (pid : ℕ) (state : JobState) (cmdline : List ℕ) (t : JobTable) (q : ℕ)
    → IsTable t
    → pid ≢ 0
    → has_pid pid t.jobs ≡ false
    → q ≢ 0
    → let (added, t', out) = addjob verbose pid state cmdline t in
      (added ≡ has_pid 0 t.jobs)
      × IsTable t'
      × (job_of q t'.jobs
          ≡ (if added && pid == q then some (new_job t pid state cmdline) else job_of q t.jobs))
      × ((added ≡ true) ⊎ ((t' ≡ t) × (out ≡ too_many_jobs ∷ [])))
unfolding addjob
addjob_lem verbose pid state cmdline t q v n fresh m =
    let new = new_job t pid state cmdline in
    ground (
      arith,
      fill_slot-filled new t.jobs,
      length-filled new t.jobs,
      filled-AllSound new t.jobs,
      job_of-filled new q t.jobs,
    )

abbrev pub AllBelow : ℕ → List Job → Type 0
AllBelow n [] = Unit {0}
AllBelow n (j ∷ js) = (j.jid < n) × AllBelow n js

maxjid_from-le : (max : ℕ) (js : List Job) → max ≤ maxjid_from max js
unfolding maxjid_from
maxjid_from-le max [] = omega arith
maxjid_from-le max (j ∷ js) =
    let higher = if ltb max j.jid then j.jid else max in ground (arith, maxjid_from-le higher js)

AllBelow-maxjid_from : (max n : ℕ) (js : List Job) → maxjid_from max js < n → AllBelow n js
unfolding maxjid_from
AllBelow-maxjid_from max n [] lt = tt
AllBelow-maxjid_from max n (j ∷ js) lt =
    let higher = if ltb max j.jid then j.jid else max in
    ground (arith, AllBelow-maxjid_from higher n js, maxjid_from-le higher js)

pub AllBelow-maxjid : (js : List Job) → AllBelow (maxjid js + 1) js
unfolding maxjid
AllBelow-maxjid js = AllBelow-maxjid_from 0 (maxjid_from 0 js + 1) js (omega arith)

-- `deletejob` of a pid succeeds exactly if a job has it, and keeps the list well formed. Afterwards
-- no job has the pid, every other pid has the job that it had, and after a success the next job ID
-- is above that of every job.
pub deletejob_lem :
    (pid : ℕ) (t : JobTable) (q : ℕ)
    → IsTable t
    → pid ≢ 0
    → q ≢ 0
    → let (deleted, t') = deletejob pid t in
      (deleted ≡ has_pid pid t.jobs)
      × IsTable t'
      × (job_of q t'.jobs ≡ (if pid == q then none else job_of q t.jobs))
      × ((deleted ≡ false) ⊎ AllBelow t'.nextjid t'.jobs)
unfolding deletejob
deletejob_lem pid t q v n m = ground (
  arith,
  clear_pid-removed pid t.jobs,
  length-removed pid t.jobs,
  removed-AllSound pid t.jobs,
  job_of-removed pid q t.jobs,
  AllBelow-maxjid (removed pid t.jobs),
  job_of-absent pid t.jobs,
)
