-- ===== src/Shlab/Jobs.antt =====
-- The job list of shlab-handout/tsh.c and its helper routines. The array `jobs` is a list of
-- MAXJOBS entries, and a pointer to a job is its index. A `pid_t` is a number: no caller passes a
-- negative one. Output is a list of messages.
pub mod Laws
pub mod JobIds
pub mod Table
use sysprog2021s.Prelude.{
  ℕ, zero, suc, ◌+◌, Bool, true, false, not, Option, none, some, List, [], ◌∷◌, ◌++◌, ltb, ◌==◌,
  if◌then◌else◌, get_elem?, set, map, replicate,
}

-- UNDEF, FG, BG and ST.
pub data JobState : Type 0 where
  undef foreground background stopped : JobState

-- `struct job_t`; the command line is a list of bytes.
pub record Job : Type 0 where
  pub pid : ℕ
  pub jid : ℕ
  pub state : JobState
  pub cmdline : List ℕ

abbrev pub is_fg : JobState → Bool
is_fg foreground = true
is_fg _ = false

-- The globals `jobs` and `nextjid`.
pub record JobTable : Type 0 where
  pub jobs : List Job
  pub nextjid : ℕ

abbrev pub max_jobs : ℕ
max_jobs = 16

abbrev pub cleared : Job
cleared = record { pid = 0; jid = 0; state = undef; cmdline = [] }

-- `clearjob` writes all fields; of the command line it writes the terminator only.
unfoldable pub clearjob : Job → Job
clearjob job = cleared

unfoldable pub initjobs : List Job → List Job
unfolding clearjob
initjobs = map clearjob

-- The loop of `maxjid`.
unfoldable pub maxjid_from : ℕ → List Job → ℕ
maxjid_from max [] = max
maxjid_from max (j ∷ js) = maxjid_from (if ltb max j.jid then j.jid else max) js

unfoldable pub maxjid : List Job → ℕ
unfolding maxjid_from
maxjid jobs = maxjid_from 0 jobs

-- What the functions print.
pub data Message : Type 0 where
  added : (jid pid : ℕ) (cmdline : List ℕ) → Message
  too_many_jobs : Message
  job_line : (jid pid : ℕ) (state : JobState) (cmdline : List ℕ) → Message
  started : (jid pid : ℕ) (cmdline : List ℕ) → Message
  stopped_by terminated_by : (jid pid sig : ℕ) → Message
  needs_operand bad_operand : (command : List ℕ) → Message
  no_such_job no_such_process : ℕ → Message
  command_not_found : (command : List ℕ) → Message

-- The loop of `addjob`: the first entry that is free takes the job. `none` is a full list.
unfoldable pub fill_slot : Job → List Job → Option (List Job)
fill_slot new [] = none
fill_slot new (j ∷ js) =
    let rest : Option (List Job) = elim (fill_slot new js) [
      | none ↦ none
      | some js' ↦ some (j ∷ js')
    ] in
    if j.pid == 0 then some (new ∷ js) else rest

-- `nextjid++; if (nextjid > MAXJOBS) nextjid = 1;`
abbrev pub step_jid : ℕ → ℕ
step_jid n = if ltb max_jobs (n + 1) then 1 else n + 1

-- The result is whether the job was added; with `verbose` an added job is announced.
unfoldable pub addjob :
    (verbose : Bool) (pid : ℕ) (state : JobState) (cmdline : List ℕ)
    → JobTable
    → Bool × JobTable × List Message
unfolding fill_slot
addjob verbose pid state cmdline t =
    let new : Job = record { pid = pid; jid = t.nextjid; state = state; cmdline = cmdline } in
    if ltb pid 1 then (false, t, []) else elim (fill_slot new t.jobs) [
      | none ↦ (false, t, too_many_jobs ∷ [])
      | some jobs ↦ (
        true,
        record { jobs = jobs; nextjid = step_jid t.nextjid },
        if verbose then added t.nextjid pid cmdline ∷ [] else [],
      )
    ]

-- The loop of `deletejob`: the first entry with the pid is cleared. `none` if there is none.
unfoldable pub clear_pid : ℕ → List Job → Option (List Job)
unfolding clearjob
clear_pid pid [] = none
clear_pid pid (j ∷ js) =
    let rest : Option (List Job) = elim (clear_pid pid js) [
      | none ↦ none
      | some js' ↦ some (j ∷ js')
    ] in
    if j.pid == pid then some (clearjob j ∷ js) else rest

unfoldable pub deletejob : (pid : ℕ) → JobTable → Bool × JobTable
unfolding clear_pid
deletejob pid t = if ltb pid 1 then (false, t) else elim (clear_pid pid t.jobs) [
  | none ↦ (false, t)
  | some jobs ↦ (true, record { jobs = jobs; nextjid = maxjid jobs + 1 })
]

unfoldable pub fgpid : List Job → ℕ
fgpid [] = 0
fgpid (j ∷ js) = if is_fg j.state then j.pid else fgpid js

-- The loops of `getjobpid` and `getjobjid`, from entry `i` on.
unfoldable pub pid_index : (pid i : ℕ) → List Job → Option ℕ
pid_index pid i [] = none
pid_index pid i (j ∷ js) = if j.pid == pid then some i else pid_index pid (i + 1) js

unfoldable pub getjobpid : List Job → ℕ → Option ℕ
unfolding pid_index
getjobpid jobs pid = if ltb pid 1 then none else pid_index pid 0 jobs

unfoldable pub jid_index : (jid i : ℕ) → List Job → Option ℕ
jid_index jid i [] = none
jid_index jid i (j ∷ js) = if j.jid == jid then some i else jid_index jid (i + 1) js

unfoldable pub getjobjid : List Job → ℕ → Option ℕ
unfolding jid_index
getjobjid jobs jid = if ltb jid 1 then none else jid_index jid 0 jobs

-- The loop of `pid2jid`.
unfoldable pub first_jid : ℕ → List Job → ℕ
first_jid pid [] = 0
first_jid pid (j ∷ js) = if j.pid == pid then j.jid else first_jid pid js

unfoldable pub pid2jid : List Job → ℕ → ℕ
unfolding first_jid
pid2jid jobs pid = if ltb pid 1 then 0 else first_jid pid jobs

unfoldable pub listjobs : List Job → List Message
listjobs [] = []
listjobs (j ∷ js) =
    if not (j.pid == 0) then job_line j.jid j.pid j.state j.cmdline ∷ listjobs js else listjobs js

-- `job->state = state;` through a pointer into the list.
unfoldable pub set_state : ℕ → JobState → List Job → List Job
set_state i s [] = []
set_state zero s (j ∷ js) = record j { state = s } ∷ js
set_state (suc i) s (j ∷ js) = j ∷ set_state i s js
