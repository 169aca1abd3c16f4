-- ===== src/Shlab/Shell/Steps.antt =====
-- The shell as a step relation: the read/eval loop of shlab-handout/tsh.c is in one of the phases
-- at which SIGCHLD is not blocked, and the handlers may run in each of them. The printing at the
-- end of `eval` is one step.
use sysprog2021s.Prelude.{ℕ, Bool, true, false, ◌≡◌, ◌≢◌, List, [], ◌++◌, replicate}
use sysprog2021s.Shlab.Jobs.{Message, max_jobs, cleared, listjobs}
use sysprog2021s.Shlab.Jobs.Table.{has_pid}
use sysprog2021s.Shlab.Shell.{
  Shell, Signal, Status, forward, reap, print, print_messages, start_job, announce, still_waiting,
  rejected, found, parse_operand, job_at, continue_job,
}

-- At the prompt; behind the start of a background job; between the two halves of `do_bgfg`; behind
-- its second half, before `job->pid` is read again; in `waitfg`; at the end of `eval`.
pub data Phase : Type 0 where
  prompt finishing : Phase
  launched : (pid : ℕ) (cmdline : List ℕ) → Phase
  resuming : (bg : Bool) (index : ℕ) → Phase
  continued : (index : ℕ) → Phase
  waiting : (pid : ℕ) → Phase

-- `fork` returns a pid that no job has: a job's process is reaped only when it is deleted. `skip` is
-- the command `&`. In `pass_on` the state that `fgpid` saw may be any.
pub data Step (verbose : Bool) : Phase → Shell → Phase → Shell → Type 0 where
  run_fg :
      {sh : Shell} (pid : ℕ) (cmdline : List ℕ)
      → pid ≢ 0
      → has_pid pid sh.table.jobs ≡ false
      → Step verbose prompt sh (waiting pid) (start_job verbose false pid cmdline sh)
  run_bg :
      {sh : Shell} (pid : ℕ) (cmdline : List ℕ)
      → pid ≢ 0
      → has_pid pid sh.table.jobs ≡ false
      → Step verbose prompt sh (launched pid cmdline) (start_job verbose true pid cmdline sh)
  tell :
      {sh : Shell} {pid : ℕ} {cmdline : List ℕ}
      → Step verbose (launched pid cmdline) sh finishing (announce pid cmdline sh)
  reject :
      {sh : Shell} (command : List ℕ) (operands : List (List ℕ)) (m : Message)
      → parse_operand command operands sh.table.jobs ≡ rejected m
      → Step verbose prompt sh finishing (print m sh)
  look_up :
      {sh : Shell} (bg : Bool) (command : List ℕ) (operands : List (List ℕ)) (i : ℕ)
      → parse_operand command operands sh.table.jobs ≡ found i
      → Step verbose prompt sh (resuming bg i) sh
  resume_bg :
      {sh : Shell} {i : ℕ} → Step verbose (resuming true i) sh finishing (continue_job true i sh)
  resume_fg :
      {sh : Shell} {i : ℕ}
      → Step verbose (resuming false i) sh (continued i) (continue_job false i sh)
  wait_for :
      {sh : Shell} {i : ℕ} → Step verbose (continued i) sh (waiting (job_at i sh.table.jobs).pid) sh
  end_wait :
      {sh : Shell} {pid : ℕ}
      → still_waiting pid sh ≡ false
      → Step verbose (waiting pid) sh finishing sh
  finish : {sh : Shell} → Step verbose finishing sh prompt (print_messages sh)
  list_all :
      {sh : Shell}
      → Step verbose prompt sh finishing (record sh { out = sh.out ++ listjobs sh.table.jobs })
  skip : {sh : Shell} → Step verbose prompt sh finishing sh
  pass_on :
      {phase : Phase} {sh : Shell} (sig : Signal) (seen : Shell)
      → Step verbose phase sh phase (forward sig seen sh)
  handle :
      {phase : Phase} {sh : Shell} (pid : ℕ) (status : Status)
      → Step verbose phase sh phase (reap pid status sh)

-- The shell when `main` enters its loop.
abbrev pub started_shell : Shell
started_shell = record {
  table = record { jobs = replicate max_jobs cleared; nextjid = 1 };
  stop_msg = false;
  term_msg = false;
  msg_jid = 0;
  msg_pid = 0;
  msg_sig = 0;
  out = [];
  kills = [];
}

pub data IsReachable (verbose : Bool) : Phase → Shell → Type 0 where
  begin : IsReachable verbose prompt started_shell
  further :
      {phase phase' : Phase} {sh sh' : Shell}
      → IsReachable verbose phase sh
      → Step verbose phase sh phase' sh'
      → IsReachable verbose phase' sh'

-- The steps from one state to another.
pub data Steps (verbose : Bool) : Phase → Shell → Phase → Shell → Type 0 where
  done : {phase : Phase} {sh : Shell} → Steps verbose phase sh phase sh
  more :
      {phase phase' phase'' : Phase} {sh sh' sh'' : Shell}
      → Step verbose phase sh phase' sh'
      → Steps verbose phase' sh' phase'' sh''
      → Steps verbose phase sh phase'' sh''
