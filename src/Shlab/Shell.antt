-- ===== src/Shlab/Shell.antt =====
-- `eval`, the built-in commands, `waitfg` and the signal handlers of shlab-handout/tsh.c. The
-- kernel's answers are arguments: the pid that `fork` returns to the shell, and the children that
-- `waitpid` reports. `strcmp` is a parameter. Each function is cut where SIGCHLD is not blocked,
-- since the handler may run there.
pub mod Steps
pub mod Foreground
pub mod Reach
pub mod Waits
use Prim.Native.Nat.{bit_and}
use sysprog2021s.Prelude.{
  ℕ, zero, suc, ◌+◌, Bool, true, false, not, ◌&&◌, Option, none, some, List, [], ◌∷◌, ◌++◌, ltb,
  leb, ◌==◌, if◌then◌else◌, get_elem?,
}
use sysprog2021s.Shlab.Jobs.{
  JobState, undef, foreground, background, stopped, Job, JobTable, Message, started, stopped_by,
  terminated_by, needs_operand, bad_operand, no_such_job, no_such_process, addjob, deletejob, fgpid,
  getjobpid, getjobjid, pid2jid, listjobs, set_state, cleared,
}
use sysprog2021s.Shlab.Parse.{isnumber, atoi_from}

-- The signals that the shell sends.
pub data Signal : Type 0 where
  sigint sigtstp sigcont : Signal

-- `kill(-pid, sig)`.
pub record Kill : Type 0 where
  pub group : ℕ
  pub signal : Signal

-- The globals: the job list, and the message that the handler leaves for `eval`.
pub record Shell : Type 0 where
  pub table : JobTable
  pub stop_msg : Bool
  pub term_msg : Bool
  pub msg_jid : ℕ
  pub msg_pid : ℕ
  pub msg_sig : ℕ
  pub out : List Message
  pub kills : List Kill

-- What `waitpid` says of a child: WIFEXITED, WIFSTOPPED, WIFSIGNALED, or none of them.
pub data Status : Type 0 where
  exited other : Status
  was_stopped signaled : (sig : ℕ) → Status

-- The job of the pid becomes ST; `getjobpid` gives NULL if there is none.
unfoldable pub stop_job : (pid : ℕ) → JobTable → JobTable
stop_job pid t = elim (getjobpid t.jobs pid) [
  | none ↦ t
  | some i ↦ record t { jobs = set_state i stopped t.jobs }
]

-- The round of the loop in `sigchld_handler` for one child, with all signals blocked.
unfoldable pub reap : (pid : ℕ) → Status → Shell → Shell
reap pid exited sh = record sh { table = (deletejob pid sh.table).1 }
reap pid (was_stopped sig) sh = record sh {
  stop_msg = true;
  msg_jid = pid2jid sh.table.jobs pid;
  msg_pid = pid;
  msg_sig = sig;
  table = stop_job pid sh.table;
}
reap pid (signaled sig) sh = record sh {
  term_msg = true;
  msg_jid = pid2jid sh.table.jobs pid;
  msg_pid = pid;
  msg_sig = sig;
  table = (deletejob pid sh.table).1;
}
reap pid other sh = sh

-- The loop: `waitpid` reports these children, and then none.
unfoldable pub sigchld_handler : List (ℕ × Status) → Shell → Shell
sigchld_handler [] sh = sh
sigchld_handler ((pid, status) ∷ rest) sh = sigchld_handler rest (reap pid status sh)

-- The handlers of SIGINT and SIGTSTP. SIGCHLD is not blocked in them, so that its handler may run
-- between `fgpid`, which reads the state `seen`, and `Kill`, which finds the state `sh`.
unfoldable pub forward : Signal → (seen sh : Shell) → Shell
forward sig seen sh =
    let pid = fgpid seen.table.jobs in
    if pid == 0
    then sh
    else record sh { kills = sh.kills ++ (record { group = pid; signal = sig } ∷ []) }

unfoldable pub sigint_handler : (seen sh : Shell) → Shell
unfolding forward
sigint_handler = forward sigint

unfoldable pub sigtstp_handler : (seen sh : Shell) → Shell
unfolding forward
sigtstp_handler = forward sigtstp

abbrev pub print : Message → Shell → Shell
print m sh = record sh { out = sh.out ++ (m ∷ []) }

-- The end of `eval`, which prints what the handler left.
unfoldable pub print_messages : Shell → Shell
print_messages sh =
    let sh' : Shell =
      (if sh.stop_msg
        then record (print (stopped_by sh.msg_jid sh.msg_pid sh.msg_sig) sh) { stop_msg = false }
        else sh) in
    if sh'.term_msg
    then record (print (terminated_by sh'.msg_jid sh'.msg_pid sh'.msg_sig) sh') { term_msg = false }
    else sh'

-- The parent's side of `eval` behind `Fork`, until SIGCHLD is unblocked.
unfoldable pub start_job : (verbose bg : Bool) (pid : ℕ) (cmdline : List ℕ) → Shell → Shell
start_job verbose bg pid cmdline sh =
    let state = if bg then background else foreground in
    let (added, table, out) = addjob verbose pid state cmdline sh.table in
    record sh { table = table; out = sh.out ++ out }

-- The message about a background job, once SIGCHLD is unblocked.
unfoldable pub announce : (pid : ℕ) (cmdline : List ℕ) → Shell → Shell
announce pid cmdline sh = print (started (pid2jid sh.table.jobs pid) pid cmdline) sh

-- The test of `waitfg`'s loop.
unfoldable pub still_waiting : (pid : ℕ) → Shell → Bool
still_waiting pid sh = pid == fgpid sh.table.jobs

-- What `do_bgfg` reads its operand as: a message that ends it, or the job it found.
pub data Operand : Type 0 where
  rejected : Message → Operand
  found : (index : ℕ) → Operand

abbrev pub percent : ℕ
percent = b'%'

abbrev pub find_jid : (command digits : List ℕ) → List Job → Operand
find_jid command digits jobs =
    if not (isnumber digits)
    then rejected (bad_operand command)
    else elim (getjobjid jobs (atoi_from 0 digits)) [
      | none ↦ rejected (no_such_job (atoi_from 0 digits))
      | some i ↦ found i
    ]

abbrev pub find_pid : (command digits : List ℕ) → List Job → Operand
find_pid command digits jobs =
    if not (isnumber digits)
    then rejected (bad_operand command)
    else elim (getjobpid jobs (atoi_from 0 digits)) [
      | none ↦ rejected (no_such_process (atoi_from 0 digits))
      | some i ↦ found i
    ]

-- The first half of `do_bgfg`, with SIGCHLD not blocked: `command` is argv[0].
unfoldable pub parse_operand : (command : List ℕ) (operands : List (List ℕ)) → List Job → Operand
parse_operand command [] jobs = rejected (needs_operand command)
parse_operand command ([] ∷ _) jobs = find_pid command [] jobs
parse_operand command ((c ∷ cs) ∷ _) jobs =
    if c == percent then find_jid command cs jobs else find_pid command (c ∷ cs) jobs

-- `*job`, through the index of the entry.
unfoldable pub job_at : ℕ → List Job → Job
job_at i jobs = elim (get_elem? jobs i) [ none ↦ cleared | some j ↦ j ]

-- The second half of `do_bgfg`, with SIGCHLD blocked: the job is continued and changes its state.
unfoldable pub continue_job : (bg : Bool) (index : ℕ) → Shell → Shell
unfolding job_at
continue_job bg i sh =
    let job = job_at i sh.table.jobs in
    let state = if bg then background else foreground in
    let jid = pid2jid sh.table.jobs job.pid in
    let line : List Message = if bg then started jid job.pid job.cmdline ∷ [] else [] in
    record sh {
      kills = sh.kills ++ (record { group = job.pid; signal = sigcont } ∷ []);
      out = sh.out ++ line;
      table = record sh.table { jobs = set_state i state sh.table.jobs };
    }

-- What `builtin_cmd` does with a command.
pub data Builtin : Type 0 where
  quit list_jobs bg_or_fg ignore not_builtin : Builtin

-- `!(strcmp(argv[0], "bg") & strcmp(argv[0], "fg"))` joins two results bit by bit. `strcmp` gives
-- an `int` as its 32 bits.
unfoldable pub builtin_cmd : (strcmp : List ℕ → List ℕ → ℕ) (command : List ℕ) → Builtin
builtin_cmd strcmp command =
    if strcmp command (b'q' ∷ b'u' ∷ b'i' ∷ b't' ∷ []) == 0
    then quit
    else if strcmp command (b'j' ∷ b'o' ∷ b'b' ∷ b's' ∷ []) == 0
    then list_jobs
    else if bit_and (strcmp command (b'b' ∷ b'g' ∷ [])) (strcmp command (b'f' ∷ b'g' ∷ [])) == 0
    then bg_or_fg
    else if strcmp command (b'&' ∷ []) == 0
    then ignore
    else not_builtin
