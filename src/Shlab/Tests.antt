-- ===== src/Shlab/Tests.antt =====
-- The theorems about tsh.c at concrete job lists, command lines and runs, and short tests.
use sysprog2021s.Prelude.{
  ◌+◌, ◌≡◌, refl, ◌⊎◌, true, false, not, ◌&&◌, none, some, [], ◌∷◌, ◌++◌, ◌==◌, if◌then◌else◌,
  replicate, arith,
}
use sysprog2021s.Shlab.Jobs.{
  foreground, background, stopped, JobTable, too_many_jobs, cleared, addjob, deletejob, pid2jid,
  set_state, clear_pid, fill_slot, clearjob, maxjid, maxjid_from, getjobpid, pid_index, first_jid,
}
use sysprog2021s.Shlab.Jobs.Laws.{IsTable, AllBelow, new_job, addjob_lem, deletejob_lem}
use sysprog2021s.Shlab.Jobs.Table.{has_pid, job_of}
use sysprog2021s.Shlab.Jobs.JobIds.{count_jid, count_jid-addjob, addjob_reuses_jid}
use sysprog2021s.Shlab.Parse.{parseline, starts_with_ampersand, isnumber, atoi_from}
use sysprog2021s.Shlab.Parse.RoundTrip.{bare, quoted, typed_line, parseline-typed_line}
use sysprog2021s.Shlab.Shell.{
  Shell, exited, sigint, forward, still_waiting, reap, start_job, announce, print_messages,
  continue_job, job_at, parse_operand,
}
use sysprog2021s.Shlab.Shell.Steps.{
  waiting, run_fg, run_bg, tell, look_up, resume_fg, wait_for, finish, handle, started_shell,
  IsReachable, begin, further, done, more,
}
use sysprog2021s.Shlab.Shell.Reach.{IsOrderly, IsReachable-IsOrderly}
use sysprog2021s.Shlab.Shell.Waits.{forward-waiting, reap-still_waiting, wait_zero-forever}

-- Two jobs, whose job IDs are 1 and 16, and 14 free entries.
abbrev busy : JobTable
busy = record {
  jobs =
      record { pid = 50; jid = 1; state = background; cmdline = [] }
      ∷ record { pid = 60; jid = 16; state = stopped; cmdline = [] }
      ∷ replicate 14 cleared;
  nextjid = 17;
}

busy-IsTable : IsTable busy
unfolding has_pid
busy-IsTable = record { size = refl; sound = ground arith; next = omega arith }

addjob_lem_example :
    let (added, t', out) = addjob true 70 foreground [] busy in
    (added ≡ has_pid 0 busy.jobs)
    × IsTable t'
    × (job_of 50 t'.jobs
        ≡ (if added && 70 == 50 then some (new_job busy 70 foreground []) else job_of 50 busy.jobs))
    × ((added ≡ true) ⊎ ((t' ≡ busy) × (out ≡ too_many_jobs ∷ [])))
unfolding has_pid
addjob_lem_example =
    addjob_lem true 70 foreground [] busy 50 busy-IsTable (omega arith) refl (omega arith)

deletejob_lem_example :
    let (deleted, t') = deletejob 60 busy in
    (deleted ≡ has_pid 60 busy.jobs)
    × IsTable t'
    × (job_of 50 t'.jobs ≡ (if 60 == 50 then none else job_of 50 busy.jobs))
    × ((deleted ≡ false) ⊎ AllBelow t'.nextjid t'.jobs)
deletejob_lem_example = deletejob_lem 60 busy 50 busy-IsTable (omega arith) (omega arith)

count_jid-addjob_example :
    let (added, t', out) = addjob true 70 foreground [] busy in
    count_jid 17 t'.jobs ≡ (if added && 17 == 17 then 1 else count_jid 17 busy.jobs)
count_jid-addjob_example =
    count_jid-addjob true 70 foreground [] busy 17 busy-IsTable (omega arith) (omega arith)
      (omega arith)

addjob_reuses_jid_example :
    count_jid 1 (addjob false 80 foreground [] (addjob false 70 foreground [] busy).1).1.jobs
    ≡ count_jid 1 busy.jobs + 1
unfolding has_pid addjob fill_slot
addjob_reuses_jid_example =
    addjob_reuses_jid false foreground [] 70 80 busy busy-IsTable (omega arith) (omega arith) refl
      refl refl

-- `  ls 'a b' &`
parseline-typed_line_example :
    parseline (
      typed_line 2 (
        (bare (b'l' ∷ b's' ∷ []), 0) ∷ (quoted (b'a' ∷ b' ' ∷ b'b' ∷ []), 1) ∷ []
        ++ ((bare (b'&' ∷ []), 0) ∷ [])))
    ≡ some (true, (b'l' ∷ b's' ∷ []) ∷ (b'a' ∷ b' ' ∷ b'b' ∷ []) ∷ [])
unfolding starts_with_ampersand
parseline-typed_line_example =
    parseline-typed_line 2
      ((bare (b'l' ∷ b's' ∷ []), 0) ∷ (quoted (b'a' ∷ b' ' ∷ b'b' ∷ []), 1) ∷ []) (bare (b'&' ∷ []))
      0 (omega arith) (omega arith) (omega arith)

-- The shell starts a foreground job.
abbrev running : Shell
running = start_job false false 50 [] started_shell

no_jobs : has_pid 50 started_shell.table.jobs ≡ false
unfolding has_pid
no_jobs = refl

running-IsReachable : IsReachable false (waiting 50) running
running-IsReachable = further begin (run_fg 50 [] (omega arith) no_jobs)

IsReachable-IsOrderly_example : IsOrderly (waiting 50) running
IsReachable-IsOrderly_example = IsReachable-IsOrderly running-IsReachable

-- SIGINT's handler finds job 50 in the foreground, and the job exits before `Kill`.
forward-waiting_example : forward sigint running (reap 50 exited running) ≡ (
    if not (50 == 0) && still_waiting 50 running
    then record (reap 50 exited running) {
      kills = (reap 50 exited running).kills ++ (record { group = 50; signal = sigint } ∷ []);
    }
    else reap 50 exited running)
forward-waiting_example = forward-waiting sigint 50 (reap 50 exited running) running-IsReachable

reap-still_waiting_example : still_waiting 50 (reap 50 exited running) ≡ false
reap-still_waiting_example =
    reap-still_waiting 50 exited running-IsReachable (omega arith) (ground arith)

-- A background job is brought to the foreground with `fg 50` and exits before `do_bgfg` reads
-- its pid again.
abbrev in_background : Shell
in_background = print_messages (announce 50 [] (start_job false true 50 [] started_shell))

abbrev exited_early : Shell
exited_early = reap 50 exited (continue_job false 0 in_background)

exited_early-IsReachable : IsReachable false (waiting 0) exited_early
unfolding has_pid start_job addjob fill_slot announce print_messages pid2jid first_jid continue_job
    job_at reap deletejob clear_pid clearjob set_state maxjid maxjid_from parse_operand getjobpid
    pid_index isnumber atoi_from
exited_early-IsReachable =
    further
      (further
        (further
          (further
            (further (further (further begin (run_bg 50 [] (omega arith) no_jobs)) tell) finish)
            (look_up false [] ((b'5' ∷ b'0' ∷ []) ∷ []) 0 refl))
          resume_fg)
        (handle 50 exited))
      wait_for

wait_zero-forever_example : waiting 0 ≡ waiting 0
wait_zero-forever_example =
    wait_zero-forever exited_early-IsReachable (more (handle 50 exited) done)
