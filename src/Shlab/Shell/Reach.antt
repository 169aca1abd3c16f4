-- ===== src/Shlab/Shell/Reach.antt =====
-- One foreground job at a time: an invariant of the shell of shlab-handout/tsh.c, whenever the
-- handler of SIGCHLD runs.
use mathlib.Core.Path.{subst, sym}
use sysprog2021s.Prelude.{
  ℕ, ◌≤◌, ◌≡◌, ◌≢◌, refl, Bool, true, false, List, ◌⊎◌, inl, inr, Option-cases, arith,
}
use sysprog2021s.Shlab.Jobs.{
  foreground, background, stopped, Job, JobTable, set_state, addjob, deletejob, getjobpid,
}
use sysprog2021s.Shlab.Jobs.Laws.{new_job}
use sysprog2021s.Shlab.Jobs.Table.{has_pid, removed, fill_slot-filled, clear_pid-removed}
use sysprog2021s.Shlab.Shell.{
  Shell, Signal, Status, forward, exited, other, was_stopped, signaled, stop_job, reap,
  print_messages, start_job, announce, still_waiting, continue_job,
}
use sysprog2021s.Shlab.Shell.Foreground
use sysprog2021s.Shlab.Shell.Foreground.{count_fg, IsOnlyAt, IsOnlyPid, AllDistinct}
use sysprog2021s.Shlab.Shell.Steps.{
  Phase, prompt, finishing, launched, resuming, continued, waiting, Step, run_fg, run_bg, tell,
  reject, look_up, resume_bg, resume_fg, wait_for, end_wait, finish, list_all, skip, pass_on,
  handle, IsReachable, begin, further,
}

-- What may be in the foreground in a phase.
abbrev pub Holds : Phase → List Job → Type 0
Holds (continued i) js = IsOnlyAt i js
Holds (waiting pid) js = IsOnlyPid pid js
Holds _ js = count_fg js ≡ 0

deletejob-jobs :
    (pid : ℕ) (t : JobTable)
    → ((deletejob pid t).1.jobs ≡ t.jobs) ⊎ ((deletejob pid t).1.jobs ≡ removed pid t.jobs)
unfolding deletejob
deletejob-jobs pid t = ground (arith, clear_pid-removed pid t.jobs)

stop_job-jobs :
    (pid : ℕ) (t : JobTable)
    → ((stop_job pid t).jobs ≡ t.jobs)
      ⊎ ((i : ℕ) × ((stop_job pid t).jobs ≡ set_state i stopped t.jobs))
unfolding stop_job
stop_job-jobs pid t = elim (Option-cases (getjobpid t.jobs pid)) [
  | inl e ↦ inl (ground arith)
  | inr (i, e) ↦ inr (i, ground arith)
]

-- The handler leaves the jobs, deletes one or stops one.
reap-jobs :
    (pid : ℕ) (status : Status) (sh : Shell)
    → ((reap pid status sh).table.jobs ≡ sh.table.jobs)
      ⊎ (((reap pid status sh).table.jobs ≡ removed pid sh.table.jobs)
          ⊎ ((i : ℕ) × ((reap pid status sh).table.jobs ≡ set_state i stopped sh.table.jobs)))
unfolding reap
reap-jobs pid exited sh = ground (arith, deletejob-jobs pid sh.table)
reap-jobs pid other sh = inl refl
reap-jobs pid (was_stopped sig) sh = ground (arith, stop_job-jobs pid sh.table)
reap-jobs pid (signaled sig) sh = ground (arith, deletejob-jobs pid sh.table)

pub reap-keeps :
    (P : List Job → Type 0) (pid : ℕ) (status : Status) (sh : Shell)
    → P sh.table.jobs
    → P (removed pid sh.table.jobs)
    → ((i : ℕ) → P (set_state i stopped sh.table.jobs))
    → P (reap pid status sh).table.jobs
reap-keeps P pid status sh p r s = elim (reap-jobs pid status sh) [
  | inl e ↦ subst P (sym e) p
  | inr (inl e) ↦ subst P (sym e) r
  | inr (inr (i, e)) ↦ subst P (sym e) (s i)
]

reap-Holds :
    (phase : Phase) (pid : ℕ) (status : Status) (sh : Shell)
    → Holds phase sh.table.jobs
    → Holds phase (reap pid status sh).table.jobs
reap-Holds phase pid status sh h =
    reap-keeps (Holds phase) pid status sh h (removed-Holds phase h) (set_state-Holds phase h)
  where
    js : List Job
    js = sh.table.jobs

    none_left : {n : ℕ} → n ≤ count_fg js → count_fg js ≡ 0 → n ≡ 0
    none_left le e = omega arith

    removed-Holds : (phase : Phase) → Holds phase js → Holds phase (removed pid js)
    removed-Holds prompt h = none_left (Foreground.count_fg-removed pid js) h
    removed-Holds finishing h = none_left (Foreground.count_fg-removed pid js) h
    removed-Holds (launched _ _) h = none_left (Foreground.count_fg-removed pid js) h
    removed-Holds (resuming _ _) h = none_left (Foreground.count_fg-removed pid js) h
    removed-Holds (continued i) h = Foreground.removed-IsOnlyAt i pid js h
    removed-Holds (waiting p) h = Foreground.removed-IsOnlyPid pid p js h

    set_state-Holds :
        (phase : Phase) → Holds phase js → (k : ℕ) → Holds phase (set_state k stopped js)
    set_state-Holds prompt h k = none_left (Foreground.count_fg-set_state k stopped js refl) h
    set_state-Holds finishing h k = none_left (Foreground.count_fg-set_state k stopped js refl) h
    set_state-Holds (launched _ _) h k =
        none_left (Foreground.count_fg-set_state k stopped js refl) h
    set_state-Holds (resuming _ _) h k =
        none_left (Foreground.count_fg-set_state k stopped js refl) h
    set_state-Holds (continued i) h k = Foreground.set_state-IsOnlyAt k i stopped js refl h
    set_state-Holds (waiting p) h k = Foreground.set_state-IsOnlyPid k p stopped js refl h

reap-AllDistinct :
    (pid : ℕ) (status : Status) (sh : Shell)
    → AllDistinct sh.table.jobs
    → AllDistinct (reap pid status sh).table.jobs
reap-AllDistinct pid status sh a =
    reap-keeps AllDistinct pid status sh a (Foreground.removed-AllDistinct pid sh.table.jobs a)
      (λ i. Foreground.set_state-AllDistinct i stopped sh.table.jobs a)

-- What a phase promises of the job list.
pub record IsOrderly (phase : Phase) (sh : Shell) : Type 0 where
  pub holds : Holds phase sh.table.jobs
  pub distinct : AllDistinct sh.table.jobs

start_job-IsOrderly :
    (verbose : Bool) (pid : ℕ) (cmdline : List ℕ) (sh : Shell)
    → pid ≢ 0
    → has_pid pid sh.table.jobs ≡ false
    → IsOrderly prompt sh
    → IsOrderly (waiting pid) (start_job verbose false pid cmdline sh)
      × IsOrderly (launched pid cmdline) (start_job verbose true pid cmdline sh)
unfolding start_job addjob
start_job-IsOrderly verbose pid cmdline sh n f o =
    let js = sh.table.jobs in
    let fg = new_job sh.table pid foreground cmdline in
    let bg = new_job sh.table pid background cmdline in
    ground (
      arith,
      fill_slot-filled fg js,
      fill_slot-filled bg js,
      Foreground.filled-AllDistinct fg js,
      Foreground.filled-AllDistinct bg js,
      Foreground.filled-IsOnlyPid fg js,
      Foreground.count_fg-filled bg js,
    )

continue_job-IsOrderly :
    (i : ℕ) (sh : Shell)
    → IsOrderly prompt sh
    → IsOrderly (continued i) (continue_job false i sh)
      × IsOrderly finishing (continue_job true i sh)
unfolding continue_job
continue_job-IsOrderly i sh o =
    let js = sh.table.jobs in
    ground (
      arith,
      Foreground.set_state-AllDistinct i foreground js,
      Foreground.set_state-AllDistinct i background js,
      Foreground.set_state-IsOnlyAt_fg i foreground js,
      Foreground.count_fg-set_state i background js,
    )

print_messages-table : (sh : Shell) → (print_messages sh).table ≡ sh.table
unfolding print_messages
print_messages-table sh = ground arith

forward-table : (sig : Signal) (seen sh : Shell) → (forward sig seen sh).table ≡ sh.table
unfolding forward
forward-table sig seen sh = ground arith

Step-IsOrderly :
    {verbose : Bool} {sh sh' : Shell} {phase phase' : Phase}
    → Step verbose phase sh phase' sh'
    → IsOrderly phase sh
    → IsOrderly phase' sh'
unfolding announce still_waiting
Step-IsOrderly {verbose} {sh = sh} (run_fg pid cmdline n f) o =
    (start_job-IsOrderly verbose pid cmdline sh n f o).0
Step-IsOrderly {verbose} {sh = sh} (run_bg pid cmdline n f) o =
    (start_job-IsOrderly verbose pid cmdline sh n f o).1
Step-IsOrderly tell o = record { holds = o.holds; distinct = o.distinct }
Step-IsOrderly (reject _ _ _ _) o = record { holds = o.holds; distinct = o.distinct }
Step-IsOrderly (look_up _ _ _ _ _) o = record { holds = o.holds; distinct = o.distinct }
Step-IsOrderly {sh = sh} (resume_bg {i = i}) o =
    (continue_job-IsOrderly i sh (record { holds = o.holds; distinct = o.distinct })).1
Step-IsOrderly {sh = sh} (resume_fg {i = i}) o =
    (continue_job-IsOrderly i sh (record { holds = o.holds; distinct = o.distinct })).0
Step-IsOrderly {sh = sh} (wait_for {i = i}) o = record {
  holds = Foreground.IsOnlyAt-IsOnlyPid i sh.table.jobs o.holds;
  distinct = o.distinct;
}
Step-IsOrderly (end_wait e) o = record { holds = ground (arith, o.holds); distinct = o.distinct }
Step-IsOrderly {sh = sh} finish o = ground (arith, print_messages-table sh)
Step-IsOrderly skip o = record { holds = o.holds; distinct = o.distinct }
Step-IsOrderly list_all o = record { holds = o.holds; distinct = o.distinct }
Step-IsOrderly {sh = sh} {phase = phase} (pass_on sig seen) o = record {
  holds = subst (λ t. Holds phase t.jobs) (sym (forward-table sig seen sh)) o.holds;
  distinct = subst (λ t. AllDistinct t.jobs) (sym (forward-table sig seen sh)) o.distinct;
}
Step-IsOrderly {sh = sh} {phase = phase} (handle pid status) o = record {
  holds = reap-Holds phase pid status sh o.holds;
  distinct = reap-AllDistinct pid status sh o.distinct;
}

-- Whatever commands are read and whenever the handler of SIGCHLD runs: no two jobs have one pid;
-- in `waitfg` at most one job is in the foreground, and it is the one that the shell waits for;
-- between the second half of `do_bgfg` and `waitfg` only the continued entry may be; in every other
-- phase no job is in the foreground.
pub IsReachable-IsOrderly :
    {verbose : Bool} {phase : Phase} {sh : Shell}
    → IsReachable verbose phase sh
    → IsOrderly phase sh
unfolding count_fg has_pid
IsReachable-IsOrderly begin = record { holds = refl; distinct = ground arith }
IsReachable-IsOrderly (further r s) = Step-IsOrderly s (IsReachable-IsOrderly r)
