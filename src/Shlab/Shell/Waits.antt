-- ===== src/Shlab/Shell/Waits.antt =====
-- `waitfg` and the handlers of SIGINT and SIGTSTP of shlab-handout/tsh.c: when the wait ends, and
-- which job the handlers reach.
use sysprog2021s.Prelude.{
  ℕ, suc, not, ◌&&◌, ◌+◌, ◌≡◌, ◌≢◌, refl, Bool, true, false, none, some, List, [], ◌∷◌, ◌++◌, ◌==◌,
  if◌then◌else◌, ◌⊎◌, inl, inr, Bool-cases, arith,
}
use sysprog2021s.Shlab.Jobs.{
  Job, JobState, JobTable, stopped, fgpid, set_state, getjobpid, pid_index, deletejob,
}
use sysprog2021s.Shlab.Jobs.Table.{has_pid, removed, clear_pid-removed}
use sysprog2021s.Shlab.Shell.{
  Signal, Shell, Status, exited, other, was_stopped, signaled, stop_job, reap, forward,
  still_waiting,
}
use sysprog2021s.Shlab.Shell.Foreground
use sysprog2021s.Shlab.Shell.Foreground.{count_fg, IsOnlyPid, AllDistinct}
use sysprog2021s.Shlab.Shell.Steps.{
  Phase, prompt, waiting, end_wait, pass_on, handle, IsReachable, further, Steps, done, more,
}
use sysprog2021s.Shlab.Shell.Reach
use sysprog2021s.Shlab.Shell.Reach.{IsOrderly}

-- At the prompt the handlers of SIGINT and SIGTSTP send nothing: the shell has no foreground job.
forward-prompt :
    {verbose : Bool} {seen : Shell} (sig : Signal) (sh : Shell)
    → IsReachable verbose prompt seen
    → forward sig seen sh ≡ sh
unfolding forward
forward-prompt {seen = seen} sig sh r =
    let o = Reach.IsReachable-IsOrderly r in
    ground (arith, Foreground.fgpid-none seen.table.jobs o.holds)

-- A handler of SIGINT or SIGTSTP that calls `fgpid` in a reachable state in which the shell waits
-- for `p` sends one signal, to the process group of `p`, if `p` is then still in the foreground,
-- and none if it is not. It does so whatever the handler of SIGCHLD makes of the state before
-- `Kill`: also when `p` has left the foreground, or the list, by then.
pub forward-waiting :
    {verbose : Bool} {seen : Shell} (sig : Signal) (p : ℕ) (sh : Shell)
    → IsReachable verbose (waiting p) seen
    → forward sig seen sh ≡ (
        if not (p == 0) && still_waiting p seen
        then record sh { kills = sh.kills ++ (record { group = p; signal = sig } ∷ []) }
        else sh)
unfolding forward still_waiting
forward-waiting {seen = seen} sig p sh r =
    let o = Reach.IsReachable-IsOrderly r in
    ground (arith, o.holds, Foreground.fgpid-none seen.table.jobs)

-- The foreground job has its pid in the list.
has_pid-fgpid : (p : ℕ) (js : List Job) → count_fg js ≢ 0 → fgpid js ≡ p → has_pid p js ≡ true
unfolding count_fg fgpid has_pid
has_pid-fgpid p [] n e = ground arith
has_pid-fgpid p (j ∷ js) n e = ground (arith, has_pid-fgpid p js)

-- The first entry with a pid changes its state.
unfoldable set_first : ℕ → JobState → List Job → List Job
set_first p s [] = []
set_first p s (j ∷ js) = if j.pid == p then record j { state = s } ∷ js else j ∷ set_first p s js

pid_index-set_first :
    (p k : ℕ) (s : JobState) (js : List Job)
    → ((pid_index p k js ≡ none) × (set_first p s js ≡ js))
      ⊎ ((i : ℕ) × ((pid_index p k js ≡ some (k + i)) × (set_state i s js ≡ set_first p s js)))
unfolding pid_index set_state set_first
pid_index-set_first p k s [] = inl (refl, refl)
pid_index-set_first p k s (j ∷ js) = elim (Bool-cases (j.pid == p)) [
  | inl e ↦ inr (0, (ground arith, ground arith))
  | inr e ↦ elim (pid_index-set_first p (k + 1) s js) [
    | inl (a, b) ↦ inl (ground arith, ground arith)
    | inr (i, (a, b)) ↦ inr (suc i, (ground arith, ground arith))
  ]
]

stop_job-set_first :
    (p : ℕ) (t : JobTable) → p ≢ 0 → (stop_job p t).jobs ≡ set_first p stopped t.jobs
unfolding stop_job getjobpid
stop_job-set_first p t n = elim (pid_index-set_first p 0 stopped t.jobs) [
  | inl (a, b) ↦ ground arith
  | inr (i, (a, b)) ↦ ground arith
]

count_fg-set_first :
    (p : ℕ) (js : List Job)
    → AllDistinct js
    → p ≢ 0
    → IsOnlyPid p js
    → count_fg (set_first p stopped js) ≡ 0
unfolding set_first count_fg fgpid
count_fg-set_first p [] a n o = refl
count_fg-set_first p (j ∷ js) a n o = ground (arith, count_fg-set_first p js, has_pid-fgpid p js)

count_fg-removed_waited :
    (p : ℕ) (js : List Job) → AllDistinct js → p ≢ 0 → IsOnlyPid p js → count_fg (removed p js) ≡ 0
unfolding removed count_fg fgpid
count_fg-removed_waited p [] a n o = refl
count_fg-removed_waited p (j ∷ js) a n o =
    ground (arith, count_fg-removed_waited p js, has_pid-fgpid p js)

removed-absent : (p : ℕ) (js : List Job) → has_pid p js ≡ false → removed p js ≡ js
unfolding removed has_pid
removed-absent p [] f = refl
removed-absent p (j ∷ js) f = ground (arith, removed-absent p js)

deletejob-removed : (p : ℕ) (t : JobTable) → p ≢ 0 → (deletejob p t).1.jobs ≡ removed p t.jobs
unfolding deletejob
deletejob-removed p t n = elim (Bool-cases (has_pid p t.jobs)) [
  | inl e ↦ ground (arith, clear_pid-removed p t.jobs)
  | inr e ↦ ground (arith, clear_pid-removed p t.jobs, removed-absent p t.jobs e)
]

-- When `waitpid` reports that the process waited for has exited, stopped or was terminated, the
-- test of `waitfg` fails behind the handler: the shell goes on.
pub reap-still_waiting :
    {verbose : Bool} {sh : Shell} (p : ℕ) (status : Status)
    → IsReachable verbose (waiting p) sh
    → p ≢ 0
    → status ≢ other
    → still_waiting p (reap p status sh) ≡ false
unfolding still_waiting reap
reap-still_waiting {sh = sh} p status r n m = go status m
  where
    js : List Job
    js = sh.table.jobs

    o : IsOrderly (waiting p) sh
    o = Reach.IsReachable-IsOrderly r

    gone : fgpid (removed p js) ≡ 0
    gone = Foreground.fgpid-none (removed p js) (count_fg-removed_waited p js o.distinct n o.holds)

    go : (status : Status) → status ≢ other → still_waiting p (reap p status sh) ≡ false
    go other m = ground (arith, m refl)
    go exited m = ground (arith, gone, deletejob-removed p sh.table n)
    go (signaled sig) m = ground (arith, gone, deletejob-removed p sh.table n)
    go (was_stopped sig) m = ground (
      arith,
      stop_job-set_first p sh.table,
      Foreground.fgpid-none (set_first p stopped js),
      count_fg-set_first p js o.distinct n o.holds,
    )

-- Once the shell waits for pid 0, which `do_bgfg` reads from the entry of a job that the handler
-- has just deleted, it waits forever: no sequence of steps leaves `waitfg`.
pub wait_zero-forever :
    {verbose : Bool} {sh sh' : Shell} {phase' : Phase}
    → IsReachable verbose (waiting 0) sh
    → Steps verbose (waiting 0) sh phase' sh'
    → phase' ≡ waiting 0
unfolding still_waiting
wait_zero-forever r done = refl
wait_zero-forever r (more (handle pid status) more_steps) =
    wait_zero-forever (further r (handle pid status)) more_steps
wait_zero-forever r (more (pass_on sig seen) more_steps) =
    wait_zero-forever (further r (pass_on sig seen)) more_steps
wait_zero-forever {sh = sh} r (more (end_wait e) more_steps) = absurd (blocked e)
  where
    blocked : still_waiting 0 sh ≢ false
    blocked e =
        let o = Reach.IsReachable-IsOrderly r in
        ground (arith, o.holds, Foreground.fgpid-none sh.table.jobs, e)
