-- ===== src/Shlab/Shell/Foreground.antt =====
-- Which entries of the job list are in the foreground, and what the functions of
-- shlab-handout/tsh.c do to them.
use sysprog2021s.Prelude.{
  ℕ, zero, suc, ◌+◌, ◌≤◌, ◌≡◌, ◌≢◌, refl, false, List, [], ◌∷◌, if◌then◌else◌, ◌⊎◌, inl, arith,
}
use sysprog2021s.Shlab.Jobs.{JobState, Job, is_fg, fgpid, set_state}
use sysprog2021s.Shlab.Jobs.Table.{has_pid, filled, removed, has_pid-filled, has_pid-removed}
use sysprog2021s.Shlab.Shell.{job_at}

unfoldable pub count_fg : List Job → ℕ
count_fg [] = 0
count_fg (j ∷ js) = (if is_fg j.state then 1 else 0) + count_fg js

-- Only the entry with this index may be in the foreground.
abbrev pub IsOnlyAt : ℕ → List Job → Type 0
IsOnlyAt i [] = Unit {0}
IsOnlyAt zero (j ∷ js) = count_fg js ≡ 0
IsOnlyAt (suc i) (j ∷ js) = (is_fg j.state ≡ false) × IsOnlyAt i js

-- At most one entry is in the foreground, and `fgpid` gives this pid if there is one.
abbrev pub IsOnlyPid : ℕ → List Job → Type 0
IsOnlyPid pid js = (count_fg js ≡ 0) ⊎ ((count_fg js ≡ 1) × (fgpid js ≡ pid))

-- No two jobs have one pid.
abbrev pub AllDistinct : List Job → Type 0
AllDistinct [] = Unit {0}
AllDistinct (j ∷ js) = (j.pid ≢ 0 → has_pid j.pid js ≡ false) × AllDistinct js

pub fgpid-none : (js : List Job) → count_fg js ≡ 0 → fgpid js ≡ 0
unfolding fgpid count_fg
fgpid-none [] e = refl
fgpid-none (j ∷ js) e = ground (arith, fgpid-none js)

-- A clear entry takes the place of a job.
pub count_fg-removed : (p : ℕ) (js : List Job) → count_fg (removed p js) ≤ count_fg js
unfolding count_fg removed
count_fg-removed p [] = omega arith
count_fg-removed p (j ∷ js) = ground (arith, count_fg-removed p js)

pub removed-IsOnlyAt : (i p : ℕ) (js : List Job) → IsOnlyAt i js → IsOnlyAt i (removed p js)
unfolding removed count_fg
removed-IsOnlyAt i p [] o = o
removed-IsOnlyAt zero p (j ∷ js) o = ground (arith, count_fg-removed p js)
removed-IsOnlyAt (suc i) p (j ∷ js) o = ground (arith, removed-IsOnlyAt i p js)

pub removed-IsOnlyPid :
    (p pid : ℕ) (js : List Job) → IsOnlyPid pid js → IsOnlyPid pid (removed p js)
unfolding removed count_fg fgpid
removed-IsOnlyPid p pid [] o = o
removed-IsOnlyPid p pid (j ∷ js) o =
    ground (arith, removed-IsOnlyPid p pid js, count_fg-removed p js)

pub removed-AllDistinct : (p : ℕ) (js : List Job) → AllDistinct js → AllDistinct (removed p js)
unfolding removed
removed-AllDistinct p [] a = tt
removed-AllDistinct p (j ∷ js) a =
    ground (arith, removed-AllDistinct p js, has_pid-removed p j.pid js)

-- A new job takes the place of a clear entry.
pub filled-AllDistinct :
    (new : Job) (js : List Job)
    → AllDistinct js
    → new.pid ≢ 0
    → has_pid new.pid js ≡ false
    → AllDistinct (filled new js)
unfolding filled has_pid
filled-AllDistinct new [] a n f = tt
filled-AllDistinct new (j ∷ js) a n f =
    ground (arith, filled-AllDistinct new js, has_pid-filled new j.pid js)

pub count_fg-filled :
    (new : Job) (js : List Job)
    → is_fg new.state ≡ false
    → count_fg js ≡ 0
    → count_fg (filled new js) ≡ 0
unfolding filled count_fg
count_fg-filled new [] n e = refl
count_fg-filled new (j ∷ js) n e = ground (arith, count_fg-filled new js)

pub filled-IsOnlyPid :
    (new : Job) (js : List Job) → count_fg js ≡ 0 → IsOnlyPid new.pid (filled new js)
unfolding filled count_fg fgpid
filled-IsOnlyPid new [] e = inl refl
filled-IsOnlyPid new (j ∷ js) e = ground (arith, filled-IsOnlyPid new js)

-- A job changes its state.
pub count_fg-set_state :
    (i : ℕ) (s : JobState) (js : List Job)
    → is_fg s ≡ false
    → count_fg (set_state i s js) ≤ count_fg js
unfolding count_fg set_state
count_fg-set_state i s [] n = omega arith
count_fg-set_state zero s (j ∷ js) n = ground arith
count_fg-set_state (suc i) s (j ∷ js) n = ground (arith, count_fg-set_state i s js)

pub set_state-IsOnlyAt :
    (k i : ℕ) (s : JobState) (js : List Job)
    → is_fg s ≡ false
    → IsOnlyAt i js
    → IsOnlyAt i (set_state k s js)
unfolding set_state
set_state-IsOnlyAt k i s [] n o = o
set_state-IsOnlyAt zero zero s (j ∷ js) n o = o
set_state-IsOnlyAt zero (suc i) s (j ∷ js) n (f, o) = (n, o)
set_state-IsOnlyAt (suc k) zero s (j ∷ js) n o = ground (arith, count_fg-set_state k s js n)
set_state-IsOnlyAt (suc k) (suc i) s (j ∷ js) n (f, o) = (f, set_state-IsOnlyAt k i s js n o)

pub set_state-IsOnlyPid :
    (k pid : ℕ) (s : JobState) (js : List Job)
    → is_fg s ≡ false
    → IsOnlyPid pid js
    → IsOnlyPid pid (set_state k s js)
unfolding set_state count_fg fgpid
set_state-IsOnlyPid k pid s [] n o = o
set_state-IsOnlyPid zero pid s (j ∷ js) n o = ground arith
set_state-IsOnlyPid (suc k) pid s (j ∷ js) n o =
    ground (arith, set_state-IsOnlyPid k pid s js n, count_fg-set_state k s js n)

pub has_pid-set_state :
    (i p : ℕ) (s : JobState) (js : List Job) → has_pid p (set_state i s js) ≡ has_pid p js
unfolding set_state has_pid
has_pid-set_state i p s [] = refl
has_pid-set_state zero p s (j ∷ js) = refl
has_pid-set_state (suc i) p s (j ∷ js) = ground (arith, has_pid-set_state i p s js)

pub set_state-AllDistinct :
    (i : ℕ) (s : JobState) (js : List Job) → AllDistinct js → AllDistinct (set_state i s js)
unfolding set_state
set_state-AllDistinct i s [] a = a
set_state-AllDistinct zero s (j ∷ js) a = a
set_state-AllDistinct (suc i) s (j ∷ js) a =
    ground (arith, set_state-AllDistinct i s js, has_pid-set_state i j.pid s js)

pub set_state-IsOnlyAt_fg :
    (i : ℕ) (s : JobState) (js : List Job) → count_fg js ≡ 0 → IsOnlyAt i (set_state i s js)
unfolding set_state count_fg
set_state-IsOnlyAt_fg i s [] e = tt
set_state-IsOnlyAt_fg zero s (j ∷ js) e = ground arith
set_state-IsOnlyAt_fg (suc i) s (j ∷ js) e = ground (arith, set_state-IsOnlyAt_fg i s js)

-- The entry that `do_bgfg` waits for.
pub IsOnlyAt-IsOnlyPid : (i : ℕ) (js : List Job) → IsOnlyAt i js → IsOnlyPid (job_at i js).pid js
unfolding count_fg fgpid job_at
IsOnlyAt-IsOnlyPid i [] o = inl refl
IsOnlyAt-IsOnlyPid zero (j ∷ js) o = ground arith
IsOnlyAt-IsOnlyPid (suc i) (j ∷ js) (f, o) = ground (arith, IsOnlyAt-IsOnlyPid i js o)
