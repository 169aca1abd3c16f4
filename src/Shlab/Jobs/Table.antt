-- ===== src/Shlab/Jobs/Table.antt =====
-- The job list as a map from pids to jobs: what `addjob` and `deletejob` do to it.
use sysprog2021s.Prelude.{
  ℕ, ◌≡◌, ◌≢◌, refl, Bool, false, ◌&&◌, ◌||◌, Option, none, some, List, [], ◌∷◌, ◌==◌,
  if◌then◌else◌, length, arith,
}
use sysprog2021s.Shlab.Jobs.{undef, Job, cleared, fill_slot, clear_pid}

unfoldable pub has_pid : ℕ → List Job → Bool
has_pid p [] = false
has_pid p (j ∷ js) = j.pid == p || has_pid p js

-- The job with a pid.
unfoldable pub job_of : ℕ → List Job → Option Job
job_of p [] = none
job_of p (j ∷ js) = if j.pid == p then some j else job_of p js

-- A free entry is cleared, a used one has a job ID, and no two entries have one pid.
abbrev pub AllSound : List Job → Type 0
AllSound [] = Unit {0}
AllSound (j ∷ js) =
    (j.pid ≡ 0 → (j.jid ≡ 0) × (j.state ≡ undef))
    × (j.pid ≢ 0 → j.jid ≢ 0)
    × (j.pid ≢ 0 → has_pid j.pid js ≡ false)
    × AllSound js

-- The free entries that `addjob` and `deletejob` count on.
unfoldable pub filled : Job → List Job → List Job
filled new [] = []
filled new (j ∷ js) = if j.pid == 0 then new ∷ js else j ∷ filled new js

unfoldable pub removed : ℕ → List Job → List Job
removed p [] = []
removed p (j ∷ js) = if j.pid == p then cleared ∷ js else j ∷ removed p js

pub fill_slot-filled :
    (new : Job) (js : List Job)
    → fill_slot new js ≡ (if has_pid 0 js then some (filled new js) else none)
unfolding fill_slot has_pid filled
fill_slot-filled new [] = refl
fill_slot-filled new (j ∷ js) = ground (arith, fill_slot-filled new js)

pub clear_pid-removed :
    (p : ℕ) (js : List Job) → clear_pid p js ≡ (if has_pid p js then some (removed p js) else none)
unfolding clear_pid has_pid removed
clear_pid-removed p [] = refl
clear_pid-removed p (j ∷ js) = ground (arith, clear_pid-removed p js)

pub length-filled : (new : Job) (js : List Job) → length (filled new js) ≡ length js
unfolding filled
length-filled new [] = refl
length-filled new (j ∷ js) = ground (arith, length-filled new js)

pub length-removed : (p : ℕ) (js : List Job) → length (removed p js) ≡ length js
unfolding removed
length-removed p [] = refl
length-removed p (j ∷ js) = ground (arith, length-removed p js)

pub has_pid-filled :
    (new : Job) (q : ℕ) (js : List Job)
    → q ≢ 0
    → has_pid q (filled new js) ≡ (has_pid 0 js && new.pid == q || has_pid q js)
unfolding filled has_pid
has_pid-filled new q [] n = refl
has_pid-filled new q (j ∷ js) n = ground (arith, has_pid-filled new q js n)

pub job_of-filled :
    (new : Job) (q : ℕ) (js : List Job)
    → q ≢ 0
    → has_pid new.pid js ≡ false
    → job_of q (filled new js) ≡ (if has_pid 0 js && new.pid == q then some new else job_of q js)
unfolding filled has_pid job_of
job_of-filled new q [] n f = refl
job_of-filled new q (j ∷ js) n f = ground (arith, job_of-filled new q js n)

pub filled-AllSound :
    (new : Job) (js : List Job)
    → AllSound js
    → new.pid ≢ 0
    → new.jid ≢ 0
    → has_pid new.pid js ≡ false
    → AllSound (filled new js)
unfolding filled has_pid
filled-AllSound new [] a n m f = tt
filled-AllSound new (j ∷ js) a n m f =
    ground (arith, filled-AllSound new js, has_pid-filled new j.pid js)

pub has_pid-removed :
    (p q : ℕ) (js : List Job) → q ≢ 0 → has_pid q js ≡ false → has_pid q (removed p js) ≡ false
unfolding removed has_pid
has_pid-removed p q [] n f = refl
has_pid-removed p q (j ∷ js) n f = ground (arith, has_pid-removed p q js n)

pub removed-AllSound : (p : ℕ) (js : List Job) → AllSound js → AllSound (removed p js)
unfolding removed has_pid
removed-AllSound p [] a = tt
removed-AllSound p (j ∷ js) a = ground (arith, removed-AllSound p js, has_pid-removed p j.pid js)

pub job_of-absent : (p : ℕ) (js : List Job) → has_pid p js ≡ false → job_of p js ≡ none
unfolding has_pid job_of
job_of-absent p [] f = refl
job_of-absent p (j ∷ js) f = ground (arith, job_of-absent p js)

pub job_of-removed :
    (p q : ℕ) (js : List Job)
    → AllSound js
    → p ≢ 0
    → q ≢ 0
    → job_of q (removed p js) ≡ (if p == q then none else job_of q js)
unfolding removed job_of
job_of-removed p q [] a n m = ground arith
job_of-removed p q (j ∷ js) a n m = ground (arith, job_of-removed p q js, job_of-absent p js)
