-- ===== src/Scheduler.antt =====
-- internal/scheduler/scheduler.go: `Start`, `Stop` and the jobs of the crontab as sequences of steps. A
-- critical section of the mutex is one step; a job is one run of `runWithDelay`.
pub mod Stopping
pub mod Delay
use mtlogin.Prelude.{
  ℕ, zero, suc, ◌+◌, ◌-◌, Bool, true, false, ◌&&◌, ◌||◌, not, Option, none, some, List, [], ◌∷◌,
  ◌++◌, ◌==◌, leb, ltb, if◌then◌else◌, is_some,
}
use mtlogin.Errors.{GoError, text}

-- The delays in nanoseconds; a configuration with a negative one is rejected when it is loaded.
pub record Config : Type 0 where
  pub min_delay : ℕ
  pub max_delay : ℕ

-- SampleDelay, with the product of a random share below 1 and a range as `share`
unfoldable pub sample_delay : (ℕ → ℕ) → Config → ℕ
sample_delay share cfg =
    if cfg.min_delay == 0 && cfg.max_delay == 0
    then 0
    else if leb cfg.max_delay cfg.min_delay
    then cfg.min_delay
    else cfg.min_delay + share (cfg.max_delay - cfg.min_delay)

-- A job waits for its delay, is in `TryRun`, or has ended.
pub data Job : Type 0 where
  delayed trying ended : Job

-- Where a call of `Stop` stands.
pub data StopPc : Type 0 where
  idle entered draining drained following returned : StopPc

-- The fields of `Scheduler`, with the jobs that the crontab has started, oldest first, and the calls of
-- `Stop`. `canceled` is whether the context of the jobs has ended, and `ticking` whether
-- the crontab, to which `Start` adds `entries`, starts jobs.
pub record Scheduler : Type 0 where
  pub cfg : Config
  pub started : Bool
  pub stopping : Bool
  pub done : Bool
  pub has_cancel : Bool
  pub canceled : Bool
  pub ticking : Bool
  pub entries : ℕ
  pub jobs : List Job
  pub stops : ℕ → StopPc

-- New, for a crontab that can be parsed
abbrev pub new : Config → Scheduler
new cfg = record {
  cfg = cfg;
  started = false;
  stopping = false;
  done = false;
  has_cancel = false;
  canceled = false;
  ticking = false;
  entries = 0;
  jobs = [];
  stops = λ i. idle;
}

-- Start, where the context it is given has ended or not and `AddFunc` fails or not
unfoldable pub start : Bool → Option GoError → Scheduler → Option GoError × Scheduler
start parent_ended add_err s =
    if s.started
    then (none, s)
    else if s.stopping
    then (some (text "scheduler is stopped"), s)
    else elim add_err [
      | some e ↦ (some e, record s { has_cancel = true; canceled = true })
      | none ↦ (
        none,
        record s {
          has_cancel = true;
          canceled = parent_ended;
          entries = s.entries + 1;
          ticking = true;
          started = true;
        },
      )
    ]

abbrev pub is_ended : Job → Bool
is_ended delayed = false
is_ended trying = false
is_ended ended = true

abbrev pub all_ended : List Job → Bool
all_ended [] = true
all_ended (j ∷ js) = is_ended j && all_ended js

abbrev pub change : ℕ → (Job → Job) → List Job → List Job
change n f [] = []
change zero f (j ∷ js) = f j ∷ js
change (suc n) f (j ∷ js) = j ∷ change n f js

-- The delay is over.
abbrev pub expire : Job → Job
expire delayed = trying
expire trying = trying
expire ended = ended

-- ctx.Done() during the delay
abbrev pub skip : Job → Job
skip delayed = ended
skip trying = trying
skip ended = ended

-- TryRun has returned, its error only logged.
abbrev pub finish : Job → Job
finish delayed = delayed
finish trying = ended
finish ended = ended

abbrev pub at : ℕ → StopPc → Scheduler → Scheduler
at i p s = record s { stops = λ j. if j == i then p else s.stops j }

-- One step of the call i of `Stop`. `<-stopCtx.Done()` waits for the jobs, `<-done` for the other call.
unfoldable pub advance : ℕ → StopPc → Scheduler → Scheduler
advance i idle s = at i entered s
advance i entered s =
    if s.stopping
    then at i following s
    else at i draining
        (record s { stopping = true; canceled = s.has_cancel || s.canceled; ticking = false })
advance i draining s = if all_ended s.jobs then at i drained s else s
advance i drained s = at i returned (record s { started = false; done = true })
advance i following s = if s.done then at i returned s else s
advance i returned s = s

-- What happens: `Start` is called, the context given to it ends, the crontab starts a job, the delay of
-- a job ends, a job sees that its context has ended, `TryRun` of a job returns, a call of `Stop` begins
-- or takes its next step.
pub data Action : Type 0 where
  start_call : Bool → Option GoError → Action
  interrupt : Action
  tick : (ℕ → ℕ) → Action
  timer cancellation run_end : ℕ → Action
  stop : ℕ → Action

unfoldable pub step : Action → Scheduler → Scheduler
unfolding sample_delay
step (start_call p e) s = (start p e s).1
step interrupt s = record s { canceled = s.has_cancel || s.canceled }
step (tick share) s =
    if s.ticking && ltb 0 s.entries
    then record s {
      jobs = s.jobs ++ ((if ltb 0 (sample_delay share s.cfg) then delayed else trying) ∷ []);
    }
    else s
step (timer n) s = record s { jobs = change n expire s.jobs }
step (cancellation n) s = if s.canceled then record s { jobs = change n skip s.jobs } else s
step (run_end n) s = record s { jobs = change n finish s.jobs }
step (stop i) s = advance i (s.stops i) s

unfoldable pub steps : List Action → Scheduler → Scheduler
steps [] s = s
steps (a ∷ rest) s = steps rest (step a s)
