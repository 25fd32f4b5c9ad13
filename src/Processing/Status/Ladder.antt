-- ===== src/Processing/Status/Ladder.antt =====
-- What the ladder of tests comes to.
use event_store.Prelude.{
  ◌≡◌, Bool, ◌&&◌, ◌||◌, not, List, [], ◌∷◌, any, all, arith, if◌then◌else◌, Bool-cases, inl, inr,
}
use event_store.Processing.Status.{
  ProcessStatus, initialised, starting, waiting, running, stopping, stopped, errored, status_beq,
  determine_multi_process_status,
}

-- One of the processes has the status.
abbrev pub is_present : List ProcessStatus → ProcessStatus → Bool
is_present statuses s = any (λ status. status_beq status s) statuses

abbrev is_other : List ProcessStatus → (ProcessStatus → Bool) → Bool
is_other statuses test =
    (not (test initialised) && is_present statuses initialised)
    || (not (test starting) && is_present statuses starting)
    || (not (test waiting) && is_present statuses waiting)
    || (not (test running) && is_present statuses running)
    || (not (test stopping) && is_present statuses stopping)
    || (not (test stopped) && is_present statuses stopped)
    || (not (test errored) && is_present statuses errored)

-- A test holds of all the processes when no status that fails it is present.
all-eq :
    (test : ProcessStatus → Bool) (statuses : List ProcessStatus)
    → all test statuses ≡ not (is_other statuses test)
all-eq test [] = ground arith
all-eq test (initialised ∷ statuses) = elim (Bool-cases (test initialised)) [
  | inl h ↦ ground (arith, h, all-eq test statuses)
  | inr h ↦ ground (arith, h)
]
all-eq test (starting ∷ statuses) = elim (Bool-cases (test starting)) [
  | inl h ↦ ground (arith, h, all-eq test statuses)
  | inr h ↦ ground (arith, h)
]
all-eq test (waiting ∷ statuses) = elim (Bool-cases (test waiting)) [
  | inl h ↦ ground (arith, h, all-eq test statuses)
  | inr h ↦ ground (arith, h)
]
all-eq test (running ∷ statuses) = elim (Bool-cases (test running)) [
  | inl h ↦ ground (arith, h, all-eq test statuses)
  | inr h ↦ ground (arith, h)
]
all-eq test (stopping ∷ statuses) = elim (Bool-cases (test stopping)) [
  | inl h ↦ ground (arith, h, all-eq test statuses)
  | inr h ↦ ground (arith, h)
]
all-eq test (stopped ∷ statuses) = elim (Bool-cases (test stopped)) [
  | inl h ↦ ground (arith, h, all-eq test statuses)
  | inr h ↦ ground (arith, h)
]
all-eq test (errored ∷ statuses) = elim (Bool-cases (test errored)) [
  | inl h ↦ ground (arith, h, all-eq test statuses)
  | inr h ↦ ground (arith, h)
]

-- What the statuses that are present come to.
abbrev pub overall : (ProcessStatus → Bool) → ProcessStatus
overall present =
    if present errored
    then errored
    else if present stopping
    then stopping
    else if present stopped
    then (if present initialised || present starting || present waiting || present running
        then stopping
        else stopped)
    else if present starting
    then starting
    else if present initialised
    then (if present waiting || present running then starting else initialised)
    else if present running
    then running
    else if present waiting
    then waiting
    else stopped

-- The overall status depends on which statuses are present alone, not on their order or number:
-- an error wins, then stopping, and a process that has stopped beside one that has not counts as
-- stopping; then starting, as which processes that are initialised beside others also count; then
-- running, and waiting. No process at all counts as stopped.
pub determine_multi_process_status-overall :
    (statuses : List ProcessStatus)
    → determine_multi_process_status statuses ≡ overall (is_present statuses)
unfolding determine_multi_process_status
determine_multi_process_status-overall statuses =
    rw (all-eq, all-eq, all-eq, all-eq, all-eq) (ground arith)
