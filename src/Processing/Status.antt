-- ===== src/Processing/Status.antt =====
-- src/logicblocks/event/processing/process: the status of a process, and the one status of several
-- processes.
pub mod Ladder
use event_store.Prelude.{
  ◌≡◌, Bool, true, false, ◌||◌, List, any, all, HasEquality, ◌==◌, arith, ◌↔◌, if◌then◌else◌,
}

pub data ProcessStatus : Type 0 where
  initialised : ProcessStatus
  starting : ProcessStatus
  waiting : ProcessStatus
  running : ProcessStatus
  stopping : ProcessStatus
  stopped : ProcessStatus
  errored : ProcessStatus

abbrev pub status_beq : ProcessStatus → ProcessStatus → Bool
status_beq initialised initialised = true
status_beq starting starting = true
status_beq waiting waiting = true
status_beq running running = true
status_beq stopping stopping = true
status_beq stopped stopped = true
status_beq errored errored = true
status_beq _ _ = false

unfoldable pub determine_multi_process_status : List ProcessStatus → ProcessStatus
determine_multi_process_status statuses =
    if any (λ status. status_beq status errored) statuses
    then errored
    else if all (λ status. status_beq status stopped) statuses
    then stopped
    else if any (λ status. status_beq status stopping) statuses
    then stopping
    else if any (λ status. status_beq status stopped) statuses
    then stopping
    else if any (λ status. status_beq status starting) statuses
    then starting
    else if all (λ status. status_beq status initialised) statuses
    then initialised
    else if all (λ status. status_beq status waiting) statuses
    then waiting
    else if all (λ status. status_beq status running || status_beq status waiting) statuses
    then running
    else if all
        (λ status.
          status_beq status initialised || status_beq status waiting || status_beq status running)
        statuses
    then starting
    else if any (λ status. status_beq status running) statuses
    then running
    else if any (λ status. status_beq status waiting) statuses
    then waiting
    else initialised
