-- ===== src/Events/Files/Tests.antt =====
-- The theorems on file subjects, for the file of a terminal that one view has open.
use testmerge.Base.{refl, List, [], ◌∷◌, arith}
use testmerge.Base.Maps
use testmerge.Events.Files.{FileSubjects, FileEvent, get_file_subject, release, handle_blockfile}
use testmerge.Events.Files.Objects.{IsTracked}
use testmerge.Events.Files.Tracked.{start, opened, let_go, event, no_subjects, reached-IsTracked}
use testmerge.Events.Files.Holders.{
  FileStep, opens, lets_go, gets, run, Holds, StaysHeld, run-Holds,
}
use testmerge.Events.Files.Leaks.{IsGone, releases, handle_blockfile-leaks}

abbrev output : FileEvent
output = record { zone_id = "b1"; file_name = "term"; file_op = "append"; data64 = "aGk=" }

abbrev one_open : FileSubjects
one_open = (get_file_subject no_subjects "b1" "term").0

one_open-Holds : Holds "b1|term" 0 1 one_open
unfolding get_file_subject Maps.get Maps.set
one_open-Holds = record { mapped = refl; subject = refl }

reached-IsTracked_example : IsTracked (release (handle_blockfile one_open output).0 0)
reached-IsTracked_example = reached-IsTracked (let_go 0 (event output (opened "b1" "term" start)))

abbrev calls : List FileStep
calls = gets output ∷ opens "b2" "term" ∷ lets_go 0 ∷ lets_go 1 ∷ opens "b1" "term" ∷ []

calls-StaysHeld : StaysHeld "b1|term" 0 1 calls
calls-StaysHeld = (omega arith, (omega arith, (omega arith, (omega arith, (omega arith, tt)))))

run-Holds_example : Holds "b1|term" 0 2 (run one_open calls)
run-Holds_example =
    run-Holds "b1|term" 0 1 2 one_open calls (opened "b1" "term" start) one_open-Holds
      calls-StaysHeld refl

handle_blockfile-leaks_example :
    IsGone "b1|term" 0 (run one_open (releases 1 0))
    × Holds "b1|term" 0 1 (run (handle_blockfile one_open output).0 (releases 1 0))
handle_blockfile-leaks_example =
    handle_blockfile-leaks one_open output 0 0 (opened "b1" "term" start) one_open-Holds
