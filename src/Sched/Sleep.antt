-- ===== src/Sched/Sleep.antt =====
-- kernel/process.c: the list of sleeping threads, ordered by their deadlines, and waking.
use pro_os.Prelude.{ℕ, true, false, List, [], ◌∷◌, ltb, leb, if◌then◌else◌}
use pro_os.Sched.{Sched, ready, is_waiting, thread, update, boost_priority}
use pro_os.Sched.Ready.{unlink, enqueue_ready}

-- `scheduler_remove_from_sleep`
abbrev pub remove_from_sleep : Sched → ℕ → Sched
remove_from_sleep s i = record s { sleepers = unlink i s.sleepers }

-- The walk in `scheduler_insert_sleep`: behind all threads with the same or an earlier deadline
unfoldable pub insert_by : Sched → ℕ → List ℕ → List ℕ
insert_by s i [] = i ∷ []
insert_by s i (j ∷ js) =
    let rest = insert_by s i js in
    if ltb (thread s i).wake_deadline (thread s j).wake_deadline then i ∷ j ∷ js else j ∷ rest

-- `scheduler_insert_sleep`
unfoldable pub insert_sleep : Sched → ℕ → Sched
insert_sleep s i = record s { sleepers = insert_by s i (unlink i s.sleepers) }

-- A thread becomes READY and goes into its queue, with a raised priority.
unfoldable pub make_ready : Sched → ℕ → Sched
make_ready s i =
    enqueue_ready (update s i (record (boost_priority (thread s i)) { state = ready })) i

-- The loop of `wake_sleepers`, on the rest of the list
unfoldable pub wake_from : ℕ → List ℕ → Sched → Sched
wake_from now [] s = record s { sleepers = [] }
wake_from now (i ∷ is) s = elim (leb (thread s i).wake_deadline now) [
  | false ↦ record s { sleepers = i ∷ is }
  | true ↦ wake_from now is (
      make_ready (update (record s { sleepers = is }) i (record (thread s i) { wake_deadline = 0 }))
        i)
]

abbrev pub wake_sleepers : ℕ → Sched → Sched
wake_sleepers now s = wake_from now s.sleepers s

-- `process_wake`
unfoldable pub wake : Sched → ℕ → Sched
wake s i = if is_waiting (thread s i).state then make_ready (remove_from_sleep s i) i else s
