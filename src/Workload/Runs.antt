-- ===== src/Workload/Runs.antt =====
-- The two scenarios of the tests in workload.rs, and the theorems at states that they reach.
use chatty.Common.{ℕ, ◌≡◌, ◌≤◌, refl, true, false, List, [], ◌∷◌, ◌++◌}
use chatty.Workload.{text, image, admit, switched, drop_guard, drop_waiting}
use chatty.Workload.Tasks.{
  idle, waits, holds, Action, ask, wake, cancel, unload, run_model, release, act, step, run, start,
  resident,
}
use chatty.Workload.Count.{total, one_holds}
use chatty.Workload.Invariant.{IsValid, run-start-IsValid}
use chatty.Workload.Safety.{runs_alone}
use chatty.Workload.Progress.{Admits, idle-Admits, waiter_not_overtaken}

-- Two text calls share the gate, an image call queues, and a third text call queues behind it.
abbrev sharing : List (ℕ × Action)
sharing =
    (0, ask text)
    ∷ (0, unload true)
    ∷ (0, run_model)
    ∷ (1, ask text)
    ∷ (2, ask image)
    ∷ (3, ask text)
    ∷ []

-- The text calls end; the image call is woken, and unloads text first.
abbrev drained : List (ℕ × Action)
drained = sharing ++ (0, release) ∷ (1, release) ∷ []

abbrev handed : List (ℕ × Action)
handed = drained ++ (3, wake) ∷ (2, wake) ∷ []

sharing_tasks :
    (run (start 4) sharing).tasks
    ≡ holds text false ∷ holds text false ∷ waits image ∷ waits text ∷ []
unfolding run step act admit switched
sharing_tasks = refl

handed_tasks : (run (start 4) handed).tasks ≡ idle ∷ idle ∷ holds image true ∷ waits text ∷ []
unfolding run step act admit switched drop_guard
handed_tasks = refl

-- A cancelled waiter does not block admission.
cancelled_waiter :
    (run
      (start 3)
      ((0, ask text) ∷ (0, unload true) ∷ (1, ask image) ∷ (1, cancel) ∷ (2, ask text) ∷ [])).tasks
    ≡ holds text false ∷ idle ∷ holds text false ∷ []
unfolding run step act admit switched drop_waiting
cancelled_waiter = refl

-- A text call goes on after it could not unload the image models: the host holds both kinds.
both_kinds :
    (run (start 1) (
      (0, ask image)
      ∷ (0, unload true)
      ∷ (0, run_model)
      ∷ (0, release)
      ∷ (0, ask text)
      ∷ (0, unload false)
      ∷ (0, run_model)
      ∷ [])).host
    ≡ record { text_resident = true; image_resident = true; images_left = true }
unfolding run step act admit switched drop_guard
both_kinds = refl

-- An image call that could not unload the text models ends, and the next one has to unload again.
unload_again :
    (run (start 2) ((0, ask image) ∷ (0, unload false) ∷ (1, ask image) ∷ [])).tasks
    ≡ idle ∷ holds image true ∷ []
unfolding run step act admit switched drop_guard
unload_again = refl

run-start-IsValid_example : IsValid (run (start 4) handed)
run-start-IsValid_example = run-start-IsValid 4 handed

runs_alone_example :
    (resident (run (start 4) sharing).host image ≡ false)
    × ((run (start 4) sharing).gate.switching ≡ false)
unfolding run step act admit switched
runs_alone_example = runs_alone 4 sharing 0 {k = text} refl refl

idle-Admits_example : Admits (run (start 4) drained)
unfolding run step act admit switched drop_guard
idle-Admits_example = idle-Admits 4 drained 3 {k = text} refl refl

waiter_not_overtaken_example :
    total (one_holds text) (step (run (start 4) sharing) (3, wake)).tasks
    ≤ total (one_holds text) (run (start 4) sharing).tasks
unfolding run step act admit switched
waiter_not_overtaken_example = waiter_not_overtaken 4 sharing 2 text (3, wake) refl refl
