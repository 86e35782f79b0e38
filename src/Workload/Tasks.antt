-- ===== src/Workload/Tasks.antt =====
-- The operations that go through one gate, interleaved in any order, and the GPU host behind it.
-- A task is a call of `text_workload` or `image_workload` (crates/chatty-broker/src/adapters.rs).
use chatty.Common.{ℕ, Bool, true, false, Option, none, some, List, [], ◌∷◌}
use chatty.Common.{get_elem?, set, replicate}
use chatty.Workload.{
  Workload, text, image, GateState, fresh, admit, switched, drop_guard, drop_waiting,
}

-- `holds kind true` has still to unload the other kind and to call `switched`.
pub data Task : Type 0 where
  idle : Task
  waits : Workload → Task
  holds : Workload → Bool → Task

-- What a task does next: asks for admission, is woken while it waits, is dropped while it waits,
-- ends its unloading of the other kind, which worked or failed, runs a model of its kind, or drops its
-- guard.
pub data Action : Type 0 where
  ask : Workload → Action
  unload : Bool → Action
  wake cancel run_model release : Action

-- Which kinds of model may be in the memory of the host, and whether the last text call that had to
-- unload the image models failed to, which `text_workload` only warns of.
pub record Host : Type 0 where
  pub text_resident : Bool
  pub image_resident : Bool
  pub images_left : Bool

abbrev pub resident : Host → Workload → Bool
resident h text = h.text_resident
resident h image = h.image_resident

abbrev pub set_resident : Host → Workload → Bool → Host
set_resident h text b = record h { text_resident = b }
set_resident h image b = record h { image_resident = b }

pub record State : Type 0 where
  pub gate : GateState
  pub host : Host

-- The other kind is out of the memory.
abbrev pub freed : Host → Workload → Host
freed h text = record h { image_resident = false; images_left = false }
freed h image = record h { text_resident = false }

-- What a round of admission leaves the task with.
abbrev pub after_round : Workload → Option Bool → Task
after_round kind none = waits kind
after_round kind (some switch) = holds kind switch

-- One action of one task: a text call goes on when its unloading failed, an image call ends with an
-- error and drops its guard in the middle of the switch. An action that does not fit the task's state changes nothing.
unfoldable pub act : Action → Task → State → State × Task
act (ask kind) idle s =
    let r = admit s.gate kind false in (record s { gate = r.0 }, after_round kind r.1)
act wake (waits kind) s =
    let r = admit s.gate kind true in (record s { gate = r.0 }, after_round kind r.1)
act cancel (waits kind) s = (record s { gate = drop_waiting s.gate kind true }, idle)
act (unload true) (holds kind true) s =
    (record { gate = switched s.gate; host = freed s.host kind }, holds kind false)
act (unload false) (holds text true) s = (
  record { gate = switched s.gate; host = record (s.host) { images_left = true } },
  holds text false,
)
act (unload false) (holds image true) s = (record s { gate = drop_guard s.gate }, idle)
act run_model (holds kind false) s =
    (record s { host = set_resident s.host kind true }, holds kind false)
act release (holds kind b) s = (record s { gate = drop_guard s.gate }, idle)
act _ t s = (s, t)

pub record System : Type 0 where
  pub state : State
  pub open state use *
  pub tasks : List Task

unfoldable pub step : System → ℕ × Action → System
step s (i, a) = elim (get_elem? s.tasks i) [
  | none ↦ s
  | some t ↦ let r = act a t s.state in record { state = r.0; tasks = set s.tasks i r.1 }
]

unfoldable pub run : System → List (ℕ × Action) → System
run s [] = s
run s (e ∷ es) = run (step s e) es

abbrev empty_host : Host
empty_host = record { text_resident = false; image_resident = false; images_left = false }

-- `n` calls before a gate as `WorkloadGate::default` makes it, and an empty host.
abbrev pub start : ℕ → System
start n = record { state = record { gate = fresh; host = empty_host }; tasks = replicate n idle }
