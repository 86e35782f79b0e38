-- ===== src/Workload.antt =====
-- crates/chatty-broker/src/workload.rs: the gate that keeps text and image models from
-- occupying one shared GPU host at once. A call of a locked section is one step on `GateState`.
pub mod Tasks
pub mod Count
pub mod Invariant
pub mod Safety
pub mod Progress
mod Runs
use chatty.Common.{ℕ, ◌+◌, ◌-◌, Bool, true, false, ◌&&◌, not, Option, none, some, ltb, ◌==◌}
use chatty.Common.{if◌then◌else◌}

pub data Workload : Type 0 where
  text image : Workload

abbrev pub other : Workload → Workload
other text = image
other image = text

-- `waiting` is an array indexed by the kind: one field for each.
pub record GateState : Type 0 where
  pub loaded : Option Workload
  pub active : ℕ
  pub waiting_text : ℕ
  pub waiting_image : ℕ
  pub switching : Bool

abbrev pub fresh : GateState
fresh = record { loaded = none; active = 0; waiting_text = 0; waiting_image = 0; switching = false }

abbrev pub waiting : GateState → Workload → ℕ
waiting g text = g.waiting_text
waiting g image = g.waiting_image

abbrev add_waiting : GateState → Workload → GateState
add_waiting g text = record g { waiting_text = g.waiting_text + 1 }
add_waiting g image = record g { waiting_image = g.waiting_image + 1 }

abbrev sub_waiting : GateState → Workload → GateState
sub_waiting g text = record g { waiting_text = g.waiting_text - 1 }
sub_waiting g image = record g { waiting_image = g.waiting_image - 1 }

-- `state.loaded == Some(kind)`
abbrev pub is_loaded : Option Workload → Workload → Bool
is_loaded none kind = false
is_loaded (some text) text = true
is_loaded (some text) image = false
is_loaded (some image) text = false
is_loaded (some image) image = true

-- The condition `admit` of the loop in `WorkloadGate::admit`.
unfoldable pub admits : GateState → Workload → Bool
admits g kind =
    let other_waiting = ltb 0 (waiting g (other kind)) in
    let same = is_loaded g.loaded kind in
    not g.switching
    && (if g.active == 0 then not (same && other_waiting) else same && not other_waiting)

-- One round of the loop: `some switch` returns a guard, `none` goes on waiting, then counted.
unfoldable pub admit : GateState → Workload → Bool → GateState × Option Bool
unfolding admits
admit g kind counted =
    if admits g kind
    then (
      enter (if counted then sub_waiting g kind else g) kind,
      some (not (is_loaded g.loaded kind)),
    )
    else (if counted then g else add_waiting g kind, none)
  where
    enter : GateState → Workload → GateState
    enter h k = record h {
      loaded = some k;
      active = h.active + 1;
      switching = not (is_loaded g.loaded kind);
    }

-- `WorkloadGate::switched`
unfoldable pub switched : GateState → GateState
switched g = record g { switching = false }

-- `Drop for WorkloadGuard`, of a guard that holds a gate.
unfoldable pub drop_guard : GateState → GateState
drop_guard g =
    let h : GateState = record g { active = g.active - 1 } in
    if g.switching then record h { switching = false; loaded = none } else h

-- `Drop for Waiting`: an admission future is dropped while it is queued.
unfoldable pub drop_waiting : GateState → Workload → Bool → GateState
drop_waiting g kind counted = if counted then sub_waiting g kind else g
