-- ===== src/Workload/Progress.antt =====
-- When the gate is free some task that waits would be admitted, and a kind that waits is not overtaken by the kind that is loaded.
use chatty.Common.{ℕ, ◌⊎◌, not, ◌≤◌, ◌<◌, ◌≡◌, refl, Bool, true, false, some}
use chatty.Common.{List, [], ◌∷◌, get_elem?, set, arith, inl, inr, Option-cases, zero, suc}
use native.Mathlib.Decide.{dec_lt}
use native.Mathlib.Nat.{le_refl}
use chatty.Workload.{Workload, text, image, other, waiting, admit, admits, is_loaded, GateState}
use chatty.Workload.Tasks.{
  Task, idle, waits, holds, Action, wake, ask, cancel, unload, run_model, release, State, System,
  act, step, run, start,
}
use chatty.Workload.Count.{total, one_waits, one_holds, le-total, find_waiter, total-set}
use chatty.Workload.Invariant.{IsValid, run-start-IsValid}

-- With no guard held and no switch under way, a kind is admitted if nobody waits for the other.
admits_idle :
    (g : GateState) (k : Workload)
    → g.active ≡ 0
    → g.switching ≡ false
    → waiting g (other k) ≡ 0
    → admits g k ≡ true
unfolding admits
admits_idle g text a b c = ground arith
admits_idle g image a b c = ground arith

-- And if both wait, the kind that is not loaded is admitted.
admits_either :
    (g : GateState)
    → g.active ≡ 0
    → g.switching ≡ false
    → (admits g text ≡ true) ⊎ (admits g image ≡ true)
unfolding admits
admits_either g a b = ground arith

waits_positive :
    (s : System) (i : ℕ) (k : Workload)
    → IsValid s
    → get_elem? s.tasks i ≡ some (waits k)
    → 0 < waiting s.gate k
waits_positive s i text v h = omega (arith, le-total (one_waits text) s.tasks i (waits text) h, v)
waits_positive s i image v h =
    omega (arith, le-total (one_waits image) s.tasks i (waits image) h, v)

find_waiting :
    (s : System) (k : Workload)
    → IsValid s
    → 0 < waiting s.gate k
    → (i : ℕ) × (get_elem? s.tasks i ≡ some (waits k))
find_waiting s text v h = find_waiter text s.tasks (omega (arith, v))
find_waiting s image v h = find_waiter image s.tasks (omega (arith, v))

set_self {ℓ} :
    {A : Type ℓ} (xs : List A) (i : ℕ) {a : A}
    → get_elem? xs i ≡ some a
    → (w : A) → get_elem? (set xs i w) i ≡ some w
set_self [] i h w = cc
set_self (x ∷ xs) zero h w = refl
set_self (x ∷ xs) (suc i) h w = set_self xs i h w

admit_ready :
    (g : GateState) (k : Workload) (c : Bool)
    → admits g k ≡ true
    → (admit g k c).1 ≡ some (not (is_loaded g.loaded k))
unfolding admit
admit_ready g k c h = ground arith

-- A waiting task that is woken when its kind is admitted holds its guard.
woken :
    (s : System) (i : ℕ) (k : Workload)
    → get_elem? s.tasks i ≡ some (waits k)
    → admits s.gate k ≡ true
    → (b : Bool) × (get_elem? (step s (i, wake)).tasks i ≡ some (holds k b))
unfolding step act
woken s i k h a = (
  not (is_loaded s.gate.loaded k),
  rw (h, step, admit_ready s.gate k true a) (set_self s.tasks i h _),
)

-- Some task that waits is admitted, if one waits.
abbrev pub Admits : System → Type 0
Admits s =
    (j : ℕ) × (k : Workload) × (b : Bool) × (get_elem? s.tasks j ≡ some (waits k))
    × (get_elem? (step s (j, wake)).tasks j ≡ some (holds k b))

admits_waiter :
    (s : System) (k : Workload)
    → IsValid s
    → 0 < waiting s.gate k
    → admits s.gate k ≡ true
    → Admits s
admits_waiter s k v w a =
    let (j, h) = find_waiting s k v w in let (b, e) = woken s j k h a in (j, k, b, h, e)

-- A gate that nobody holds is not switching.
idle_settled : (s : System) → IsValid s → s.gate.active ≡ 0 → s.gate.switching ≡ false
idle_settled s v a = ground arith

-- Both kinds wait: the one that is admitted has a task to wake.
both-Admits :
    (s : System)
    → IsValid s
    → s.gate.active ≡ 0
    → ((k : Workload) → 0 < waiting s.gate k)
    → Admits s
both-Admits s v a w = elim (admits_either s.gate a (idle_settled s v a)) [
  | inl p ↦ admits_waiter s text v (w text) p
  | inr p ↦ admits_waiter s image v (w image) p
]

each_kind :
    (g : GateState) (k : Workload)
    → 0 < waiting g k
    → 0 < waiting g (other k)
    → (j : Workload) → 0 < waiting g j
each_kind g text p q text = p
each_kind g text p q image = q
each_kind g image p q text = q
each_kind g image p q image = p

valid_idle-Admits :
    (s : System) (i : ℕ) (k : Workload)
    → IsValid s
    → s.gate.active ≡ 0
    → get_elem? s.tasks i ≡ some (waits k)
    → Admits s
valid_idle-Admits s i k v a h = elim (dec_lt 0 (waiting s.gate (other k))) [
  | yes both ↦ both-Admits s v a (each_kind s.gate k (waits_positive s i k v h) both)
  | no alone ↦
      admits_waiter s k v (waits_positive s i k v h)
        (admits_idle s.gate k a (idle_settled s v a) (omega arith))
]

-- In every reachable state in which nobody holds a guard and some task waits, there is a waiting
-- task whose next round of the admission loop gives it its guard. Whether it is notified, so that it
-- takes that round, is not stated.
pub idle-Admits :
    (n : ℕ) (es : List (ℕ × Action)) (i : ℕ) {k : Workload}
    → (run (start n) es).gate.active ≡ 0
    → get_elem? (run (start n) es).tasks i ≡ some (waits k)
    → Admits (run (start n) es)
idle-Admits n es i {k} a h = valid_idle-Admits (run (start n) es) i k (run-start-IsValid n es) a h

-- One action of one task, while the other kind waits and `k` is loaded.
act-holds-le :
    (a : Action) (t : Task) (s : State) (k : Workload)
    → s.gate.loaded ≡ some k
    → 0 < waiting s.gate (other k)
    → one_holds k (act a t s).1 ≤ one_holds k t
unfolding act admit admits
act-holds-le (ask text) idle s text l w = ground arith
act-holds-le (ask text) idle s image l w = ground arith
act-holds-le (ask image) idle s text l w = ground arith
act-holds-le (ask image) idle s image l w = ground arith
act-holds-le wake (waits text) s text l w = ground arith
act-holds-le wake (waits text) s image l w = ground arith
act-holds-le wake (waits image) s text l w = ground arith
act-holds-le wake (waits image) s image l w = ground arith
act-holds-le cancel (waits j) s k l w = omega arith
act-holds-le (unload true) (holds j true) s k l w = omega arith
act-holds-le (unload false) (holds text true) s k l w = omega arith
act-holds-le (unload false) (holds image true) s k l w = omega arith
act-holds-le run_model (holds j false) s k l w = omega arith
act-holds-le release (holds j b) s k l w = omega arith
act-holds-le _ _ s k l w = omega arith

step_le :
    (s : System) (k : Workload) (j : ℕ) (a : Action)
    → s.gate.loaded ≡ some k
    → 0 < waiting s.gate (other k)
    → total (one_holds k) (step s (j, a)).tasks ≤ total (one_holds k) s.tasks
unfolding step
step_le s k j a l w = elim (Option-cases (get_elem? s.tasks j)) [
  | inl e ↦ rw (e, step) (le_refl _)
  | inr (t, e) ↦
      rw (e, step)
        (omega (
          arith,
          total-set (one_holds k) s.tasks j t (act a t s.state).1 e,
          act-holds-le a t s.state k l w,
        ))
]

-- In every reachable state in which kind `k` is loaded and a task of the other kind waits, no next
-- action adds a holder of kind `k`: the loaded kind cannot overtake the kind that waits.
pub waiter_not_overtaken :
    (n : ℕ) (es : List (ℕ × Action)) (i : ℕ) (k : Workload) (e : ℕ × Action)
    → (run (start n) es).gate.loaded ≡ some k
    → get_elem? (run (start n) es).tasks i ≡ some (waits (other k))
    → total (one_holds k) (step (run (start n) es) e).tasks
      ≤ total (one_holds k) (run (start n) es).tasks
waiter_not_overtaken n es i k (j, a) l h =
    let s : System = run (start n) es in
    step_le s k j a l (waits_positive s i (other k) (run-start-IsValid n es) h)
