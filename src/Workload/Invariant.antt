-- ===== src/Workload/Invariant.antt =====
-- What ties the gate's counters to the tasks behind it, at every moment of every interleaving.
use chatty.Common.{ℕ, zero, suc, ◌+◌, ◌-◌, ◌≤◌, ◌<◌, ◌≡◌, refl, true, false, some}
use chatty.Common.{List, [], ◌∷◌, get_elem?, set, arith, inl, inr, Option-cases}
use chatty.Workload.{Workload, text, image, admit, switched, drop_guard, drop_waiting}
use chatty.Workload.Tasks.{
  Task, idle, waits, holds, Action, ask, wake, cancel, unload, run_model, release, State, System,
  act, step, run, start,
}
use chatty.Workload.Count.{
  total, one_waits, one_holds, one_unloads, total-set, le-total, total-idle, one_unloads-le_holds,
}

-- A state with the numbers of tasks that wait for each kind, hold each kind, and are unloading.
pub record Agrees (s : State) (wt wi ht hi u : ℕ) : Type 0 where
  pub counted : s.gate.active ≡ ht + hi
  pub waits_text : s.gate.waiting_text ≡ wt
  pub waits_image : s.gate.waiting_image ≡ wi
  pub one_switch : s.gate.switching ≡ true → (u ≡ 1) × (ht + hi ≡ 1)
  pub no_switch : s.gate.switching ≡ false → u ≡ 0
  pub text_loaded : 0 < ht → s.gate.loaded ≡ some text
  pub image_loaded : 0 < hi → s.gate.loaded ≡ some image
  pub no_image :
      s.gate.loaded ≡ some text
      → s.gate.switching ≡ false
      → s.host.images_left ≡ false
      → s.host.image_resident ≡ false
  pub no_text : s.gate.loaded ≡ some image → s.gate.switching ≡ false → s.host.text_resident ≡ false
  pub one_kind :
      s.host.text_resident ≡ true → s.host.images_left ≡ false → s.host.image_resident ≡ false

-- The numbers before and after an action: those of the other tasks, and the task's own.
abbrev AgreesWith : State → Task → ℕ → ℕ → ℕ → ℕ → ℕ → Type 0
AgreesWith s t wt wi ht hi u =
    Agrees s (wt + one_waits text t) (wi + one_waits image t) (ht + one_holds text t)
      (hi + one_holds image t) (u + one_unloads t)

module _ (s : State) (wt wi ht hi u : ℕ) (few : u ≤ ht + hi) where
  ask-Agrees :
      (k : Workload)
      → AgreesWith s idle wt wi ht hi u
      → AgreesWith (act (ask k) idle s).0 (act (ask k) idle s).1 wt wi ht hi u
  unfolding act admit switched drop_guard drop_waiting
  ask-Agrees text v = ground arith
  ask-Agrees image v = ground arith

  wake-Agrees :
      (k : Workload)
      → AgreesWith s (waits k) wt wi ht hi u
      → AgreesWith (act wake (waits k) s).0 (act wake (waits k) s).1 wt wi ht hi u
  unfolding act admit switched drop_guard drop_waiting
  wake-Agrees text v = ground arith
  wake-Agrees image v = ground arith

  act-Agrees :
      (a : Action) (t : Task)
      → AgreesWith s t wt wi ht hi u
      → AgreesWith (act a t s).0 (act a t s).1 wt wi ht hi u
  unfolding act admit switched drop_guard drop_waiting
  act-Agrees (ask k) idle v = ask-Agrees k v
  act-Agrees wake (waits k) v = wake-Agrees k v
  act-Agrees cancel (waits text) v = ground arith
  act-Agrees cancel (waits image) v = ground arith
  act-Agrees (unload true) (holds text true) v = ground arith
  act-Agrees (unload true) (holds image true) v = ground arith
  act-Agrees (unload false) (holds text true) v = ground arith
  act-Agrees (unload false) (holds image true) v = ground arith
  act-Agrees run_model (holds text false) v = ground arith
  act-Agrees run_model (holds image false) v = ground arith
  act-Agrees release (holds text true) v = ground arith
  act-Agrees release (holds image true) v = ground arith
  act-Agrees release (holds text false) v = ground arith
  act-Agrees release (holds image false) v = ground arith
  act-Agrees _ _ v = v

-- The gate and the host agree with the list of tasks.
abbrev pub IsValid : System → Type 0
IsValid s =
    let ts = s.tasks in
    Agrees s.state (total (one_waits text) ts) (total (one_waits image) ts)
      (total (one_holds text) ts) (total (one_holds image) ts) (total one_unloads ts)

-- The others: what is left of a sum when one summand is taken out.
split_off : (n w : ℕ) → w ≤ n → (n - w) + w ≡ n
split_off n w h = omega arith

pub total-unloads-le :
    (ts : List Task) → total one_unloads ts ≤ total (one_holds text) ts + total (one_holds image) ts
total-unloads-le [] = omega arith
total-unloads-le (t ∷ ts) = omega (arith, one_unloads-le_holds t, total-unloads-le ts)

pub others_unloads :
    (ts : List Task) (i : ℕ) (t : Task)
    → get_elem? ts i ≡ some t
    → total one_unloads ts - one_unloads t
      ≤ (total (one_holds text) ts - one_holds text t)
        + (total (one_holds image) ts - one_holds image t)
others_unloads [] i t h = absurd (ground arith)
others_unloads (x ∷ ts) zero t h = ground (arith, total-unloads-le ts)
others_unloads (x ∷ ts) (suc i) t h = omega (
  arith,
  others_unloads ts i t h,
  one_unloads-le_holds x,
  le-total one_unloads ts i t h,
  le-total (one_holds text) ts i t h,
  le-total (one_holds image) ts i t h,
)

module _ (ts : List Task) (i : ℕ) (t u : Task) (at : get_elem? ts i ≡ some t) where
  before : (w : Task → ℕ) → (total w ts - w t) + w t ≡ total w ts
  before w = omega (arith, le-total w ts i t at)

  after : (w : Task → ℕ) → (total w ts - w t) + w u ≡ total w (set ts i u)
  after w = omega (arith, le-total w ts i t at, total-set w ts i t u at)

at_task :
    (s : System) (i : ℕ) (a : Action) (t : Task)
    → get_elem? s.tasks i ≡ some t
    → IsValid s
    → IsValid (record { state = (act a t s.state).0; tasks = set s.tasks i (act a t s.state).1 })
at_task s i a t h v =
    let u = (act a t s.state).1 in
    let ts = s.tasks in
    rw
      (
        ← after ts i t u h (one_waits text),
        ← after ts i t u h (one_waits image),
        ← after ts i t u h (one_holds text),
        ← after ts i t u h (one_holds image),
        ← after ts i t u h one_unloads,
      )
      (act-Agrees s.state _ _ _ _ _ (others_unloads ts i t h) a t (
        rw
          (
            before ts i t u h (one_waits text),
            before ts i t u h (one_waits image),
            before ts i t u h (one_holds text),
            before ts i t u h (one_holds image),
            before ts i t u h one_unloads,
          )
          v))

pub step-IsValid : (s : System) (e : ℕ × Action) → IsValid s → IsValid (step s e)
unfolding step
step-IsValid s (i, a) v = elim (Option-cases (get_elem? s.tasks i)) [
  | inl e ↦ rw (e, step) v
  | inr (t, e) ↦ rw (e, step) (at_task s i a t e v)
]

pub start-IsValid : (n : ℕ) → IsValid (start n)
start-IsValid n = ground (
  arith,
  total-idle (one_waits text) n refl,
  total-idle (one_waits image) n refl,
  total-idle (one_holds text) n refl,
  total-idle (one_holds image) n refl,
  total-idle one_unloads n refl,
)

pub run-IsValid : (s : System) (es : List (ℕ × Action)) → IsValid s → IsValid (run s es)
unfolding run
run-IsValid s [] v = v
run-IsValid s (e ∷ es) v = run-IsValid (step s e) es (step-IsValid s e v)

-- From a default gate and an empty host, after any number of calls interleaved in any way: the
-- gate's `active`, `waiting` and `switching` count the tasks that hold a guard, wait and unload,
-- the kind that is held is the kind that is loaded, a task that unloads holds the gate alone, and
-- the host holds both kinds of model only after a text call failed to unload the image models.
pub run-start-IsValid : (n : ℕ) (es : List (ℕ × Action)) → IsValid (run (start n) es)
run-start-IsValid n es = run-IsValid (start n) es (start-IsValid n)
