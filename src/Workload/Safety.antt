-- ===== src/Workload/Safety.antt =====
-- Who may hold the gate together, and what may be in the host's memory meanwhile.
use chatty.Common.{ℕ, ◌≡◌, Bool, true, false, some}
use chatty.Common.{List, get_elem?, arith}
use chatty.Workload.{Workload, text, image, other}
use chatty.Workload.Tasks.{holds, Action, Host, System, resident, run, start}
use chatty.Workload.Count.{one_holds, one_unloads, le-total, two-le-total}
use native.Mathlib.Decide.{ℕ_discrete}
use chatty.Workload.Invariant.{IsValid, run-start-IsValid, others_unloads}

-- A task that holds a guard: its kind is the kind that is loaded.
pub holds-loaded :
    (s : System) {k : Workload} {b : Bool} (i : ℕ)
    → IsValid s
    → get_elem? s.tasks i ≡ some (holds k b)
    → s.gate.loaded ≡ some k
holds-loaded s {k = text} {b} i v h =
    v.text_loaded (omega (arith, le-total (one_holds text) s.tasks i (holds text b) h))
holds-loaded s {k = image} {b} i v h =
    v.image_loaded (omega (arith, le-total (one_holds image) s.tasks i (holds image b) h))

-- In every reachable state any two guards that are held are of one kind.
one_kind_holds :
    (n : ℕ) (es : List (ℕ × Action)) (i j : ℕ) {k l : Workload} {b c : Bool}
    → get_elem? (run (start n) es).tasks i ≡ some (holds k b)
    → get_elem? (run (start n) es).tasks j ≡ some (holds l c)
    → k ≡ l
one_kind_holds n es i j p q =
    let s : System = run (start n) es in
    let v : IsValid s = run-start-IsValid n es in cc (holds-loaded s i v p, holds-loaded s j v q)

-- A holder beside one that unloads would make two.
unloads_alone :
    (s : System) {k l : Workload} {b : Bool} (i j : ℕ)
    → IsValid s
    → get_elem? s.tasks i ≡ some (holds k true)
    → get_elem? s.tasks j ≡ some (holds l b)
    → i ≡ j
unloads_alone s {k} {l} {b} i j v p q = elim (ℕ_discrete i j) [
  | yes e ↦ e
  | no ne ↦ ground (
    arith,
    two-le-total (one_holds text) s.tasks i j (holds k true) (holds l b) ne p q,
    two-le-total (one_holds image) s.tasks i j (holds k true) (holds l b) ne p q,
    le-total one_unloads s.tasks i (holds k true) p,
  )
]

-- In every reachable state a task that has still to unload the other kind holds the gate alone.
unloads_alone_reachable :
    (n : ℕ) (es : List (ℕ × Action)) (i j : ℕ) {k l : Workload} {b : Bool}
    → get_elem? (run (start n) es).tasks i ≡ some (holds k true)
    → get_elem? (run (start n) es).tasks j ≡ some (holds l b)
    → i ≡ j
unloads_alone_reachable n es i j p q =
    unloads_alone (run (start n) es) i j (run-start-IsValid n es) p q

-- A task that has its guard and has nothing to unload: no switch is under way.
runs_settled :
    (s : System) {k : Workload} (i : ℕ)
    → IsValid s
    → get_elem? s.tasks i ≡ some (holds k false)
    → s.gate.switching ≡ false
runs_settled s {k = text} i v h = ground (
  arith,
  others_unloads s.tasks i (holds text false) h,
  le-total (one_holds text) s.tasks i (holds text false) h,
)
runs_settled s {k = image} i v h = ground (
  arith,
  others_unloads s.tasks i (holds image false) h,
  le-total (one_holds image) s.tasks i (holds image false) h,
)

-- A text call goes on beside image models that it could not unload; an image call does not go on.
abbrev pub may_share : Host → Workload → Bool
may_share h text = h.images_left
may_share h image = false

-- In every reachable state in which some task holds its guard and has nothing left to unload, no switch
-- is under way, and no model of the other kind is in the memory of the host; for a text call under the
-- condition that the last unloading of the image models worked.
pub runs_alone :
    (n : ℕ) (es : List (ℕ × Action)) (i : ℕ) {k : Workload}
    → get_elem? (run (start n) es).tasks i ≡ some (holds k false)
    → may_share (run (start n) es).host k ≡ false
    → (resident (run (start n) es).host (other k) ≡ false)
      × ((run (start n) es).gate.switching ≡ false)
runs_alone n es i {k = text} p unshared =
    let s : System = run (start n) es in
    let v : IsValid s = run-start-IsValid n es in
    (v.no_image (holds-loaded s i v p) (runs_settled s i v p) unshared, runs_settled s i v p)
runs_alone n es i {k = image} p unshared =
    let s : System = run (start n) es in
    let v : IsValid s = run-start-IsValid n es in
    (v.no_text (holds-loaded s i v p) (runs_settled s i v p), runs_settled s i v p)
