-- ===== src/Workload/Count.antt =====
-- How many tasks wait, hold the gate, or are unloading: sums over the list of tasks.
use chatty.Common.{ℕ, zero, suc, ◌+◌, ◌≤◌, ◌<◌, ◌≡◌, ◌≢◌, ap, refl, true, false, some}
use chatty.Common.{List, [], ◌∷◌, get_elem?, set, replicate, arith}
use chatty.Workload.{Workload, text, image}
use chatty.Workload.Tasks.{Task, idle, waits, holds}

abbrev pub total : (Task → ℕ) → List Task → ℕ
total w [] = 0
total w (t ∷ ts) = w t + total w ts

abbrev pub same_kind : Workload → Workload → ℕ
same_kind text text = 1
same_kind image image = 1
same_kind text image = 0
same_kind image text = 0

abbrev pub one_waits : Workload → Task → ℕ
one_waits k idle = 0
one_waits k (waits j) = same_kind k j
one_waits k (holds j b) = 0

abbrev pub one_holds : Workload → Task → ℕ
one_holds k idle = 0
one_holds k (waits j) = 0
one_holds k (holds j b) = same_kind k j

abbrev pub one_unloads : Task → ℕ
one_unloads idle = 0
one_unloads (waits j) = 0
one_unloads (holds j true) = 1
one_unloads (holds j false) = 0

pub total-set :
    (w : Task → ℕ) (ts : List Task) (i : ℕ) (t u : Task)
    → get_elem? ts i ≡ some t
    → total w (set ts i u) + w t ≡ total w ts + w u
total-set w [] i t u h = absurd (ground arith)
total-set w (x ∷ ts) zero t u h = ground arith
total-set w (x ∷ ts) (suc i) t u h = omega (arith, total-set w ts i t u h)

pub le-total :
    (w : Task → ℕ) (ts : List Task) (i : ℕ) (t : Task) → get_elem? ts i ≡ some t → w t ≤ total w ts
le-total w [] i t h = absurd (ground arith)
le-total w (x ∷ ts) zero t h = ground arith
le-total w (x ∷ ts) (suc i) t h = omega (arith, le-total w ts i t h)

pub total-idle : (w : Task → ℕ) (n : ℕ) → w idle ≡ 0 → total w (replicate n idle) ≡ 0
total-idle w zero h = refl
total-idle w (suc n) h = omega (arith, total-idle w n h)

pub one_unloads-le_holds : (t : Task) → one_unloads t ≤ one_holds text t + one_holds image t
one_unloads-le_holds idle = omega arith
one_unloads-le_holds (waits k) = omega arith
one_unloads-le_holds (holds text true) = omega arith
one_unloads-le_holds (holds text false) = omega arith
one_unloads-le_holds (holds image true) = omega arith
one_unloads-le_holds (holds image false) = omega arith

pub two-le-total :
    (w : Task → ℕ) (ts : List Task) (i j : ℕ) (t u : Task)
    → i ≢ j
    → get_elem? ts i ≡ some t
    → get_elem? ts j ≡ some u
    → w t + w u ≤ total w ts
two-le-total w [] i j t u ne p q = absurd (ground arith)
two-le-total w (x ∷ ts) zero zero t u ne p q = absurd (ne refl)
two-le-total w (x ∷ ts) zero (suc j) t u ne p q = ground (arith, le-total w ts j u q)
two-le-total w (x ∷ ts) (suc i) zero t u ne p q = ground (arith, le-total w ts i t p)
two-le-total w (x ∷ ts) (suc i) (suc j) t u ne p q =
    omega (arith, two-le-total w ts i j t u (λ e. ne (ap suc e)) p q)

next :
    (k : Workload) (t : Task) (ts : List Task)
    → (i : ℕ) × (get_elem? ts i ≡ some (waits k))
    → (i : ℕ) × (get_elem? (t ∷ ts) i ≡ some (waits k))
next k t ts (i, e) = (suc i, e)

-- A sum of ones that is not zero has a summand that is not.
pub find_waiter :
    (k : Workload) (ts : List Task)
    → 0 < total (one_waits k) ts
    → (i : ℕ) × (get_elem? ts i ≡ some (waits k))
find_waiter k [] h = absurd (omega arith)
find_waiter text (waits text ∷ ts) h = (0, refl)
find_waiter image (waits image ∷ ts) h = (0, refl)
find_waiter text (waits image ∷ ts) h =
    next text (waits image) ts (find_waiter text ts (omega arith))
find_waiter image (waits text ∷ ts) h =
    next image (waits text) ts (find_waiter image ts (omega arith))
find_waiter k (idle ∷ ts) h = next k idle ts (find_waiter k ts (omega arith))
find_waiter k (holds j b ∷ ts) h = next k (holds j b) ts (find_waiter k ts (omega arith))
