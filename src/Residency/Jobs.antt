-- ===== src/Residency/Jobs.antt =====
-- What holds of the slots and the jobs, and of a job that is picked.
use chatty.Common.{ap, suc, ℕ, ◌≤◌, ◌≡◌, ◌≢◌, refl, sym, true, none, some, List, [], ◌∷◌, ◌++◌}
use chatty.Common.{length, All, All-append}
use chatty.Residency.{fetch, copy, Job, Residency}
use chatty.Residency.Held.{IsHeld}
use chatty.Residency.Steps.{Picked, here, there}

pub record IsRunning (r : Residency) (j : Job) : Type 0 where
  pub is_busy : r.busy j.id ≡ true
  pub fetching :
      j.kind ≡ fetch
      → (r.ram.owner j.dst ≡ some j.id)
        × (r.ram.place j.id ≡ none)
        × ((s : ℕ) → r.vram.owner s ≢ some j.id)
        × (j.finished ≡ true → r.ram.mem j.dst ≡ some j.id)
  pub copying :
      j.kind ≡ copy
      → (r.vram.owner j.dst ≡ some j.id)
        × (r.vram.place j.id ≡ none)
        × (r.ram.place j.id ≡ some j.src)
        × (j.finished ≡ true → r.vram.mem j.dst ≡ some j.id)

-- No expert has two jobs.
abbrev pub AreApart : List Job → Type 0
AreApart [] = Unit {0}
AreApart (j ∷ js) = All (λ i. i.id ≢ j.id) js × AreApart js

pub record IsConsistent (r : Residency) : Type 0 where
  pub vram_held : IsHeld r.vram r.busy
  pub ram_held : IsHeld r.ram r.busy
  pub running : All (IsRunning r) r.jobs
  pub apart : AreApart r.jobs
  pub counted : length r.jobs ≤ r.queued

pub AreApart-append :
    (js : List Job) (k : Job) → AreApart js → All (λ i. i.id ≢ k.id) js → AreApart (js ++ k ∷ [])
AreApart-append [] k a ne = (tt, tt)
AreApart-append (j ∷ js) k a ne = (
  All-append (λ i. i.id ≢ j.id) js (k ∷ []) a.0 (λ e. ne.0 (sym e), tt),
  AreApart-append js k a.1 ne.1,
)

-- A job that is picked, and those that are left.
pub Picked-All :
    (P : Job → Type 0) {js rest : List Job} {j : Job}
    → Picked js j rest
    → All P js
    → P j × All P rest
Picked-All P here a = a
Picked-All P (there p) (x, xs) = let (y, ys) = Picked-All P p xs in (y, (x, ys))

pub Picked-AreApart :
    {js rest : List Job} {j : Job}
    → Picked js j rest
    → AreApart js
    → All (λ i. i.id ≢ j.id) rest × AreApart rest
Picked-AreApart here a = a
Picked-AreApart {js} {rest} {j} (there {i = i} p) (x, xs) =
    let (ne, ys) = Picked-AreApart p xs in
    let (ji, rest_ne) = Picked-All (λ k. k.id ≢ i.id) p x in ((λ e. ji (sym e), ne), (rest_ne, ys))

pub Picked-length :
    {js rest : List Job} {j : Job} → Picked js j rest → length js ≡ suc (length rest)
Picked-length here = refl
Picked-length (there p) = ap suc (Picked-length p)
