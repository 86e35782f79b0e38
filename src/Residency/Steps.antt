-- ===== src/Residency/Steps.antt =====
-- The engine and the two workers, in any order: what each does in one step.
use chatty.Common.{ℕ, ◌≡◌, true, false, none, some, List, ◌∷◌}
use chatty.Residency.Slots.{update}
use chatty.Residency.{
  Kind, fetch, copy, Job, Residency, is_cold, is_some, begin_layer, note_demand, claim, request,
  want, start_fetch, start_promote, adopt,
}

-- One job out of those that are with the workers or come back from them.
pub data Picked : List Job → Job → List Job → Type 0 where
  here : {j : Job} {js : List Job} → Picked (j ∷ js) j js
  there : {i j : Job} {js rest : List Job} → Picked js j rest → Picked (i ∷ js) j (i ∷ rest)

-- A worker is in the middle of writing to its slot.
abbrev pub half_write : Kind → Residency → ℕ → Residency
half_write fetch r dst = record r { ram = record r.ram { mem = update r.ram.mem dst none } }
half_write copy r dst = record r { vram = record r.vram { mem = update r.vram.mem dst none } }

-- The loops of `spawn_fetcher` and `spawn_copier`: the bytes are in the slot, and `Done` is sent.
abbrev pub write : Kind → Residency → Job → Residency
write fetch r j = record r { ram = record r.ram { mem = update r.ram.mem j.dst (some j.id) } }
write copy r j = record r {
  vram = record r.vram { mem = update r.vram.mem j.dst (r.ram.mem j.src) };
}

abbrev pub work : Residency → Job → List Job → Residency
work r j rest = record (write j.kind r j) { jobs = record j { finished = true } ∷ rest }

-- `loaded` and `promoted` are the calls of `start_fetch` and `start_promote` in `load_now` and
-- `preload`; their waiting for the workers is `received`.
pub data Step : Residency → Residency → Type 0 where
  layer : (r : Residency) → Step r (begin_layer r)
  noted : (r : Residency) (id : ℕ) → Step r (note_demand r id)
  claimed : (r : Residency) (id : ℕ) → Step r (claim r id).0
  requested : (r : Residency) (id : ℕ) → Step r (request r id).0
  wanted : (r : Residency) (id : ℕ) → Step r (want r id)
  loaded : (r : Residency) (id d : ℕ) → is_cold r id ≡ true → Step r (start_fetch r id d).0
  promoted :
      (r : Residency) (id : ℕ)
      → r.busy id ≡ false
      → is_some (r.vram.place id) ≡ false
      → is_some (r.ram.place id) ≡ true
      → Step r (start_promote r id)
  writing :
      (r : Residency) (j : Job) (rest : List Job)
      → Picked r.jobs j rest
      → j.finished ≡ false
      → Step r (half_write j.kind r j.dst)
  worked :
      (r : Residency) (j : Job) (rest : List Job)
      → Picked r.jobs j rest
      → j.finished ≡ false
      → Step r (work r j rest)
  -- A read of the drive fails: the fetcher goes on to its next job.
  failed :
      (r : Residency) (j : Job) (rest : List Job)
      → Picked r.jobs j rest
      → j.finished ≡ false
      → j.kind ≡ fetch
      → Step r (record r { jobs = rest })
  received :
      (r : Residency) (j : Job) (rest : List Job)
      → Picked r.jobs j rest
      → j.finished ≡ true
      → Step r (adopt (record r { jobs = rest }) j.kind j.id)

pub data Run : Residency → Residency → Type 0 where
  stop : {r : Residency} → Run r r
  next : {r s t : Residency} → Step r s → Run s t → Run r t
