-- ===== src/Residency/Workers.antt =====
-- The workers, and the adoption of what they send, keep the slots and the jobs consistent.
use chatty.Common.{
  ap, ℕ, suc, ◌≤◌, ◌≡◌, ◌≢◌, refl, ◌∙◌, true, false, Option, none, some, List, [], ◌∷◌,
}
use chatty.Common.{length, All, arith}
use chatty.Residency.Slots.{update, first_slot}
use chatty.Residency.{Kind, fetch, copy, Job, Residency, adopt}
use chatty.Residency.Moves.{first_slot_found, adopted-IsHeld, settled-IsHeld, written-IsHeld}
use chatty.Residency.Steps.{Picked, here, there, half_write, write, work}
use chatty.Residency.Jobs.{
  IsRunning, AreApart, IsConsistent, Picked-All, Picked-AreApart, Picked-length,
}

-- The jobs that are left, beside the one that is picked.
All_left :
    (j : Job) (P Q : Job → Type 0) (js : List Job)
    → ((k : Job) → P k → k.id ≢ j.id → Q k)
    → All P js
    → All (λ i. i.id ≢ j.id) js
    → All Q js
All_left j P Q [] f a ne = tt
All_left j P Q (k ∷ js) f a ne = (f k a.0 ne.0, All_left j P Q js f a.1 ne.1)

All_put_back :
    (P : Job → Type 0) {js rest : List Job} {j : Job}
    → Picked js j rest
    → P j
    → All P rest
    → All P js
All_put_back P here x a = (x, a)
All_put_back P (there p) x a = (a.0, All_put_back P p x a.1)

-- A list of jobs beside the state.
rejobbed :
    (r : Residency) (js left : List Job)
    → All (IsRunning r) left
    → All (IsRunning (record r { jobs = js })) left
rejobbed r js [] a = tt
rejobbed r js (i ∷ left) a = (
  record { is_busy = a.0.is_busy; fetching = a.0.fetching; copying = a.0.copying },
  rejobbed r js left a.1,
)

abbrev ram_written : Residency → ℕ → Option ℕ → Residency
ram_written r dst v = record r { ram = record r.ram { mem = update r.ram.mem dst v } }

abbrev vram_written : Residency → ℕ → Option ℕ → Residency
vram_written r dst v = record r { vram = record r.vram { mem = update r.vram.mem dst v } }

module _ (r : Residency) (c : IsConsistent r) (j : Job) (x : IsRunning r j) where
  -- The slot that a job writes to is nobody's.
  pub fetch_unmapped : j.kind ≡ fetch → (id : ℕ) → r.ram.place id ≢ some j.dst
  fetch_unmapped k id e =
      let (o, p, q, m) = x.fetching k in ground (arith, c.ram_held.placed id j.dst e)

  pub copy_unmapped : j.kind ≡ copy → (id : ℕ) → r.vram.place id ≢ some j.dst
  copy_unmapped k id e =
      let (o, p, q, m) = x.copying k in ground (arith, c.vram_held.placed id j.dst e)

  others_ram :
      (v : Option ℕ)
      → j.kind ≡ fetch
      → (i : Job) → IsRunning r i
      → i.id ≢ j.id
      → IsRunning (ram_written r j.dst v) i
  others_ram v k i y ne =
      let (o, p, q, m) = x.fetching k in
      record {
        is_busy = y.is_busy;
        fetching = λ l.
            let (o', p', q', m') = y.fetching l in
            (o', p', q', λ f. ground (arith, m' f, o, o', ne));
        copying = y.copying;
      }

  others_vram :
      (v : Option ℕ)
      → j.kind ≡ copy
      → (i : Job) → IsRunning r i
      → i.id ≢ j.id
      → IsRunning (vram_written r j.dst v) i
  others_vram v k i y ne =
      let (o, p, q, m) = x.copying k in
      record {
        is_busy = y.is_busy;
        fetching = y.fetching;
        copying = λ l.
            let (o', p', q', m') = y.copying l in
            (o', p', q', λ f. ground (arith, m' f, o, o', ne));
      }

  ram_written-IsConsistent :
      (v : Option ℕ) (js : List Job)
      → j.kind ≡ fetch
      → All (IsRunning (ram_written r j.dst v)) js
      → AreApart js
      → length js ≤ r.queued
      → IsConsistent (record (ram_written r j.dst v) { jobs = js })
  ram_written-IsConsistent v js k all a n = record {
    vram_held = c.vram_held;
    ram_held = written-IsHeld r.ram r.busy j.dst v c.ram_held (fetch_unmapped k);
    running = rejobbed (ram_written r j.dst v) js js all;
    apart = a;
    counted = n;
  }

  vram_written-IsConsistent :
      (v : Option ℕ) (js : List Job)
      → j.kind ≡ copy
      → All (IsRunning (vram_written r j.dst v)) js
      → AreApart js
      → length js ≤ r.queued
      → IsConsistent (record (vram_written r j.dst v) { jobs = js })
  vram_written-IsConsistent v js k all a n = record {
    vram_held = written-IsHeld r.vram r.busy j.dst v c.vram_held (copy_unmapped k);
    ram_held = c.ram_held;
    running = rejobbed (vram_written r j.dst v) js js all;
    apart = a;
    counted = n;
  }

module _ (r : Residency) (c : IsConsistent r) (j : Job) (rest : List Job)
    (pick : Picked r.jobs j rest) where
  abbrev x : IsRunning r j
  x = (Picked-All (IsRunning r) pick c.running).0

  abbrev others : All (IsRunning r) rest
  others = (Picked-All (IsRunning r) pick c.running).1

  abbrev apart : All (λ i. i.id ≢ j.id) rest × AreApart rest
  apart = Picked-AreApart pick c.apart

  half_write_by : (k : Kind) → j.kind ≡ k → j.finished ≡ false → IsConsistent (half_write k r j.dst)
  half_write_by fetch k f =
      ram_written-IsConsistent r c j x none r.jobs k
        (All_put_back _ pick
          (record {
            is_busy = x.is_busy;
            fetching = λ l. let (o, p, q, m) = x.fetching l in (o, p, q, λ g. absurd (cc (f, g)));
            copying = x.copying;
          })
          (All_left j _ _ rest (others_ram r c j x none k) others apart.0))
        c.apart c.counted
  half_write_by copy k f =
      vram_written-IsConsistent r c j x none r.jobs k
        (All_put_back _ pick
          (record {
            is_busy = x.is_busy;
            fetching = x.fetching;
            copying = λ l. let (o, p, q, m) = x.copying l in (o, p, q, λ g. absurd (cc (f, g)));
          })
          (All_left j _ _ rest (others_vram r c j x none k) others apart.0))
        c.apart c.counted

  pub half_write-IsConsistent : j.finished ≡ false → IsConsistent (half_write j.kind r j.dst)
  half_write-IsConsistent = half_write_by j.kind refl

  rest_counted : suc (length rest) ≤ r.queued
  rest_counted = omega (arith, c.counted, Picked-length pick)

  work_by :
      (k : Kind)
      → j.kind ≡ k
      → IsConsistent (record (write k r j) { jobs = record j { finished = true } ∷ rest })
  work_by fetch k =
      ram_written-IsConsistent r c j x (some j.id) _ k
        (
          record {
            is_busy = x.is_busy;
            fetching = λ l. let (o, p, q, m) = x.fetching l in (o, p, q, λ g. ground arith);
            copying = λ l. absurd (cc (k, l));
          },
          All_left j _ _ rest (others_ram r c j x (some j.id) k) others apart.0,
        )
        apart rest_counted
  work_by copy k =
      let (o, p, q, m) = x.copying k in
      vram_written-IsConsistent r c j x (r.ram.mem j.src) _ k
        (
          record {
            is_busy = x.is_busy;
            fetching = λ l. absurd (cc (k, l));
            copying = λ l. (o, p, q, λ g. ground (arith, c.ram_held.placed j.id j.src q));
          },
          All_left j _ _ rest (others_vram r c j x (r.ram.mem j.src) k) others apart.0,
        )
        apart rest_counted

  pub work-IsConsistent : IsConsistent (work r j rest)
  work-IsConsistent = work_by j.kind refl

  pub dropped-IsConsistent : IsConsistent (record r { jobs = rest })
  dropped-IsConsistent = record {
    vram_held = c.vram_held;
    ram_held = c.ram_held;
    running = rejobbed r rest rest others;
    apart = apart.1;
    counted = omega (arith, rest_counted);
  }

  adopt_by :
      (k : Kind)
      → j.kind ≡ k
      → j.finished ≡ true
      → IsConsistent (adopt (record r { jobs = rest }) k j.id)
  unfolding adopt
  adopt_by fetch k f =
      let (o, p, q, m) = x.fetching k in
      let found : first_slot r.ram.owner j.id r.ram.slots ≡ some j.dst =
        first_slot_found r.ram.owner j.id j.dst r.ram.slots o
          (λ i e. c.ram_held.one_slot j.id i j.dst e o) (c.ram_held.in_range j.id j.dst o) in
      rw found (record {
        vram_held = settled-IsHeld r.vram r.busy j.id c.vram_held (λ s e. absurd (q s e));
        ram_held = adopted-IsHeld r.ram r.busy j.id j.dst c.ram_held o (m f);
        running =
            All_left j _ _ rest
              (λ i y ne. record {
                is_busy = ground (arith, y.is_busy, ne);
                fetching = λ l.
                    let (o', p', q', m') = y.fetching l in (o', ground (arith, p', ne), q', m');
                copying =
                    λ l. let (o', p', q', m') = y.copying l in (o', p', ground (arith, q', ne), m');
              })
              others apart.0;
        apart = apart.1;
        counted = omega (arith, rest_counted);
      })
  adopt_by copy k f =
      let (o, p, q, m) = x.copying k in
      let found : first_slot r.vram.owner j.id r.vram.slots ≡ some j.dst =
        first_slot_found r.vram.owner j.id j.dst r.vram.slots o
          (λ i e. c.vram_held.one_slot j.id i j.dst e o) (c.vram_held.in_range j.id j.dst o) in
      rw found (record {
        vram_held = adopted-IsHeld r.vram r.busy j.id j.dst c.vram_held o (m f);
        ram_held = settled-IsHeld r.ram r.busy j.id c.ram_held (λ s e.
            q ∙ ap some (c.ram_held.one_slot j.id j.src s (c.ram_held.placed j.id j.src q).0 e));
        running =
            All_left j _ _ rest
              (λ i y ne. record {
                is_busy = ground (arith, y.is_busy, ne);
                fetching = y.fetching;
                copying =
                    λ l. let (o', p', q', m') = y.copying l in (o', ground (arith, p', ne), q', m');
              })
              others apart.0;
        apart = apart.1;
        counted = omega (arith, rest_counted);
      })

  pub adopt-IsConsistent :
      j.finished ≡ true → IsConsistent (adopt (record r { jobs = rest }) j.kind j.id)
  adopt-IsConsistent = adopt_by j.kind refl
