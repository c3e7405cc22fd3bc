-- ===== src/Deployment/Rolling/Sweep.antt =====
-- What the loops over the old machine sets take away: pkg/controller/machinedeployment/rolling.go.
use machine_controller_k0s.Prelude.{
  ℕ, ◌+◌, ◌≤◌, ◌<◌, ◌≡◌, refl, inl, inr, List, [], ◌∷◌, Option, none, some, arith, All, sum_of,
}
use machine_controller_k0s.Prelude.Int.{ℤ, pos, add32_pos}
use machine_controller_k0s.Api.{Error, ok, Api, Result-cases}
use machine_controller_k0s.Objects.{MachineSet, MachineDeployment}
use machine_controller_k0s.Externals.{Externals}
use machine_controller_k0s.Deployment.Counts.{size, IsSized, HasAvailable}
use machine_controller_k0s.Deployment.Scaling.{Request, annotation_targets, scale_machine_set}
use machine_controller_k0s.Deployment.Scaling.Effect.{
  scale_machine_set-size, scale_machine_set-status,
}
use machine_controller_k0s.Deployment.Rolling.{Visit, fail, stop, skip, scale_to, Swept, sweep}

-- One set before and after a loop that leaves at least `floor` machines in it.
pub record Kept (floor : MachineSet → ℕ) (before after : MachineSet) : Type 0 where
  pub status_kept : after.status ≡ before.status
  pub sized : IsSized after
  pub not_larger : size after ≤ size before
  pub not_below : floor before ≤ size after

abbrev pub Pairwise :
    (MachineSet → MachineSet → Type 0) → List MachineSet → List MachineSet → Type 0
Pairwise R [] [] = Unit
Pairwise R [] (b ∷ bs) = ⊥
Pairwise R (a ∷ rest) [] = ⊥
Pairwise R (a ∷ rest) (b ∷ bs) = R a b × Pairwise R rest bs

-- A visit within the limit: it splits the size of the set, leaves at least `floor` machines, and
-- never takes the total past `limit`.
pub record IsWithin (limit : ℕ) (floor : MachineSet → ℕ) (visit : ℤ → MachineSet → Visit)
    : Type 0 where
  pub splits :
      (t : ℕ) (ms : MachineSet) (n c : ℤ)
      → t ≤ limit
      → IsSized ms
      → HasAvailable ms
      → visit (pos t) ms ≡ scale_to n c
      → (n' : ℕ) × (c' : ℕ) × (n ≡ pos n')
        × (c ≡ pos c')
        × (n' + c' ≡ size ms)
        × (t + c' ≤ limit)
        × (floor ms ≤ n')

-- What a sweep of `mss` from the total `t` guarantees. `limited` holds also where a write failed
-- and the total was not updated.
pub record Guarantee (limit t : ℕ) (floor : MachineSet → ℕ) (mss : List MachineSet) (w : Swept)
    : Type 0 where
  pub taken : ℕ
  pub total_is : w.total ≡ pos taken
  pub counted : sum_of size w.sets + taken ≤ sum_of size mss + t
  pub exact : w.error ≡ none → sum_of size w.sets + taken ≡ sum_of size mss + t
  pub limited : sum_of size mss + t ≤ sum_of size w.sets + limit
  pub each : Pairwise (Kept floor) mss w.sets

module _ (x : Externals) (d : MachineDeployment) (targets : ℤ × ℤ)
    (have_targets : annotation_targets x d ≡ ok targets) (limit : ℕ) (small : limit < 2147483648)
    (floor : MachineSet → ℕ) (floor_le : (ms : MachineSet) → floor ms ≤ size ms) where
  Kept-refl : (ms : MachineSet) → IsSized ms → Kept floor ms ms
  Kept-refl ms h = record {
    status_kept = refl;
    sized = h;
    not_larger = omega arith;
    not_below = floor_le ms;
  }

  unchanged : (mss : List MachineSet) → All IsSized mss → Pairwise (Kept floor) mss mss
  unchanged [] h = tt
  unchanged (ms ∷ rest) h = (Kept-refl ms h.0, unchanged rest h.1)

  -- The loop ends before it changes a set.
  ended :
      (t : ℕ) (mss : List MachineSet) (s : Api Request) (e : Option Error)
      → All IsSized mss
      → t ≤ limit
      → Guarantee limit t floor mss (record { sets = mss; total = pos t; server = s; error = e })
  ended t mss s e sized le = record {
    taken = t;
    total_is = refl;
    counted = omega arith;
    exact = λ _. refl;
    limited = omega arith;
    each = unchanged mss sized;
  }

  -- The loop goes on with `after` in place of `ms`, from which `c` machines were taken.
  went_on :
      (t t' c : ℕ) (ms after : MachineSet) (rest : List MachineSet) (w : Swept)
      → t' ≡ t + c
      → Kept floor ms after
      → size after + c ≡ size ms
      → Guarantee limit t' floor rest w
      → Guarantee limit t floor (ms ∷ rest) (record w { sets = after ∷ w.sets })
  went_on t t' c ms after rest w et k e g = record {
    taken = g.taken;
    total_is = g.total_is;
    counted = omega (arith, g.counted);
    exact = λ h. omega (arith, g.exact h);
    limited = omega (arith, g.limited);
    each = (k, g.each);
  }

  -- The write failed: the set is changed in memory, and the total is not.
  broke_off :
      (t c : ℕ) (ms after : MachineSet) (rest : List MachineSet) (s : Api Request) (e : Error)
      → Kept floor ms after
      → size after + c ≡ size ms
      → t + c ≤ limit
      → All IsSized rest
      → Guarantee limit t floor
          (ms ∷ rest)
          (record { sets = after ∷ rest; total = pos t; server = s; error = some e })
  broke_off t c ms after rest s e k eq le sized = record {
    taken = t;
    total_is = refl;
    counted = omega arith;
    exact = λ h. cc;
    limited = omega arith;
    each = (k, unchanged rest sized);
  }

  scaled_size :
      (ms : MachineSet) (n : ℕ) (s : Api Request)
      → IsSized ms
      → (scale_machine_set x ms (pos n) d s).ms.spec_replicas ≡ some (pos n)
  scaled_size ms n s h =
      scale_machine_set-size x ms (pos (size ms)) (pos n) d s targets h.0 have_targets

  scaled_Kept :
      (ms : MachineSet) (n c : ℕ) (s : Api Request)
      → IsSized ms
      → n + c ≡ size ms
      → floor ms ≤ n
      → Kept floor ms (scale_machine_set x ms (pos n) d s).ms
        × (size (scale_machine_set x ms (pos n) d s).ms + c ≡ size ms)
  scaled_Kept ms n c s h eq le = (
    record {
      status_kept = scale_machine_set-status x ms (pos n) d s;
      sized = (ground (arith, scaled_size ms n s h), ground (arith, scaled_size ms n s h));
      not_larger = ground (arith, scaled_size ms n s h);
      not_below = ground (arith, scaled_size ms n s h);
    },
    ground (arith, scaled_size ms n s h),
  )

  module _ (visit : ℤ → MachineSet → Visit) (within : IsWithin limit floor visit) where
    sweep_scaled :
        (t n c : ℕ) (ms : MachineSet) (rest : List MachineSet) (s : Api Request)
        → visit (pos t) ms ≡ scale_to (pos n) (pos c)
        → IsSized ms
        → All IsSized rest
        → n + c ≡ size ms
        → t + c ≤ limit
        → floor ms ≤ n
        → ((s' : Api Request)
            → Guarantee limit (t + c) floor rest (sweep x visit d (pos (t + c)) rest s'))
        → Guarantee limit t floor (ms ∷ rest) (sweep x visit d (pos t) (ms ∷ rest) s)
    unfolding sweep
    sweep_scaled t n c ms rest s ev sized sizeds eq le fl ih =
        elim (Result-cases (scale_machine_set x ms (pos n) d s).scaled) [
          | inl (b, e) ↦
              rw (ev, sweep)
                (rw (e, sweep)
                  (rw (add32_pos t c (omega arith)) (
                    went_on t (t + c) c ms _ rest _ refl (scaled_Kept ms n c s sized eq fl).0
                      (scaled_Kept ms n c s sized eq fl).1 (ih _))))
          | inr (e', e) ↦
              rw (ev, sweep)
                (rw (e, sweep)
                  (broke_off t c ms _ rest _ e' (scaled_Kept ms n c s sized eq fl).0
                    (scaled_Kept ms n c s sized eq fl).1 le sizeds))
        ]

    pub sweep-Guarantee :
        (t : ℕ) (mss : List MachineSet) (s : Api Request)
        → All IsSized mss
        → All HasAvailable mss
        → t ≤ limit
        → Guarantee limit t floor mss (sweep x visit d (pos t) mss s)
    unfolding sweep
    sweep-Guarantee t [] s sized have le = ended t [] s none sized le
    sweep-Guarantee t (ms ∷ rest) s sized have le =
        go (visit (pos t) ms) refl (λ t' s' le'. sweep-Guarantee t' rest s' sized.1 have.1 le')
      where
        go :
            (v : Visit)
            → visit (pos t) ms ≡ v
            → ((t' : ℕ) (s' : Api Request)
                → t' ≤ limit
                → Guarantee limit t' floor rest (sweep x visit d (pos t') rest s'))
            → Guarantee limit t floor (ms ∷ rest) (sweep x visit d (pos t) (ms ∷ rest) s)
        go (fail e) ev ih = rw (ev, sweep) (ended t (ms ∷ rest) s (some e) sized le)
        go stop ev ih = rw (ev, sweep) (ended t (ms ∷ rest) s none sized le)
        go skip ev ih =
            rw (ev, sweep)
              (went_on t t 0 ms ms rest _ (omega arith) (Kept-refl ms sized.0) (omega arith)
                (ih t s le))
        go (scale_to n c) ev ih =
            let (n', c', en, ec, eq, le', fl) = within.splits t ms n c le sized.0 have.0 ev in
            sweep_scaled t n' c' ms rest s (cc) sized.0 sized.1 eq le' fl (λ s'. ih (t + c') s' le')
