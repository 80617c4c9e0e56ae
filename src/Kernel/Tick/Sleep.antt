-- ===== src/Kernel/Tick/Sleep.antt =====
-- The ticker while no delay is over.
use sentry_kernel.Base.{
  ℕ, zero, suc, ◌+◌, ◌-◌, ◌*◌, ◌<◌, ◌≡◌, refl, sym, ap, ◌∙◌, subst, ◌⊎◌, inl, inr, false, List, [],
  ◌∷◌, arith, if_true, if_false, Bool-cases, length, Run, ret, ◌>>=◌, >>=-ret,
}
use sentry_kernel.Delay.{TaskDelayState, DelayedJobset}
use sentry_kernel.Sched.Policy.{Policy}
use sentry_kernel.Kernel.{Kernel}
use sentry_kernel.Kernel.Tick.{put_job, put_event, leave, expire_job, expire_event, tick}
use sentry_kernel.Kernel.Tick.Rounds.{elapse, Quiet, IsArray, rounds-quiet_all}
use mathlib.Core.List.{map}
use mathlib.Core.Path.{ap₂}
use native.Mathlib.Nat.{mul-suc, mul-zero}

abbrev with_jobs : {S : Type 0} → Kernel S → List TaskDelayState → Kernel S
with_jobs k ds = record k { delays = record k.delays { joblist = ds } }

abbrev with_events : {S : Type 0} → Kernel S → List TaskDelayState → Kernel S
with_events k ds = record k { delays = record k.delays { evlist = ds } }

abbrev pub elapse_all : ℕ → DelayedJobset → DelayedJobset
elapse_all ms c = record { joblist = map (elapse ms) c.joblist; evlist = map (elapse ms) c.evlist }

module _ {S : Type 0} (p : Policy S) (tick_ms max_tasks : ℕ) where
  jobs-IsArray : IsArray (λ (k : Kernel S). k.delays.joblist) with_jobs put_job
  jobs-IsArray = record {
    get_put = λ k l. refl;
    put_put = λ k l l'. refl;
    put_get = λ k. refl;
    modifies = λ k f i. refl;
  }

  events-IsArray : IsArray (λ (k : Kernel S). k.delays.evlist) with_events put_event
  events-IsArray = record {
    get_put = λ k l. refl;
    put_put = λ k l l'. refl;
    put_get = λ k. refl;
    modifies = λ k f i. refl;
  }

  tick-quiet :
      (k : Kernel S)
      → length k.delays.joblist ≡ max_tasks
      → length k.delays.evlist ≡ max_tasks
      → Quiet tick_ms k.delays.joblist
      → Quiet tick_ms k.delays.evlist
      → tick p tick_ms max_tasks k ≡ ret (record k { delays = elapse_all tick_ms k.delays })
  unfolding tick
  tick-quiet k j e qj qe =
      let k' = with_jobs k (map (elapse tick_ms) k.delays.joblist) in
      >>=-ret _ (
        rounds-quiet_all p tick_ms (λ k. k.delays.joblist) with_jobs put_job jobs-IsArray
          (expire_job p tick_ms) max_tasks k j qj)
      ∙ rounds-quiet_all p tick_ms (λ k. k.delays.evlist) with_events put_event events-IsArray
          (expire_event p tick_ms) max_tasks k' e qe

elapse_lem :
    (a b : ℕ) (d : TaskDelayState)
    → (elapse b (elapse a d) ≡ elapse (a + b) d)
      × ((d.active ≡ false) ⊎ (a + b < d.remaining_time_ms)
          → ((elapse a d).active ≡ false) ⊎ (b < (elapse a d).remaining_time_ms))
elapse_lem a b d = elim (Bool-cases d.active) [
  | inr off ↦
      let same : (n : ℕ) → elapse n d ≡ d = λ n. if_false _ _ off in
      (
        ap (elapse b) (same a) ∙ same b ∙ sym (same (a + b)),
        λ q. inl (ap (λ (d : TaskDelayState). d.active) (same a) ∙ off),
      )
  | inl on ↦
      let run : (n : ℕ) → elapse n d ≡ leave (d.remaining_time_ms - n) d = λ n. if_true _ _ on in
      (
        ap (elapse b) (run a)
            ∙ if_true _ _ on
            ∙ ap (λ n. leave n d) (omega arith)
            ∙ sym (run (a + b)),
        λ q. elim q [ inl off ↦ absurd cc | inr more ↦ inr (rw (run a) (omega arith)) ],
      )
]

later :
    (a b : ℕ) (ds : List TaskDelayState)
    → Quiet (a + b) ds
    → Quiet a ds
      × Quiet b (map (elapse a) ds)
      × (map (elapse b) (map (elapse a) ds) ≡ map (elapse (a + b)) ds)
later a b [] q = (tt, tt, refl)
later a b (d ∷ ds) (q, qs) =
    let (e, more) = elapse_lem a b d in
    let (r, s, t) = later a b ds qs in
    let soon : (d.active ≡ false) ⊎ (a < d.remaining_time_ms) = elim q [
      | inl off ↦ inl off
      | inr m ↦ inr (omega arith)
    ] in
    ((soon, r), (more q, s), ap₂ (◌∷◌) e t)

module _ {S : Type 0} (p : Policy S) (tick_ms max_tasks : ℕ) where
  -- `n` calls of the ticker.
  unfoldable pub ticks : ℕ → Kernel S → Run (Kernel S)
  ticks zero k = ret k
  ticks (suc n) k = tick p tick_ms max_tasks k >>= ticks n

  length-map-elapse : (ms : ℕ) (ds : List TaskDelayState) → length (map (elapse ms) ds) ≡ length ds
  length-map-elapse ms [] = refl
  length-map-elapse ms (d ∷ ds) = ap suc (length-map-elapse ms ds)

  still : (ds : List TaskDelayState) → map (elapse 0) ds ≡ ds
  still [] = refl
  still (d ∷ ds) =
      let same : elapse 0 d ≡ d = elim (Bool-cases d.active) [
        | inl on ↦ if_true _ _ on ∙ ap (λ n. leave n d) (omega arith)
        | inr off ↦ if_false _ _ off
      ] in
      ap₂ (◌∷◌) same (still ds)

  -- Nothing is woken early: while every armed delay has more than `n` ticks to go, the next `n` ticks
  -- return, touch neither the tasks nor the scheduler, and count exactly their time off every armed
  -- delay, of jobs and of signals.
  pub no_early_wake :
      (n : ℕ) (k : Kernel S)
      → length k.delays.joblist ≡ max_tasks
      → length k.delays.evlist ≡ max_tasks
      → Quiet (tick_ms * n) k.delays.joblist
      → Quiet (tick_ms * n) k.delays.evlist
      → ticks n k ≡ ret (record k { delays = elapse_all (tick_ms * n) k.delays })
  unfolding ticks
  no_early_wake zero k j e qj qe =
      let none_left : tick_ms * 0 ≡ 0 = mul-zero tick_ms in
      ap (λ (c : DelayedJobset). ret (record k { delays = c }))
        (sym (
          ap (λ n. elapse_all n k.delays) none_left
          ∙ ap₂ (λ js es. record { joblist = js; evlist = es }) (still k.delays.joblist)
              (still k.delays.evlist)))
  no_early_wake (suc n) k j e qj qe =
      let more : tick_ms * suc n ≡ tick_ms + tick_ms * n = omega (arith, mul-suc tick_ms n) in
      let (rj, sj, tj) =
        later tick_ms (tick_ms * n) k.delays.joblist
          (subst (λ m. Quiet m k.delays.joblist) more qj) in
      let (re, se, te) =
        later tick_ms (tick_ms * n) k.delays.evlist
          (subst (λ m. Quiet m k.delays.evlist) more qe) in
      let k' = record k { delays = elapse_all tick_ms k.delays } in
      >>=-ret (ticks n) (tick-quiet p tick_ms max_tasks k j e rj re)
      ∙ no_early_wake n k' (length-map-elapse tick_ms _ ∙ j) (length-map-elapse tick_ms _ ∙ e) sj se
      ∙ ap (λ (c : DelayedJobset). ret (record k { delays = c }))
          (ap₂ (λ js es. record { joblist = js; evlist = es }) tj te
            ∙ ap (λ n. elapse_all n k.delays) (sym more))
