-- ===== src/Kernel/Tick/Rounds.antt =====
-- A loop of the ticker over an array in which no delay is over.
use sentry_kernel.Base.{
  ℕ, suc, ◌+◌, ◌-◌, ◌<◌, ◌≡◌, refl, sym, ap, ◌∙◌, ◌⊎◌, inl, inr, false, some, List, [], ◌∷◌, ◌++◌,
  if◌then◌else◌, if_true, if_false, lt→ltb, Bool-cases, length, get_elem?, length-append, Run, ret,
  ◌>>=◌, >>=-ret,
}
use sentry_kernel.Delay.{TaskDelayState, update}
use sentry_kernel.Sched.Policy.{Policy}
use sentry_kernel.Kernel.{Kernel}
use sentry_kernel.Kernel.Tick.{leave, count, rounds}
use mathlib.Core.List.{map, append_assoc}

-- `ms` later.
abbrev pub elapse : ℕ → TaskDelayState → TaskDelayState
elapse ms d = if d.active then record d { remaining_time_ms = d.remaining_time_ms - ms } else d

-- Every armed delay has more than `ms` to go.
abbrev pub Quiet : ℕ → List TaskDelayState → Type 0
Quiet ms [] = Unit
Quiet ms (d ∷ ds) = ((d.active ≡ false) ⊎ (ms < d.remaining_time_ms)) × Quiet ms ds

get_elem?-prefix :
    (pre ds : List TaskDelayState) (d : TaskDelayState)
    → get_elem? (pre ++ d ∷ ds) (length pre) ≡ some d
get_elem?-prefix [] ds d = refl
get_elem?-prefix (x ∷ pre) ds d = get_elem?-prefix pre ds d

update-prefix :
    (f : TaskDelayState → TaskDelayState) (pre ds : List TaskDelayState) (d : TaskDelayState)
    → update f (length pre) (pre ++ d ∷ ds) ≡ pre ++ f d ∷ ds
update-prefix f [] ds d = refl
update-prefix f (x ∷ pre) ds d = ap (◌∷◌ x) (update-prefix f pre ds d)

length-snoc :
    (pre : List TaskDelayState) (d : TaskDelayState) → length (pre ++ d ∷ []) ≡ length pre + 1
length-snoc pre d = length-append pre (d ∷ [])

-- One of the two arrays: reading it, replacing it, and writing to a cell of it.
pub record IsArray {S : Type 0} (cells : Kernel S → List TaskDelayState)
    (put : Kernel S → List TaskDelayState → Kernel S)
    (modify : (TaskDelayState → TaskDelayState) → ℕ → Kernel S → Kernel S) : Type 0 where
  pub get_put : (k : Kernel S) (l : List TaskDelayState) → cells (put k l) ≡ l
  pub put_put : (k : Kernel S) (l l' : List TaskDelayState) → put (put k l) l' ≡ put k l'
  pub put_get : (k : Kernel S) → put k (cells k) ≡ k
  pub modifies :
      (k : Kernel S) (f : TaskDelayState → TaskDelayState) (i : ℕ)
      → modify f i k ≡ put k (update f i (cells k))

module _ {S : Type 0} (p : Policy S) (tick_ms : ℕ) (cells : Kernel S → List TaskDelayState)
    (put : Kernel S → List TaskDelayState → Kernel S)
    (modify : (TaskDelayState → TaskDelayState) → ℕ → Kernel S → Kernel S)
    (array : IsArray cells put modify)
    (expire : ℕ → TaskDelayState → Kernel S → Run (Kernel S)) where
  unchanged : (k : Kernel S) (l : List TaskDelayState) → cells k ≡ l → ret k ≡ ret (put k l)
  unchanged k l e = ap ret (sym (array.put_get k)) ∙ ap (λ l. ret (put k l)) e

  count-quiet :
      (k : Kernel S) (pre ds : List TaskDelayState) (d : TaskDelayState)
      → cells k ≡ pre ++ d ∷ ds
      → (d.active ≡ false) ⊎ (tick_ms < d.remaining_time_ms)
      → count p tick_ms modify expire (length pre) k d ≡ ret (put k (pre ++ elapse tick_ms d ∷ ds))
  count-quiet k pre ds d e q = elim (Bool-cases d.active) [
    | inr off ↦
        if_false _ _ off
        ∙ unchanged k (pre ++ d ∷ ds) e
        ∙ ap (λ x. ret (put k (pre ++ x ∷ ds))) (sym (if_false _ _ off))
    | inl on ↦
        let more : tick_ms < d.remaining_time_ms = elim q [ inl off ↦ absurd cc | inr m ↦ m ] in
        let f = leave (d.remaining_time_ms - tick_ms) in
        if_true _ _ on
        ∙ if_true _ _ (lt→ltb tick_ms d.remaining_time_ms more)
        ∙ ap ret (array.modifies k f (length pre))
        ∙ ap (λ l. ret (put k l)) (ap (update f (length pre)) e ∙ update-prefix f pre ds d)
        ∙ ap (λ x. ret (put k (pre ++ x ∷ ds))) (sym (if_true _ _ on))
  ]

  round_step :
      (i n : ℕ) (k : Kernel S) (d : TaskDelayState)
      → get_elem? (cells k) i ≡ some d
      → rounds p tick_ms cells (count p tick_ms modify expire) i (suc n) k ≡ (
          count p tick_ms modify expire i k d
          >>= rounds p tick_ms cells (count p tick_ms modify expire) (i + 1) n)
  unfolding rounds
  round_step i n k d e = rw (rounds, e) refl

  rounds-quiet :
      (ds pre : List TaskDelayState) (k : Kernel S)
      → cells k ≡ pre ++ ds
      → Quiet tick_ms ds
      → rounds p tick_ms cells (count p tick_ms modify expire) (length pre) (length ds) k
        ≡ ret (put k (pre ++ map (elapse tick_ms) ds))
  unfolding rounds
  rounds-quiet [] pre k e q = unchanged k (pre ++ []) e
  rounds-quiet (d ∷ ds) pre k e (q, qs) =
      let run = rounds p tick_ms cells (count p tick_ms modify expire) in
      let pre' = pre ++ elapse tick_ms d ∷ [] in
      let k' = put k (pre ++ elapse tick_ms d ∷ ds) in
      let here : get_elem? (cells k) (length pre) ≡ some d =
        ap (λ l. get_elem? l (length pre)) e ∙ get_elem?-prefix pre ds d in
      let split = append_assoc pre (elapse tick_ms d ∷ []) in
      round_step (length pre) (length ds) k d here
      ∙ >>=-ret (run (length pre + 1) (length ds)) (count-quiet k pre ds d e q)
      ∙ ap (λ i. run i (length ds) k') (sym (length-snoc pre (elapse tick_ms d)))
      ∙ rounds-quiet ds pre' k' (array.get_put k _ ∙ sym (split ds)) qs
      ∙ ap ret (array.put_put k _ _)
      ∙ ap (λ l. ret (put k l)) (split (map (elapse tick_ms) ds))

  pub rounds-quiet_all :
      (n : ℕ) (k : Kernel S)
      → length (cells k) ≡ n
      → Quiet tick_ms (cells k)
      → rounds p tick_ms cells (count p tick_ms modify expire) 0 n k
        ≡ ret (put k (map (elapse tick_ms) (cells k)))
  rounds-quiet_all n k e q =
      ap (λ n. rounds p tick_ms cells (count p tick_ms modify expire) 0 n k) (sym e)
      ∙ rounds-quiet (cells k) [] k refl q
