-- ===== src/Syscalls/Ipc/Ends.antt =====
-- How many iterations the loop of `ipc_generates_deadlock` takes.
use sentry_kernel.Base.{
  ℕ, zero, suc, ◌+◌, ◌-◌, ◌≤◌, ◌<◌, ◌≡◌, ap, ◌≢◌, none, List, [], ◌∷◌, arith, length, ret,
}
use sentry_kernel.Task.{TaskTable}
use sentry_kernel.Syscalls.Ipc.{frame_cost, cost, deadlock_loop}
use sentry_kernel.Syscalls.Ipc.Steps.{popped, reached, pushed, step_lem}

frame_cost-pos : (later left : ℕ) → 1 ≤ frame_cost later left
frame_cost-pos later zero = omega arith
frame_cost-pos later (suc left) = omega arith

cost-pos : (n room idx : ℕ) → 1 ≤ cost n room idx
cost-pos n zero idx = omega arith
cost-pos n (suc room) idx = frame_cost-pos (cost n room 0) (n - idx)

frame_cost_mono : (later a b : ℕ) → a ≤ b → frame_cost later a ≤ frame_cost later b
frame_cost_mono later zero b h = frame_cost-pos later b
frame_cost_mono later (suc a) zero h = absurd (omega arith)
frame_cost_mono later (suc a) (suc b) h = omega (arith, frame_cost_mono later a b (omega arith))

-- A push pays for the frame that is pushed.
push_cost :
    (n room idx i : ℕ)
    → idx ≤ i
    → i < n
    → suc (cost n room 0 + cost n (suc room) (i + 1)) ≤ cost n (suc room) idx
push_cost n room idx i low high =
    omega (arith, frame_cost_mono (cost n room 0) (suc (n - (i + 1))) (n - idx) (omega arith))

module _ (max_tasks : ℕ) (tab : TaskTable) (target : ℕ) where
  -- The iterations that a stack may take.
  total : List (ℕ × ℕ) → ℕ
  total [] = 1
  total ((peer, idx) ∷ rest) = cost tab.numtask (max_tasks - (1 + length rest)) idx + total rest

  total-pos : (stack : List (ℕ × ℕ)) → 1 ≤ total stack
  unfolding total
  total-pos [] = omega arith
  total-pos ((peer, idx) ∷ rest) = omega (arith, total-pos rest)

  total-pop : (peer idx : ℕ) (rest : List (ℕ × ℕ)) → suc (total rest) ≤ total ((peer, idx) ∷ rest)
  unfolding total
  total-pop peer idx rest = omega (arith, cost-pos tab.numtask (max_tasks - (1 + length rest)) idx)

  total-push :
      (peer idx i q : ℕ) (rest : List (ℕ × ℕ))
      → idx ≤ i
      → i < tab.numtask
      → 1 + length rest < max_tasks
      → suc (total ((q, 0) ∷ (peer, i + 1) ∷ rest)) ≤ total ((peer, idx) ∷ rest)
  unfolding total
  total-push peer idx i q rest low high room =
      let r = max_tasks - (2 + length rest) in
      let e : max_tasks - (1 + length rest) ≡ suc r = omega arith in
      let e' : max_tasks - (1 + suc (length rest)) ≡ r = omega arith in
      rw e
        (omega (arith, push_cost tab.numtask r idx i low high, ap (λ m. cost tab.numtask m 0) e'))

  -- Whatever the pending IPCs are, the loop does not run out of the fuel of its stack.
  deadlock_loop-ends :
      (fuel : ℕ) (stack : List (ℕ × ℕ))
      → total stack ≤ fuel
      → deadlock_loop fuel max_tasks tab target stack ≢ ret none
  deadlock_loop-ends zero stack h r = absurd (omega (arith, total-pos stack))
  deadlock_loop-ends (suc fuel) [] h r = unfold deadlock_loop in cc
  deadlock_loop-ends (suc fuel) ((peer, idx) ∷ rest) h r =
      elim (step_lem max_tasks tab target fuel peer idx rest none r) [
        | popped _ _ _ r' ↦
            deadlock_loop-ends fuel rest (omega (arith, total-pop peer idx rest, h)) r'
        | reached _ _ e ↦ cc
        | pushed i q pending low _ _ room r' ↦
            deadlock_loop-ends fuel ((q, 0) ∷ (peer, i + 1) ∷ rest)
              (omega (arith, total-push peer idx i q rest low pending.inside room)) r'
      ]

  -- `ipc_generates_deadlock` ends: on any table and for any caller its loop does not run out of the
  -- iterations that the model gives it.
  pub ipc_generates_deadlock-ends :
      (current : ℕ)
      → deadlock_loop
          (1 + cost tab.numtask (max_tasks - 1) 0)
          max_tasks
          tab
          target
          ((current, 0) ∷ [])
        ≢ ret none
  ipc_generates_deadlock-ends current =
      deadlock_loop-ends (1 + cost tab.numtask (max_tasks - 1) 0) ((current, 0) ∷ [])
        (unfold total in omega arith)
