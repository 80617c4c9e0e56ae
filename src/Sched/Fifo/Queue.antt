-- ===== src/Sched/Fifo/Queue.antt =====
-- The FIFO scheduler: the ring buffer against the list of the tasks in it.
use sentry_kernel.Base.{
  ℕ, suc, ◌+◌, ◌-◌, ◌%◌, ◌<◌, ◌≡◌, refl, sym, ap, ◌∙◌, ◌⊎◌, inl, inr, Bool, true, false, not, ◌&&◌,
  Option, some, List, [], ◌∷◌, ◌++◌, arith, ltb, ◌==◌, if◌then◌else◌, if_true, if_false, Bool-cases,
  length, get_elem?, set, length-set, get_elem?-set_self, get_elem?_of_lt, ret,
}
use sentry_kernel.Base.Ring.{slots, slots-set, slots-snoc, length-slots}
use sentry_kernel.KTypes.{okay, security_invstate}
use sentry_kernel.Sched.Fifo.{
  Context, idle_handle, enqueue, take_next, dequeue, schedule, elect, get_current,
}
use native.Mathlib.Decide.{ℕ_discrete, dec_lt}
use mathlib.Core.Path.{ap₂}
use native.Mathlib.Nat.{mod-eq_of_lt, mod-eq-sub-mod}

-- The number of tasks between the two offsets of a ring of `d` cells.
abbrev pub size : ℕ → ℕ → ℕ → Bool → ℕ
size d next stop true = 0
size d next stop false = if ltb next stop then stop - next else stop + d - next

-- The tasks in the ring, the next one first.
unfoldable pub contents : ℕ → Context → List (Option ℕ)
contents d c = slots d c.tasks_queue c.next_task (size d c.next_task c.end_of_queue c.empty)

pub record IsRing (d : ℕ) (c : Context) : Type 0 where
  pub storage : length c.tasks_queue ≡ d
  pub next_inside : c.next_task < d
  pub end_inside : c.end_of_queue < d
  pub closed : (c.empty ≡ false) ⊎ (c.next_task ≡ c.end_of_queue)

wrap : (i d : ℕ) → i < d → ((i + 1 < d) × ((i + 1) % d ≡ i + 1)) ⊎ ((i + 1 ≡ d) × ((i + 1) % d ≡ 0))
wrap i d h = elim (dec_lt (i + 1) d) [
  | yes small ↦ inl (small, mod-eq_of_lt {n = i + 1} {m = d} small)
  | no big ↦ inr (
    omega arith,
    mod-eq-sub-mod {n = i + 1} {m = d} (omega arith)
        ∙ mod-eq_of_lt {n = i + 1 - d} {m = d} (omega arith)
        ∙ omega arith,
  )
]

-- The end of the ring is where its slots end.
size-end :
    (d n e : ℕ) (b : Bool) → n < d → e < d → (b ≡ false) ⊎ (n ≡ e) → e ≡ (n + size d n e b) % d
size-end d n e true hn he h =
    let same : n ≡ e = elim h [ inl bad ↦ absurd cc | inr s ↦ s ] in
    sym same ∙ sym (mod-eq_of_lt {n = n} {m = d} hn) ∙ ap (λ m. m % d) (omega arith)
size-end d n e false hn he h = elim (dec_lt n e) [
  | yes low ↦
      let total : n + size d n e false ≡ e = ground arith in
      sym (ap (λ m. m % d) total ∙ mod-eq_of_lt {n = e} {m = d} he)
  | no high ↦
      let total : n + size d n e false ≡ e + d = ground arith in
      sym (
        ap (λ m. m % d) total
        ∙ mod-eq-sub-mod {n = e + d} {m = d} (omega arith)
        ∙ mod-eq_of_lt {n = e + d - d} {m = d} (omega arith)
        ∙ omega arith)
]

-- The ring is full when the offsets meet and it is not empty.
size-full :
    (d n e : ℕ) (b : Bool)
    → n < d
    → e < d
    → (((n == e) && not b ≡ true) × (size d n e b ≡ d))
      ⊎ (((n == e) && not b ≡ false) × (size d n e b < d))
size-full d n e true hn he = inr (ground arith, omega arith)
size-full d n e false hn he = elim (ℕ_discrete n e) [
  | yes same ↦ inl (ground arith, ground arith)
  | no ne ↦ inr (ground (arith, ne), ground (arith, ne))
]

size-push :
    (d n e : ℕ) (b : Bool)
    → n < d
    → e < d
    → (b ≡ false) ⊎ (n ≡ e)
    → size d n e b < d
    → size d n ((e + 1) % d) false ≡ size d n e b + 1
size-push d n e true hn he h room =
    let same : n ≡ e = elim h [ inl bad ↦ absurd cc | inr s ↦ s ] in
    elim (wrap e d he) [
      | inl (small, w) ↦ ground (arith, w, same)
      | inr (big, w) ↦ ground (arith, w, same)
    ]
size-push d n e false hn he h room = elim (wrap e d he) [
  | inl (small, w) ↦ ground (arith, w)
  | inr (big, w) ↦ ground (arith, w)
]

size-pop :
    (d n e : ℕ)
    → n < d
    → e < d
    → size d n e false ≡ suc (size d ((n + 1) % d) e (if (n + 1) % d == e then true else false))
size-pop d n e hn he = elim (wrap n d hn) [
  | inl (small, w) ↦ ground (arith, w)
  | inr (big, w) ↦ ground (arith, w)
]

-- The context after `t` went into the ring.
abbrev pushed : ℕ → ℕ → Context → Context
pushed d t c = record c {
  tasks_queue = set c.tasks_queue c.end_of_queue t;
  end_of_queue = (c.end_of_queue + 1) % d;
  empty = false;
}

mod-inside : (i d : ℕ) → i < d → (i + 1) % d < d
mod-inside i d h = elim (wrap i d h) [ inl (small, e) ↦ omega arith | inr (big, e) ↦ omega arith ]

pushed-contents :
    (d t : ℕ) (c : Context)
    → IsRing d c
    → size d c.next_task c.end_of_queue c.empty < d
    → contents d (pushed d t c) ≡ contents d c ++ some t ∷ []
unfolding contents
pushed-contents d t c v room =
    let n = size d c.next_task c.end_of_queue c.empty in
    let buf = set c.tasks_queue c.end_of_queue t in
    let stop = size-end d c.next_task c.end_of_queue c.empty v.next_inside v.end_inside v.closed in
    let cell : get_elem? buf ((c.next_task + n) % d) ≡ some t =
      ap (get_elem? buf) (sym stop)
      ∙ get_elem?-set_self c.tasks_queue c.end_of_queue t
          (omega (arith, v.storage, v.end_inside)) in
    ap (slots d buf c.next_task) (
      size-push d c.next_task c.end_of_queue c.empty v.next_inside v.end_inside v.closed room
      ∙ omega arith)
    ∙ slots-snoc d buf c.next_task n v.next_inside
    ∙ ap₂ (λ xs x. xs ++ x ∷ [])
        (slots-set d c.tasks_queue t c.next_task c.end_of_queue n n v.next_inside (omega arith) room
          stop)
        cell

-- `sched_fifo_schedule` refines an insertion at the end of a queue of CONFIG_MAX_TASKS places: with a
-- place left the task comes last and the status is K_STATUS_OKAY, on a full queue nothing changes and
-- the status is K_SECURITY_INVSTATE.
pub fifo_schedule_lem :
    (d t : ℕ) (c : Context)
    → IsRing d c
    → ((length (contents d c) < d)
        × ((c' : Context) × (schedule d t c ≡ (okay, c'))
            × IsRing d c'
            × (contents d c' ≡ contents d c ++ some t ∷ [])
            × (get_current c' ≡ get_current c)))
      ⊎ ((length (contents d c) ≡ d) × (schedule d t c ≡ (security_invstate, c)))
unfolding contents enqueue
fifo_schedule_lem d t c v =
    let n = size d c.next_task c.end_of_queue c.empty in
    let len = length-slots d c.tasks_queue c.next_task n in
    elim (size-full d c.next_task c.end_of_queue c.empty v.next_inside v.end_inside) [
      | inl (test, full) ↦ inr (len ∙ full, if_true _ _ test)
      | inr (test, room) ↦ inl (
        omega (arith, len),
        (
          pushed d t c,
          if_false _ _ test,
          record {
            storage = length-set c.tasks_queue c.end_of_queue t ∙ v.storage;
            next_inside = v.next_inside;
            end_inside = mod-inside c.end_of_queue d v.end_inside;
            closed = inl refl;
          },
          unfold contents in pushed-contents d t c v room,
          refl,
        ),
      )
    ]

-- `sched_fifo_elect` refines taking the first task of the queue: it becomes the current one and the
-- others keep their order. With an empty queue idle is returned and nothing changes: the current task
-- is still the one elected before.
pub fifo_elect_lem :
    (d : ℕ) (c : Context)
    → IsRing d c
    → ((contents d c ≡ []) × (elect d c ≡ ret (idle_handle, c)))
      ⊎ ((t : ℕ) × (c' : Context) × (elect d c ≡ ret (t, c'))
          × IsRing d c'
          × (contents d c ≡ some t ∷ contents d c')
          × (get_current c' ≡ t))
unfolding contents elect dequeue slots
fifo_elect_lem d c v = elim (Bool-cases c.empty) [
  | inl e ↦ inl (
    ap (λ b. slots d c.tasks_queue c.next_task (size d c.next_task c.end_of_queue b)) e,
    if_true _ _ e,
  )
  | inr e ↦
      let (t, cell) =
        get_elem?_of_lt c.tasks_queue c.next_task (omega (arith, v.storage, v.next_inside)) in
      let next = (c.next_task + 1) % d in
      let taken : contents d c ≡ some t ∷ contents d (take_next d c t) =
        ap (slots d c.tasks_queue c.next_task) (
          ap (size d c.next_task c.end_of_queue) e
          ∙ size-pop d c.next_task c.end_of_queue v.next_inside v.end_inside)
        ∙ ap₂ (◌∷◌) cell (
            ap
              (λ b.
                slots d c.tasks_queue next
                  (size d next c.end_of_queue (if next == c.end_of_queue then true else b)))
              (sym e)) in
      inr (
        t,
        take_next d c t,
        if_false _ _ e ∙ if_false _ _ e ∙ rw cell refl,
        record {
          storage = v.storage;
          next_inside = mod-inside c.next_task d v.next_inside;
          end_inside = v.end_inside;
          closed = ground (arith, e);
        },
        taken,
        refl,
      )
]
