-- ===== src/Sched/Tasks/Exit.antt =====
-- The end of a task and its children: sched_exit, sched_next and sched_child of kernel/sched/sched.c.
use mathlib.Core.Option.{some-injective}
use sdx.Prelude.{
  ℕ, zero, suc, refl, sym, ap, inl, inr, Bool, true, false, Option, none, some, List, [], arith,
  Bool-cases, length, ◌<◌, ◌≡◌, ◌≢◌, ◌||◌, ◌∙◌, ◌∷◌, ◌==◌, if◌then◌else◌,
}
use sdx.Errno.{Errno, Result, ok, err}
use sdx.Sched.Tasks.{State, Task, Sched, ◌>>=◌, load, store}

unfoldable pub sched_next : (task : ℕ) → Sched → Option ℕ
sched_next task s = if task == 0 then some s.head else (do t ← load s task; some t.next)

-- The loop of sched_child.
unfoldable pub child_from : (fuel pid child : ℕ) → Sched → Option ℕ
child_from zero pid child s = none
child_from (suc fuel) pid child s = do
  c ← sched_next child s
  (if c == 0
      then some 0
      else (do t ← load s c; (if t.ppid == pid then some c else child_from fuel pid c s)))

unfoldable pub sched_child : (fuel task child : ℕ) → Sched → Option ℕ
sched_child fuel task child s =
    if task == 0 then some 0 else (do t ← load s task; child_from fuel t.pid child s)

-- The child of an ended task goes to the first process.
unfoldable pub adopt : (pid : ℕ) → Task → Task
adopt pid t = if t.ppid == pid then record t { ppid = 1 } else t

-- The loop of sched_exit.
unfoldable pub adopt_from : (fuel pid cur : ℕ) → Sched → Option Sched
adopt_from zero pid cur s = none
adopt_from (suc fuel) pid cur s =
    if cur == 0
    then some s
    else (do t ← load s cur; adopt_from fuel pid t.next (store s cur (adopt pid t)))

-- What sched_exit writes to the current task.
abbrev pub ended : (exit_code : ℕ) → Task → Task
ended exit_code t = record t { exit_code = exit_code; state = State.dead }

-- Up to the interrupt that switches to another task; `none` also for the panic where the first task ends.
unfoldable pub sched_exit : (fuel exit_code : ℕ) → Sched → Option (Result (Unit {0}) × Sched)
sched_exit fuel exit_code s =
    if s.current == 0 then some (err Errno.einval, s) else if s.head == s.current then none else (do
      t ← load s s.current
      s' ← adopt_from fuel t.pid s.head (store s s.current (ended exit_code t))
      some (ok tt, s'))

-- The links `next` from `p` on lead through the tasks of a list.
abbrev pub Listed : Sched → ℕ → List ℕ → Type 0
Listed s p [] = p ≡ 0
Listed s p (a ∷ rest) =
    (p ≡ a) × (a ≢ 0) × ((t : Task) × (s.tasks a ≡ some t) × Listed s t.next rest)

-- Is an address in a list?
abbrev pub elem : ℕ → List ℕ → Bool
elem q [] = false
elem q (a ∷ rest) = q == a || elem q rest

abbrev pub adopt_in : (pid : ℕ) → Bool → Option Task → Option Task
adopt_in pid inside none = none
adopt_in pid inside (some t) = some (if inside then adopt pid t else t)

no_fuel : {n : ℕ} → n < 0 → ⊥
no_fuel lt = omega (arith, lt)

-- A write to one task that keeps its link keeps the list.
Listed-store :
    (s : Sched) (p a : ℕ) (t t' : Task) (xs : List ℕ)
    → s.tasks a ≡ some t
    → t'.next ≡ t.next
    → Listed s p xs
    → Listed (store s a t') p xs
unfolding store
Listed-store s p a t t' [] here same l = l
Listed-store s p a t t' (b ∷ rest) here same (x, y, (u, cell, l)) = elim (Bool-cases (b == a)) [
  | inl e ↦
      (x, y, (t', rw e refl, rw (next_is e cell) (Listed-store s u.next a t t' rest here same l)))
  | inr e ↦ (x, y, (u, rw e cell, Listed-store s u.next a t t' rest here same l))
]
  where
    next_is : {u : Task} → (b == a) ≡ true → s.tasks b ≡ some u → t'.next ≡ u.next
    next_is {u} e cell =
        let b_is : b ≡ a = ground (arith, e) in
        let both : some u ≡ some t = sym cell ∙ rw b_is here in
        same ∙ sym (ap (λ (r : Task). r.next) (some-injective _ _ both))

adopt-next : (pid : ℕ) (t : Task) → (adopt pid t).next ≡ t.next
unfolding adopt
adopt-next pid t = elim (Bool-cases (t.ppid == pid)) [ inl e ↦ rw e refl | inr e ↦ rw e refl ]

adopt_twice : (pid : ℕ) (t : Task) → adopt pid (adopt pid t) ≡ adopt pid t
unfolding adopt
adopt_twice pid t = elim (Bool-cases (t.ppid == pid)) [
  | inr e ↦ rw (e, e) refl
  | inl e ↦ elim (Bool-cases (1 == pid)) [ inl f ↦ rw (e, f) refl | inr f ↦ rw (e, f) refl ]
]

adopt_from-take :
    (fuel pid p : ℕ) (s : Sched) (t : Task)
    → p ≢ 0
    → s.tasks p ≡ some t
    → adopt_from (suc fuel) pid p s ≡ adopt_from fuel pid t.next (store s p (adopt pid t))
unfolding adopt_from load
adopt_from-take fuel pid p s t ne cell =
    let z : (p == 0) ≡ false = ground (arith, ne) in rw (z, cell) refl

adopt_from-end : (fuel pid p : ℕ) (s : Sched) → p ≡ 0 → adopt_from (suc fuel) pid p s ≡ some s
unfolding adopt_from
adopt_from-end fuel pid p s z = rw (z, adopt_from) refl

adopt_in-outside : (pid : ℕ) (o : Option Task) → o ≡ adopt_in pid false o
adopt_in-outside pid none = refl
adopt_in-outside pid (some t) = refl

adopt_in-adopt :
    (pid : ℕ) (t : Task) (inside : Bool)
    → adopt_in pid inside (some (adopt pid t)) ≡ some (adopt pid t)
adopt_in-adopt pid t true = ap (λ (u : Task). some u) (adopt_twice pid t)
adopt_in-adopt pid t false = refl

adopt_in-store :
    (pid : ℕ) (s : Sched) (a q : ℕ) (t : Task)
    → s.tasks a ≡ some t
    → (rest : Bool)
    → adopt_in pid rest ((store s a (adopt pid t)).tasks q)
      ≡ adopt_in pid (q == a || rest) (s.tasks q)
unfolding store
adopt_in-store pid s a q t cell rest = elim (Bool-cases (q == a)) [
  | inl e ↦
      let q_is : q ≡ a = ground (arith, e) in
      let here : s.tasks q ≡ some t = rw q_is cell in rw (e, here) (adopt_in-adopt pid t rest)
  | inr e ↦ rw e refl
]

adopt_from-adopt_in :
    (fuel pid p : ℕ) (s : Sched) (xs : List ℕ)
    → Listed s p xs
    → length xs < fuel
    → (s' : Sched) × (adopt_from fuel pid p s ≡ some s')
      × ((q : ℕ) → s'.tasks q ≡ adopt_in pid (elem q xs) (s.tasks q))
unfolding store
adopt_from-adopt_in zero pid p s xs l lt = elim (no_fuel lt) [ ]
adopt_from-adopt_in (suc fuel) pid p s [] z lt =
    (s, adopt_from-end fuel pid p s z, λ q. adopt_in-outside pid (s.tasks q))
adopt_from-adopt_in (suc fuel) pid p s (a ∷ rest) (x, y, (t, cell, l)) lt =
    let s1 = store s a (adopt pid t) in
    let (s', e, spec) =
      adopt_from-adopt_in fuel pid t.next s1 rest
        (Listed-store s t.next a t (adopt pid t) rest cell (adopt-next pid t) l)
        (omega (arith, lt)) in
    (
      s',
      rw x (adopt_from-take fuel pid a s t y cell ∙ e),
      λ q. spec q ∙ adopt_in-store pid s a q t cell (elem q rest),
    )

-- The current task ends: with the tasks of the queue listed and the current task not the first of them,
-- sched_exit marks it dead with its exit code and gives its children among them to process 1; nothing
-- else of any task changes.
pub sched_exit-adopts :
    (fuel code : ℕ) (s : Sched) (t : Task) (xs : List ℕ)
    → Listed s s.head xs
    → length xs < fuel
    → s.current ≢ 0
    → s.head ≢ s.current
    → s.tasks s.current ≡ some t
    → (s' : Sched) × (sched_exit fuel code s ≡ some (ok tt, s'))
      × ((q : ℕ)
          → s'.tasks q
            ≡ adopt_in t.pid
                (elem q xs)
                (if q == s.current then some (ended code t) else s.tasks q))
unfolding sched_exit load store
sched_exit-adopts fuel code s t xs l lt nonzero other cell =
    let (s', e, spec) =
      adopt_from-adopt_in fuel t.pid s.head (store s s.current (ended code t)) xs
        (Listed-store s s.head s.current t (ended code t) xs cell refl l) lt in
    let z : (s.current == 0) ≡ false = ground (arith, nonzero) in
    let f : (s.head == s.current) ≡ false = ground (arith, other) in
    (s', rw (z, f, cell) rw e refl, spec)
