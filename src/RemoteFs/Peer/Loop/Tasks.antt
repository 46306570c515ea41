-- ===== src/RemoteFs/Peer/Loop/Tasks.antt =====
-- The tasks of a peer: their numbers are different, and each is counted once.
use sshx.Prelude.{
  ℕ, ◌+◌, ◌-◌, ◌<◌, ◌≡◌, sym, ◌∙◌, ◌≢◌, ◌⊎◌, refl, Bool, true, false, Option, none, some, [], ◌∷◌,
  ◌==◌, nat_eq, eq_iff, arith, Bool-cases, inl, inr,
}
use sshx.Prelude.Map.{
  Map, IsMap, count, lookup, insert, delete, has, delete-IsMap, insert-IsMap, count-delete,
  delete_absent, lookup-delete, lookup-insert,
}
use sshx.RemoteFs.Peer.Loop.{Task, cancel_task, cancel_active}

any : Task → Bool
any t = true

-- Every key of the map is below `n`.
unfoldable pub IsBelow : {V : Type 0} → ℕ → Map ℕ V → Type 0
IsBelow {V = V} n m = (k : ℕ) (v : V) → lookup k m ≡ some v → k < n

-- The tasks are numbered below `next`, each number once, and there are `in_flight` of them.
unfoldable pub Numbered : ℕ → ℕ → Map ℕ Task → Type 0
unfolding IsBelow
Numbered next in_flight tasks =
    IsMap tasks × IsBelow next tasks × (in_flight ≡ count (λ _. true) tasks)

cancel_task-lookup :
    (n k : ℕ) (tasks : Map ℕ Task) → has (lookup k (cancel_task n tasks)) ≡ has (lookup k tasks)
unfolding lookup
cancel_task-lookup n k [] = refl
cancel_task-lookup n k ((j, t) ∷ tasks) = ground (arith, cancel_task-lookup n k tasks)

none_not_some : {V : Type 0} (v : V) → none ≢ some v
none_not_some v e = cc

has-none : {V : Type 0} (o : Option V) → has o ≡ false → o ≡ none
has-none none h = refl
has-none (some v) h = cc

pub has-some : {V : Type 0} (o : Option V) → has o ≡ true → (v : V) × (o ≡ some v)
has-some none h = cc
has-some (some v) h = (v, refl)

cancel_task-count :
    (n : ℕ) (tasks : Map ℕ Task) → count (λ _. true) (cancel_task n tasks) ≡ count (λ _. true) tasks
cancel_task-count n [] = refl
cancel_task-count n ((j, t) ∷ tasks) = rw (cancel_task-count n tasks)

cancel_task-IsMap : (n : ℕ) (tasks : Map ℕ Task) → IsMap tasks → IsMap (cancel_task n tasks)
cancel_task-IsMap n [] h = tt
cancel_task-IsMap n ((j, t) ∷ tasks) (a, h) = (
  has-none (lookup j (cancel_task n tasks)) (rw (cancel_task-lookup n j tasks, a)),
  cancel_task-IsMap n tasks h,
)

pub cancel_task-Numbered :
    (n next in_flight : ℕ) (tasks : Map ℕ Task)
    → Numbered next in_flight tasks
    → Numbered next in_flight (cancel_task n tasks)
unfolding Numbered IsBelow
cancel_task-Numbered n next in_flight tasks (m, b, c) = (
  cancel_task-IsMap n tasks m,
  (λ k t e.
      let (t', e') = has-some (lookup k tasks) (rw (← (cancel_task-lookup n k tasks), e)) in
      b k t' e'),
  rw (cancel_task-count n tasks) c,
)

pub cancel_active-Numbered :
    (active : Map ℕ ℕ) (next in_flight : ℕ) (tasks : Map ℕ Task)
    → Numbered next in_flight tasks
    → Numbered next in_flight (cancel_active active tasks)
cancel_active-Numbered [] next in_flight tasks h = h
cancel_active-Numbered ((id, n) ∷ active) next in_flight tasks h =
    cancel_active-Numbered active next in_flight (cancel_task n tasks)
      (cancel_task-Numbered n next in_flight tasks h)

absent :
    {V : Type 0} (n : ℕ) (m : Map ℕ V) → IsBelow n m → (o : Option V) → lookup n m ≡ o → o ≡ none
unfolding IsBelow
absent n m b none e = refl
absent n m b (some v) e = ground (arith, b n v e)

insert-lookup :
    (k j : ℕ) (t v : Task) (tasks : Map ℕ Task)
    → lookup j (insert k t tasks) ≡ some v
    → (k ≡ j) ⊎ (lookup j tasks ≡ some v)
insert-lookup k j t v tasks e = elim (Bool-cases (k == j)) [
  | inl same ↦ inl ((eq_iff k j).0 same)
  | inr other ↦ inr (rw (lookup-insert k j t tasks, other) at e)
]

delete-lookup :
    (k j : ℕ) (v : Task) (tasks : Map ℕ Task)
    → lookup j (delete k tasks) ≡ some v
    → lookup j tasks ≡ some v
delete-lookup k j v tasks e = elim (Bool-cases (k == j)) [
  | inl same ↦ absurd (none_not_some v (rw (lookup-delete k j tasks, same) at e))
  | inr other ↦ rw (lookup-delete k j tasks, other) at e
]

pub insert-Numbered :
    (next in_flight : ℕ) (t : Task) (tasks : Map ℕ Task)
    → Numbered next in_flight tasks
    → Numbered (next + 1) (in_flight + 1) (insert next t tasks)
unfolding Numbered IsBelow
insert-Numbered next in_flight t tasks (m, b, c) =
    let free : lookup next tasks ≡ none = absent next tasks b (lookup next tasks) refl in
    (
      insert-IsMap next t tasks m,
      (λ k v e. elim (insert-lookup next k t v tasks e) [
        | inl same ↦ omega (arith, same)
        | inr old ↦ let below : k < next = b k v old in omega (arith, below)
      ]),
      unfold insert in rw (delete_absent next tasks free) (omega arith),
    )

pub delete-Numbered :
    (n next in_flight : ℕ) (t : Task) (tasks : Map ℕ Task)
    → lookup n tasks ≡ some t
    → Numbered next in_flight tasks
    → Numbered next (in_flight - 1) (delete n tasks)
unfolding Numbered IsBelow
delete-Numbered n next in_flight t tasks l (m, b, c) = (
  delete-IsMap n tasks m,
  (λ k v e. b k v (delete-lookup n k v tasks e)),
  omega (arith, count-delete (λ _. true) n t tasks m l),
)

-- Canceling keeps the tasks.
pub cancel_active-lookup :
    (active : Map ℕ ℕ) (k : ℕ) (tasks : Map ℕ Task)
    → has (lookup k (cancel_active active tasks)) ≡ has (lookup k tasks)
cancel_active-lookup [] k tasks = refl
cancel_active-lookup ((id, n) ∷ active) k tasks =
    cancel_active-lookup active k (cancel_task n tasks) ∙ cancel_task-lookup n k tasks

pub no_tasks-Numbered : Numbered 0 0 []
unfolding Numbered IsBelow lookup
no_tasks-Numbered = (tt, (λ k v e. cc), refl)

pub Numbered-count :
    (next in_flight : ℕ) (tasks : Map ℕ Task)
    → Numbered next in_flight tasks
    → count (λ _. true) tasks ≡ in_flight
unfolding Numbered
Numbered-count next in_flight tasks (m, b, c) = sym c
