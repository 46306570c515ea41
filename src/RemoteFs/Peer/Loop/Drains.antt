-- ===== src/RemoteFs/Peer/Loop/Drains.antt =====
-- A peer can always finish the requests that it works on.
use sshx.Prelude.{
  ℕ, zero, suc, ◌-◌, ◌≡◌, ◌∙◌, refl, true, some, [], ◌∷◌, nat_eq, eq_refl, arith, if-holds,
}
use sshx.Prelude.Map.{Map, lookup, count}
use sshx.RemoteFs.Peer.{PeerOptions}
use sshx.RemoteFs.Peer.Loop.{Peer, Task, written, send, send_response, run_task}
use sshx.RemoteFs.Peer.Loop.Tasks.{Numbered-count}
use sshx.RemoteFs.Peer.Loop.Steps.{Step, runs, Run, stays, goes, Reachable}
use sshx.RemoteFs.Peer.Loop.Counted.{IsCounted, run_task-IsCounted, Reachable-IsCounted}

no_task : (tasks : Map ℕ Task) → count (λ _. true) tasks ≡ 0 → tasks ≡ []
no_task [] e = refl
no_task ((n, t) ∷ tasks) e = ground arith

module _ {S : Type 0} (opts : PeerOptions S) where
  first : {p q r : Peer S} → Step opts p q → Run opts q r → Run opts p r
  first step stays = goes stays step
  first step (goes run last) = goes (first step run) last

  -- A task that ends frees one slot.
  run_task-in_flight :
      (n : ℕ) (t : Task) (p : Peer S) → (run_task opts written n t p).in_flight ≡ p.in_flight - 1
  unfolding run_task send_response send
  run_task-in_flight n t p =
      let Q : Peer S → Type 0 = λ q. q.in_flight - 1 ≡ p.in_flight - 1 in
      if-holds Q t.canceled (λ _. refl) (λ _. if-holds Q p.is_done (λ _. refl) (λ _. refl))

  some_task :
      (k : ℕ) (tasks : Map ℕ Task)
      → count (λ _. true) tasks ≡ suc k
      → (n : ℕ) × (t : Task) × (lookup n tasks ≡ some t)
  unfolding lookup
  some_task k [] e = ground arith
  some_task k ((n, t) ∷ tasks) e = (n, t, rw (eq_refl n))

  drain :
      (k : ℕ) (p : Peer S)
      → IsCounted p
      → p.in_flight ≡ k
      → (q : Peer S) × Run opts p q × (q.in_flight ≡ 0) × IsCounted q
  drain zero p h e = (p, stays, e, h)
  drain (suc k) p h e =
      let (n, t, l) =
        some_task k p.tasks (Numbered-count p.next_task p.in_flight p.tasks h.numbered ∙ e) in
      let next = run_task opts written n t p in
      let fewer : next.in_flight ≡ k = omega (arith, run_task-in_flight n t p, e) in
      let (q, run, none_left, counted) =
        drain k next (run_task-IsCounted opts written n t p l h) fewer in
      (q, first (runs written n t l) run, none_left, counted)

-- From every reachable state of a peer its tasks can run to the end, after which all 64 slots for the
-- requests of the other side are free and no task is left.
pub Reachable-drains :
    {S : Type 0} (opts : PeerOptions S) (base : ℕ) (s : S) (p : Peer S)
    → Reachable opts base s p
    → (q : Peer S) × Run opts p q × (q.in_flight ≡ 0) × (q.tasks ≡ [])
Reachable-drains opts base s p r =
    let (q, run, e, h) = drain opts p.in_flight p (Reachable-IsCounted opts base s p r) refl in
    (q, run, e, no_task q.tasks (Numbered-count q.next_task q.in_flight q.tasks h.numbered ∙ e))
