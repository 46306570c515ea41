-- ===== src/Bridge/Clients/Retry.antt =====
-- The retry loop ends, and is one pass over the clients.
use sshx.Prelude.{
  ◌∙◌, ◌⊎◌, All-append, ℕ, zero, suc, ◌<◌, ◌≡◌, refl, Bool, true, false, Option, none, some, List,
  [], ◌∷◌, ◌++◌, append_assoc, length, if◌then◌else◌, nat_eq, eq_iff, eq_refl, contains, arith, All,
  Bool-cases, inl, inr,
}
use sshx.Prelude.Text.{Bytes, codes}
use sshx.Prelude.Set.{Distinct, contains-append}
use sshx.Bridge.Clients.{
  Client, take_out, serves, pick_client, Reply, answered, broken, Outcome, response, refusal,
  attempts, run_command,
}

abbrev pub ids : List Client → List ℕ
ids [] = []
ids (c ∷ cs) = c.id ∷ ids cs

-- One pass: each client that serves the command is asked in order, until one answers; those that
-- broke are left out.
abbrev pub one_pass :
    (Client → Bool) → (Client → Reply) → Option ℕ → List Client → Outcome × List Client
one_pass serves_it request last [] = (refusal last, [])
one_pass serves_it request last (c ∷ cs) =
    if serves_it c
    then elim (request c) [
      | answered r ↦ (response c r, c ∷ cs)
      | broken e ↦ one_pass serves_it request (some e) cs
    ]
    else (let (outcome, rest) = one_pass serves_it request last cs in (outcome, c ∷ rest))

ids-append : (xs ys : List Client) → ids (xs ++ ys) ≡ ids xs ++ ids ys
ids-append [] ys = refl
ids-append (x ∷ xs) ys = rw (ids-append xs ys)

-- Distinct identities: the one behind a list is not in it, and they stay distinct without it.
distinct_mid :
    (pre : List Client) (c : Client) (rest : List Client)
    → Distinct (ids (pre ++ c ∷ rest))
    → (contains (ids pre) c.id ≡ false) × Distinct (ids (pre ++ rest))
unfolding contains
distinct_mid [] c rest (n, d) = (refl, d)
distinct_mid (p ∷ pre) c rest (n, d) =
    let (absent, rest_distinct) = distinct_mid pre c rest d in
    ground (
      arith,
      ids-append pre (c ∷ rest),
      ids-append pre rest,
      contains-append (ids pre) (ids (c ∷ rest)) p.id,
      contains-append (ids pre) (ids rest) p.id,
      eq_iff p.id c.id,
      eq_iff c.id p.id,
    )

module _ (serves_it : Client → Bool) (request : Client → Reply) where
  pick_client-append :
      (pre rest : List Client)
      → All (λ c. serves_it c ≡ false) pre
      → pick_client serves_it (pre ++ rest) ≡ pick_client serves_it rest
  unfolding pick_client
  pick_client-append [] rest h = refl
  pick_client-append (p ∷ pre) rest (n, h) = ground (arith, pick_client-append pre rest h)

  take_out-append :
      (pre : List Client) (c : Client) (rest : List Client)
      → contains (ids pre) c.id ≡ false
      → (take_out (pre ++ c ∷ rest) c).1 ≡ pre ++ rest
  unfolding take_out contains
  take_out-append [] c rest h = ground (arith, eq_refl c.id)
  take_out-append (p ∷ pre) c rest h = ground (arith, take_out-append pre c rest)

  attempts-answered :
      (fuel : ℕ) (last : Option ℕ) (clients : List Client) (c : Client) (r : Bytes)
      → pick_client serves_it clients ≡ some c
      → request c ≡ answered r
      → attempts (suc fuel) serves_it request last clients ≡ (some (response c r), clients)
  unfolding attempts
  attempts-answered fuel last clients c r picked e = ground arith

  attempts-broken :
      (fuel : ℕ) (last : Option ℕ) (clients : List Client) (c : Client) (e : ℕ)
      → pick_client serves_it clients ≡ some c
      → request c ≡ broken e
      → attempts (suc fuel) serves_it request last clients
        ≡ attempts fuel serves_it request (some e) (take_out clients c).1
  unfolding attempts
  attempts-broken fuel last clients c e picked b = ground arith

  attempts-none :
      (fuel : ℕ) (last : Option ℕ) (clients : List Client)
      → pick_client serves_it clients ≡ none
      → attempts (suc fuel) serves_it request last clients ≡ (some (refusal last), clients)
  unfolding attempts
  attempts-none fuel last clients picked = ground arith

  nothing_picked :
      (pre : List Client)
      → All (λ c. serves_it c ≡ false) pre
      → pick_client serves_it (pre ++ []) ≡ none
  nothing_picked pre h = pick_client-append pre [] h ∙ unfold pick_client in refl

  first_picked :
      (pre : List Client) (c : Client) (rest : List Client)
      → All (λ c1. serves_it c1 ≡ false) pre
      → serves_it c ≡ true
      → pick_client serves_it (pre ++ c ∷ rest) ≡ some c
  first_picked pre c rest h s =
      pick_client-append pre (c ∷ rest) h ∙ unfold pick_client in ground arith

  Reply-cases : (o : Reply) → ((r : Bytes) × (o ≡ answered r)) ⊎ ((e : ℕ) × (o ≡ broken e))
  Reply-cases (answered r) = inl (r, refl)
  Reply-cases (broken e) = inr (e, refl)

  attempts-one_pass :
      (rest pre : List Client) (fuel : ℕ) (last : Option ℕ)
      → All (λ c. serves_it c ≡ false) pre
      → Distinct (ids (pre ++ rest))
      → length rest < fuel
      → attempts fuel serves_it request last (pre ++ rest) ≡ (
        some (one_pass serves_it request last rest).0,
        pre ++ (one_pass serves_it request last rest).1,
      )
  attempts-one_pass rest pre zero last h d lt = absurd (omega arith)
  attempts-one_pass [] pre (suc fuel) last h d lt =
      attempts-none fuel last (pre ++ []) (nothing_picked pre h)
  attempts-one_pass (c ∷ rest) pre (suc fuel) last h d lt = elim (Bool-cases (serves_it c)) [
    | inr no_service ↦
        let seam = append_assoc pre (c ∷ []) in
        let all = All-append (λ c1. serves_it c1 ≡ false) pre (c ∷ []) h (no_service, tt) in
        let step =
          attempts-one_pass rest (pre ++ c ∷ []) (suc fuel) last all (rw (seam rest) d)
            (omega arith) in
        ground (arith, step, seam rest, seam (one_pass serves_it request last rest).1)
    | inl service ↦
        let picked = first_picked pre c rest h service in
        let (absent, distinct) = distinct_mid pre c rest d in
        elim (Reply-cases (request c)) [
          | inl (r, e) ↦ ground (arith, attempts-answered fuel last (pre ++ c ∷ rest) c r picked e)
          | inr (e, b) ↦
              let step = attempts-one_pass rest pre fuel (some e) h distinct (omega arith) in
              ground (
                arith,
                attempts-broken fuel last (pre ++ c ∷ rest) c e picked b,
                take_out-append pre c rest absent,
                step,
              )
        ]
  ]

-- While no other handler changes the clients, a command ends, and it ends as one pass over the
-- clients does: the first client that serves it and answers has answered it, the clients that serve
-- it and broke before are taken out, every other client stays, and without an answer the last error
-- is returned.
pub run_command-one_pass :
    (request : Client → Reply) (context_id session_id : Bytes) (clients : List Client)
    → Distinct (ids clients)
    → run_command request context_id session_id clients ≡ (
      some
          (one_pass
            (serves context_id session_id (codes "command.exec.batch-stdin"))
            request
            none
            clients).0,
      (one_pass
          (serves context_id session_id (codes "command.exec.batch-stdin"))
          request
          none
          clients).1,
    )
unfolding run_command
run_command-one_pass request context_id session_id clients d =
    attempts-one_pass (serves context_id session_id (codes "command.exec.batch-stdin")) request
      clients [] (suc (length clients)) none tt d (omega arith)
