-- ===== src/Bridge/Clients/Registry.antt =====
-- The clients that the server knows: one for each session.
use sshx.Prelude.{
  ℕ, ◌≡◌, refl, true, false, none, some, List, [], ◌∷◌, ◌++◌, is_empty, nat_eq, bytes_eq, eq_iff,
  eq_refl, contains, arith,
}
use sshx.Prelude.Text.{Bytes}
use sshx.Prelude.Set.{Distinct, contains-append}
use sshx.Bridge.Clients.{Client, Server, has_session, add_client, serves, pick_client}

abbrev pub sessions : List Client → List Bytes
sessions [] = []
sessions (c ∷ cs) = c.session_id ∷ sessions cs

has_session-contains :
    (cs : List Client) (id : Bytes) → has_session cs id ≡ contains (sessions cs) id
unfolding has_session contains
has_session-contains [] id = refl
has_session-contains (c ∷ cs) id = ground (arith, has_session-contains cs id)

sessions-append : (xs ys : List Client) → sessions (xs ++ ys) ≡ sessions xs ++ sessions ys
sessions-append [] ys = refl
sessions-append (x ∷ xs) ys = rw (sessions-append xs ys)

distinct_end :
    (cs : List Client) (c : Client)
    → contains (sessions cs) c.session_id ≡ false
    → Distinct (sessions cs)
    → Distinct (sessions (cs ++ c ∷ []))
unfolding contains
distinct_end [] c h d = (refl, tt)
distinct_end (x ∷ cs) c h (n, d) = ground (
  arith,
  distinct_end cs c,
  sessions-append cs (c ∷ []),
  contains-append (sessions cs) (c.session_id ∷ []) x.session_id,
  eq_iff x.session_id c.session_id,
  eq_iff c.session_id x.session_id,
)

pick_new :
    (cs : List Client) (c : Client)
    → contains (sessions cs) c.session_id ≡ false
    → is_empty c.session_id ≡ false
    → pick_client (serves [] c.session_id []) (cs ++ c ∷ []) ≡ some c
unfolding pick_client serves contains
pick_new [] c h n = ground (arith, eq_refl c.session_id)
pick_new (x ∷ cs) c h n = ground (arith, pick_new cs c)

pick_other :
    (cs : List Client) (c : Client)
    → contains (sessions cs) c.session_id ≡ false
    → is_empty c.session_id ≡ false
    → pick_client (serves [] c.session_id []) cs ≡ none
unfolding pick_client serves contains
pick_other [] c h n = refl
pick_other (x ∷ cs) c h n = ground (arith, pick_other cs c)

accepted :
    (now : ℕ) (s : Server) (c : Client)
    → (add_client now s c).0 ≡ true
    → (contains (sessions s.clients) c.session_id ≡ false)
      × (s.draining ≡ false)
      × ((add_client now s c).1.clients ≡ s.clients ++ c ∷ [])
unfolding add_client
accepted now s c h = ground (arith, has_session-contains s.clients c.session_id)

-- A client is accepted only by a server that does not drain, and while its session has no other; it
-- is then the one that is found for its session, and each session still has one client.
pub add_client-pick_client :
    (now : ℕ) (s : Server) (c : Client)
    → Distinct (sessions s.clients)
    → is_empty c.session_id ≡ false
    → (add_client now s c).0 ≡ true
    → (s.draining ≡ false)
      × (pick_client (serves [] c.session_id []) s.clients ≡ none)
      × (pick_client (serves [] c.session_id []) (add_client now s c).1.clients ≡ some c)
      × Distinct (sessions (add_client now s c).1.clients)
add_client-pick_client now s c d n h =
    let (free, serving, e) = accepted now s c h in
    (
      serving,
      pick_other s.clients c free n,
      rw e (pick_new s.clients c free n),
      rw e (distinct_end s.clients c free d),
    )
