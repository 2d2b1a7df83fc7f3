-- ===== src/Client/Emit/Register.antt =====
-- client/client.go: the handlers that are registered, across any sequence of calls.
use libfabric_go.Base.{
  ℕ, suc, ◌≡◌, ◌<◌, ◌≤◌, ◌≢◌, none, some, List, [], ◌∷◌, arith, lookup, lookup-insert,
  lookup-delete, if◌then◌else◌, ◌==◌,
}
use libfabric_go.Client.Emit.{
  Board, register_send_handler, register_receive_handler, unregister_send_handler,
  unregister_receive_handler,
}

-- No handler stands under a key that is still to come.
pub record Fresh (b : Board) : Type 0 where
  pub sends : (id : ℕ) → b.handler_seq < id → lookup id b.send_handlers ≡ none
  pub receives : (id : ℕ) → b.handler_seq < id → lookup id b.receive_handlers ≡ none

pub data Call : Type 0 where
  add_send add_receive : ℕ → Call
  remove_send remove_receive : ℕ → Call

unfoldable pub step : Call → Board → Board
step (add_send h) b = (register_send_handler h b).0
step (add_receive h) b = (register_receive_handler h b).0
step (remove_send id) b = unregister_send_handler id b
step (remove_receive id) b = unregister_receive_handler id b

unfoldable pub run : List Call → Board → Board
unfolding step
run [] b = b
run (c ∷ cs) b = run cs (step c b)

step-Fresh : (c : Call) (b : Board) → Fresh b → Fresh (step c b)
unfolding step register_send_handler register_receive_handler unregister_send_handler
    unregister_receive_handler
step-Fresh (add_send h) b f = record {
  sends =
      λ id lt. ground (arith, f.sends id, lookup-insert (suc b.handler_seq) id h b.send_handlers);
  receives = λ id lt. ground (arith, f.receives id);
}
step-Fresh (add_receive h) b f = record {
  sends = λ id lt. ground (arith, f.sends id);
  receives = λ id lt.
      ground (arith, f.receives id, lookup-insert (suc b.handler_seq) id h b.receive_handlers);
}
step-Fresh (remove_send k) b f = record {
  sends = λ id lt. ground (arith, f.sends id, lookup-delete k id b.send_handlers);
  receives = λ id lt. f.receives id lt;
}
step-Fresh (remove_receive k) b f = record {
  sends = λ id lt. f.sends id lt;
  receives = λ id lt. ground (arith, f.receives id, lookup-delete k id b.receive_handlers);
}

run-Fresh : (cs : List Call) (b : Board) → Fresh b → Fresh (run cs b)
unfolding run
run-Fresh [] b f = f
run-Fresh (c ∷ cs) b f = run-Fresh cs (step c b) (step-Fresh c b f)

-- The calls do not remove the send handler under a key.
abbrev pub Keeps : ℕ → List Call → Type 0
Keeps id [] = Unit {0}
Keeps id (remove_send k ∷ cs) = (k ≢ id) × Keeps id cs
Keeps id (add_send h ∷ cs) = Keeps id cs
Keeps id (add_receive h ∷ cs) = Keeps id cs
Keeps id (remove_receive k ∷ cs) = Keeps id cs

lookup-run :
    (cs : List Call) (b : Board) (id h : ℕ)
    → id ≤ b.handler_seq
    → lookup id b.send_handlers ≡ some h
    → Keeps id cs
    → lookup id (run cs b).send_handlers ≡ some h
unfolding run step register_send_handler register_receive_handler unregister_send_handler
    unregister_receive_handler
lookup-run [] b id h lt e k = e
lookup-run (add_send g ∷ cs) b id h lt e k =
    lookup-run cs _ id h (omega arith)
      (ground (arith, lookup-insert (suc b.handler_seq) id g b.send_handlers)) k
lookup-run (add_receive g ∷ cs) b id h lt e k = lookup-run cs _ id h (omega arith) e k
lookup-run (remove_send j ∷ cs) b id h lt e k =
    lookup-run cs _ id h lt (ground (arith, k.0, lookup-delete j id b.send_handlers)) k.1
lookup-run (remove_receive j ∷ cs) b id h lt e k = lookup-run cs _ id h lt e k

-- From a board without keys to come, through any calls: a send handler that is then registered gets a
-- key under which no handler stood. It stays there through any calls that do not unregister its key, and
-- its unregister function then removes it and no other send handler.
pub send_handler_kept :
    (earlier later : List Call) (b : Board) (h : ℕ)
    → Fresh b
    → let b' = run earlier b in
      let (registered, id) = register_send_handler h b' in
      (lookup id b'.send_handlers ≡ none)
      × (Keeps id later → lookup id (run later registered).send_handlers ≡ some h)
      × ((j : ℕ)
          → lookup j (unregister_send_handler id (run later registered)).send_handlers
            ≡ (if id == j then none else lookup j (run later registered).send_handlers))
unfolding register_send_handler unregister_send_handler
send_handler_kept earlier later b h f =
    let b' = run earlier b in
    let (registered, id) = register_send_handler h b' in
    (
      (run-Fresh earlier b f).sends id (omega arith),
      λ k.
          lookup-run later registered id h (omega arith)
            (ground (arith, lookup-insert id id h b'.send_handlers)) k,
      λ j. lookup-delete id j (run later registered).send_handlers,
    )
