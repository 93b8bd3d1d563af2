-- ===== src/Ipc/Request.antt =====
-- internal/ipc/server.go: which of the client's lines the server handles.
use tmidb_core.Base.{
  ℕ, zero, suc, ◌<◌, ◌≡◌, refl, true, false, List, Option, none, some, Text, arith, text_eq,
  Option-cases, inl, inr,
}
use tmidb_core.Ipc.{Message, Response, Server}
use tmidb_core.Ipc.Stream.{HandlerFunc}
use tmidb_core.Ipc.Table.{finish}
use tmidb_core.Ipc.Serve.{log_stream, Turn, seen, with_connection, handle_message, turn, serve}

module _ {D : Type 0} (unmarshal : Text → Option Message) (marshal : Response D → Option Text)
    (handlers : List (Text × HandlerFunc D)) where
  -- A turn that reads a line that is not a message.
  pub record Skips (t : Turn) : Type 0 where
    pub running : t.done ≡ false
    pub line : Text
    pub read : t.line ≡ some line
    pub refused : unmarshal line ≡ none

  pub record Reads (msg : Message) (t : Turn) : Type 0 where
    pub running : t.done ≡ false
    pub line : Text
    pub read : t.line ≡ some line
    pub parsed : unmarshal line ≡ some msg

  turn-Skips :
      (t : Turn) (k : ℕ) (s : Server)
      → Skips t
      → turn unmarshal marshal handlers t k s ≡ some (s, true)
  unfolding turn
  turn-Skips t k s skip = rw (skip.running, turn) (rw (skip.read) (rw (skip.refused) refl))

  -- The handling of a message, as the loop calls it.
  abbrev pub handling : Turn → ℕ → Message → Server → Option Server
  handling t k msg s =
      handle_message marshal handlers t.write_fails k msg
        (with_connection k (seen t.now (s.connection k)) s)

  turn-Reads :
      (t : Turn) (k : ℕ) (msg : Message) (s : Server)
      → Reads msg t
      → turn unmarshal marshal handlers t k s ≡ (elim (handling t k msg s) [
        | none ↦ none
        | some s2 ↦ some (s2, text_eq msg.type_ log_stream)
      ])
  unfolding turn
  turn-Reads t k msg s reads = rw (reads.running, turn) (rw (reads.read) (rw (reads.parsed) refl))

  -- The first message, when it does not ask for a stream, is the only one that is handled: lines
  -- before it that are not messages change nothing, and nothing after it is read.
  pub serve_one_request :
      (n m : ℕ) (turns : ℕ → Turn) (k : ℕ) (msg : Message) (s : Server)
      → ((i : ℕ) → i < n → Skips (turns i))
      → Reads msg (turns n)
      → text_eq msg.type_ log_stream ≡ false
      → n < m
      → serve unmarshal marshal handlers m turns k s
        ≡ (elim (handling (turns n) k msg s) [ none ↦ none | some t ↦ some (finish k t, false) ])
  unfolding serve
  serve_one_request n zero turns k msg s skip reads other lt = absurd (omega arith)
  serve_one_request zero (suc m) turns k msg s skip reads other lt =
      let first = turn-Reads (turns zero) k msg s reads in
      elim (Option-cases (handling (turns zero) k msg s)) [
        | inl e ↦ rw (first, serve) (rw e refl)
        | inr (t, e) ↦ rw (first, serve) (rw e (rw other refl))
      ]
  serve_one_request (suc n) (suc m) turns k msg s skip reads other lt =
      rw (turn-Skips (turns zero) k s (skip zero (omega arith)), serve)
        (serve_one_request n m (λ i. turns (suc i)) k msg s (λ i less. skip (suc i) (omega arith))
          reads other (omega arith))
