-- ===== src/Ipc/Turning.antt =====
-- internal/ipc/server.go: one turn of the loop that serves a connection.
use tmidb_core.Base.{
  ℕ, ◌≡◌, sym, ◌∙◌, refl, Bool, true, false, List, Option, none, some, Text, bytes, arith, text_eq,
  Bool-cases, Option-cases, inl, inr,
}
use tmidb_core.Base.Dict.{lookup}
use tmidb_core.Ipc.{Message, Response, new_response, Server}
use tmidb_core.Ipc.Stream.{HandlerFunc}
use tmidb_core.Ipc.Owned.{IsOwned}
use tmidb_core.Ipc.Behaved.{Answers, Supervised, Supervised-Answers, Supervised-IsBehaved}
use tmidb_core.Ipc.Table.{with_streams}
use tmidb_core.Ipc.Serve.{
  log_stream, Turn, seen, write_line, with_connection, send_response, handle_message, turn,
}

-- A server between two turns: its streams are in order, and the connection has its identifier.
pub record IsServed (k : ℕ) (id : Text) (s : Server) : Type 0 where
  pub owned : IsOwned s.streams
  pub named : (s.connection k).id ≡ id

module _ {D : Type 0} (marshal : Response D → Option Text) where
  send_response-IsServed :
      (fails : Bool) (k : ℕ) (id : Text) (r : Response D) (s : Server)
      → IsServed k id s
      → IsServed k id (send_response marshal fails k r s)
  unfolding send_response with_connection write_line
  send_response-IsServed fails k id r s h = elim (Option-cases (marshal r)) [
    | inl e ↦ rw (e, send_response) h
    | inr (line, e) ↦ elim (Bool-cases fails) [
      | inl f ↦ rw (e, send_response) (rw f h)
      | inr f ↦
          rw (e, send_response) (rw f (record { owned = h.owned; named = ground (arith, h.named) }))
    ]
  ]

module _ {D : Type 0} (status : Text → D) (unmarshal : Text → Option Message)
    (marshal : Response D → Option Text) (handlers : List (Text × HandlerFunc D)) where
  -- A turn after which the loop does not go on.
  pub data Ends (t : Turn) : Type 0 where
    done : t.done ≡ true → Ends t
    unread : t.line ≡ none → Ends t
    request :
        (line : Text) (msg : Message)
        → t.line ≡ some line
        → unmarshal line ≡ some msg
        → text_eq msg.type_ log_stream ≡ false
        → Ends t

  handle_message-IsServed :
      Supervised status handlers
      → (fails : Bool) (k : ℕ) (id : Text) (msg : Message) (s : Server) → Answers handlers msg
      → IsServed k id s
      → (t : Server) × (handle_message marshal handlers fails k msg s ≡ some t) × IsServed k id t
  unfolding handle_message
  handle_message-IsServed all fails k id msg s answers h =
      elim (Option-cases (lookup msg.type_ handlers)) [
        | inl e ↦
            let unknown = new_response msg.id false none (bytes "Unknown message type") in
            (
              send_response marshal fails k unknown s,
              rw (e, handle_message) refl,
              send_response-IsServed marshal fails k id unknown s h,
            )
        | inr (handler, e) ↦
            let done = answers handler e (s.connection k) s.streams h.owned in
            let kept =
              Supervised-IsBehaved status handlers all msg.type_ handler e (s.connection k) msg
                s.streams done.0 h.owned done.1 in
            let s2 : Server = with_streams done.0.streams s in
            let h2 : IsServed k id s2 = record { owned = kept.owned; named = h.named } in
            elim (Option-cases done.0.response) [
              | inl nil ↦ (s2, rw (e, handle_message) (rw (done.1) (rw nil refl)), h2)
              | inr (r, found) ↦ (
                send_response marshal fails k r s2,
                rw (e, handle_message) (rw (done.1) (rw found refl)),
                send_response-IsServed marshal fails k id r s2 h2,
              )
            ]
      ]

  -- Where a turn reads a request for something else than a stream, its handler returns.
  abbrev pub Replies : Turn → Type 0
  Replies t =
      (line : Text) (msg : Message)
      → t.line ≡ some line
      → unmarshal line ≡ some msg
      → text_eq msg.type_ log_stream ≡ false
      → Answers handlers msg

  Replies-Answers :
      Supervised status handlers
      → (t : Turn) (line : Text) (msg : Message) → Replies t
      → t.line ≡ some line
      → unmarshal line ≡ some msg
      → Answers handlers msg
  Replies-Answers all t line msg replies r u = elim (Bool-cases (text_eq msg.type_ log_stream)) [
    | inl e ↦ Supervised-Answers status handlers all msg e
    | inr e ↦ replies line msg r u e
  ]

  -- A turn that does not panic, and whether the loop goes on after it.
  pub record Turned (k : ℕ) (id : Text) (t : Turn) (s : Server) : Type 0 where
    pub after : Server
    pub again : Bool
    pub runs : turn unmarshal marshal handlers t k s ≡ some (after, again)
    pub served : IsServed k id after
    pub last : Ends t → again ≡ false

  -- A turn that goes on after a message has read a request for a stream.
  last_turn :
      (t : Turn) (line : Text) (msg : Message)
      → t.done ≡ false
      → t.line ≡ some line
      → unmarshal line ≡ some msg
      → Ends t
      → text_eq msg.type_ log_stream ≡ false
  last_turn t line msg running read parsed (done d) = absurd (cc)
  last_turn t line msg running read parsed (unread e) = absurd (cc)
  last_turn t line msg running read parsed (request line2 msg2 e p other) =
      let same : some line2 ≡ some line = sym e ∙ read in
      let one : some msg2 ≡ some msg = cc in let m : msg2 ≡ msg = cc in rw m at other

  -- A turn that skips a line has read one, and the line is not a message.
  skipped_turn :
      (t : Turn) (line : Text)
      → t.done ≡ false
      → t.line ≡ some line
      → unmarshal line ≡ none
      → Ends t
      → true ≡ false
  skipped_turn t line running read parsed (done d) = absurd (cc)
  skipped_turn t line running read parsed (unread e) = absurd (cc)
  skipped_turn t line running read parsed (request line2 msg2 e p other) =
      let same : line2 ≡ line = cc in absurd (cc)

  turn-message :
      (t : Turn) (k : ℕ) (s s2 : Server) (line : Text) (msg : Message)
      → t.done ≡ false
      → t.line ≡ some line
      → unmarshal line ≡ some msg
      → handle_message marshal handlers t.write_fails k msg
          (with_connection k (seen t.now (s.connection k)) s)
        ≡ some s2
      → turn unmarshal marshal handlers t k s ≡ some (s2, text_eq msg.type_ log_stream)
  unfolding turn
  turn-message t k s s2 line msg d r u e = rw (d, turn) (rw r (rw u (rw e refl)))

  pub turn_lem :
      Supervised status handlers
      → (t : Turn) (k : ℕ) (id : Text) (s : Server) → Replies t
      → IsServed k id s
      → Turned k id t s
  unfolding turn with_connection seen
  turn_lem all t k id s replies h = elim (Bool-cases t.done) [
    | inl d ↦ record {
      after = s;
      again = false;
      runs = rw (d, turn) refl;
      served = h;
      last = λ e. refl;
    }
    | inr d ↦ elim (Option-cases t.line) [
      | inl r ↦ record {
        after = s;
        again = false;
        runs = rw (d, turn) (rw r refl);
        served = h;
        last = λ e. refl;
      }
      | inr (line, r) ↦ elim (Option-cases (unmarshal line)) [
        | inl u ↦ record {
          after = s;
          again = true;
          runs = rw (d, turn) (rw r (rw u refl));
          served = h;
          last = skipped_turn t line d r u;
        }
        | inr (msg, u) ↦
            let s1 : Server = with_connection k (seen t.now (s.connection k)) s in
            let h1 : IsServed k id s1 = record {
              owned = h.owned;
              named = ground (arith, h.named);
            } in
            let done =
              handle_message-IsServed all t.write_fails k id msg s1
                (Replies-Answers all t line msg replies r u) h1 in
            record {
              after = done.0;
              again = text_eq msg.type_ log_stream;
              runs = turn-message t k s done.0 line msg d r u done.1;
              served = done.2;
              last = last_turn t line msg d r u;
            }
      ]
    ]
  ]
