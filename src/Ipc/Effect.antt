-- ===== src/Ipc/Effect.antt =====
-- internal/ipc/server.go: what a turn of the loop can change of the server.
use tmidb_core.Base.{
  ℕ, ◌≡◌, ◌∙◌, subst, refl, Bool, List, Option, none, some, Text, Bool-cases, Option-cases, inl,
  inr,
}
use tmidb_core.Base.Dict.{lookup}
use tmidb_core.Ipc.{Message, Response, Streams, Connection, Server}
use tmidb_core.Ipc.Stream.{Handled, HandlerFunc}
use tmidb_core.Ipc.Table.{with_streams}
use tmidb_core.Ipc.Serve.{Turn, seen, with_connection, send_response, handle_message, turn}

-- Nothing but the streams and the connections' own fields.
pub record SameTable (s r : Server) : Type 0 where
  pub connections : r.connections ≡ s.connections
  pub accepted : r.accepted ≡ s.accepted
  pub serving : r.serving ≡ s.serving

module _ {D : Type 0} (handlers : List (Text × HandlerFunc D)) where
  -- Where the streams after a turn come from.
  pub data Source (s r : Streams) : Type 0 where
    untouched : r ≡ s → Source s r
    by_handler :
        (conn : Connection) (msg : Message) (handler : HandlerFunc D) (h : Handled D)
        → lookup msg.type_ handlers ≡ some handler
        → handler conn msg s ≡ some h
        → r ≡ h.streams
        → Source s r

  pub record Effect (s r : Server) : Type 0 where
    pub same : SameTable s r
    pub source : Source s.streams r.streams

module _ {D : Type 0} (marshal : Response D → Option Text) where
  send_response-same :
      (fails : Bool) (k : ℕ) (r : Response D) (s : Server)
      → SameTable s (send_response marshal fails k r s)
        × ((send_response marshal fails k r s).streams ≡ s.streams)
  unfolding send_response with_connection
  send_response-same fails k r s = elim (Option-cases (marshal r)) [
    | inl e ↦
        rw (e, send_response) (record { connections = refl; accepted = refl; serving = refl }, refl)
    | inr (line, e) ↦ elim (Bool-cases fails) [
      | inl f ↦
          rw (e, send_response)
            (rw f (record { connections = refl; accepted = refl; serving = refl }, refl))
      | inr f ↦
          rw (e, send_response)
            (rw f (record { connections = refl; accepted = refl; serving = refl }, refl))
    ]
  ]

  -- A response is sent after the streams are as the handler left them.
  respond-Effect :
      (handlers : List (Text × HandlerFunc D)) (fails : Bool) (k : ℕ) (r : Response D)
      (s s2 : Server)
      → Effect handlers s s2
      → Effect handlers s (send_response marshal fails k r s2)
  respond-Effect handlers fails k r s s2 eff =
      let same = send_response-same fails k r s2 in
      record {
        same = record {
          connections = same.0.connections ∙ eff.same.connections;
          accepted = same.0.accepted ∙ eff.same.accepted;
          serving = same.0.serving ∙ eff.same.serving;
        };
        source = rw (same.1) eff.source;
      }

  reached :
      (handlers : List (Text × HandlerFunc D)) (s x r : Server)
      → some x ≡ some r
      → Effect handlers s x
      → Effect handlers s r
  reached handlers s x r h eff = let e : x ≡ r = cc in subst (Effect handlers s) e eff

  untouched-Effect : (handlers : List (Text × HandlerFunc D)) (s : Server) → Effect handlers s s
  untouched-Effect handlers s = record {
    same = record { connections = refl; accepted = refl; serving = refl };
    source = untouched refl;
  }

  handle_message-Effect :
      (handlers : List (Text × HandlerFunc D)) (fails : Bool) (k : ℕ) (msg : Message) (s r : Server)
      → handle_message marshal handlers fails k msg s ≡ some r
      → Effect handlers s r
  unfolding handle_message
  handle_message-Effect handlers fails k msg s r h =
      elim (Option-cases (lookup msg.type_ handlers)) [
        | inl e ↦
            reached handlers s _ r (rw (e, handle_message) at h)
              (respond-Effect handlers fails k _ s s (untouched-Effect handlers s))
        | inr (handler, e) ↦ elim (Option-cases (handler (s.connection k) msg s.streams)) [
          | inl panics ↦ absurd (
              let h2 = rw (e, handle_message) at h in
              let h3 : none ≡ some r = rw panics at h2 in cc)
          | inr (done, runs) ↦
              let h2 = rw (e, handle_message) at h in
              let h3 = rw runs at h2 in
              let eff : Effect handlers s (with_streams done.streams s) = record {
                same = record { connections = refl; accepted = refl; serving = refl };
                source = by_handler (s.connection k) msg handler done e runs refl;
              } in
              elim (Option-cases done.response) [
                | inl nil ↦ reached handlers s _ r (rw nil at h3) eff
                | inr (response, found) ↦
                    reached handlers s _ r (rw found at h3)
                      (respond-Effect handlers fails k response s _ eff)
              ]
        ]
      ]

module _ {D : Type 0} (unmarshal : Text → Option Message) (marshal : Response D → Option Text)
    (handlers : List (Text × HandlerFunc D)) where
  came_to :
      (s r : Server) (b again : Bool)
      → ◌≡◌ {A = Option (Server × Bool)} (some (s, b)) (some (r, again))
      → s ≡ r
  came_to s r b again h = cc

  unmoved :
      (s r : Server) (b again : Bool)
      → ◌≡◌ {A = Option (Server × Bool)} (some (s, b)) (some (r, again))
      → Effect handlers s r
  unmoved s r b again h =
      subst (Effect handlers s) (came_to s r b again h) (untouched-Effect marshal handlers s)

  seen_first :
      (now k : ℕ) (s r : Server)
      → Effect handlers (with_connection k (seen now (s.connection k)) s) r
      → Effect handlers s r
  unfolding with_connection
  seen_first now k s r eff = record {
    same = record {
      connections = eff.same.connections;
      accepted = eff.same.accepted;
      serving = eff.same.serving;
    };
    source = eff.source;
  }

  -- A turn changes no table but the streams', and those as one of the handlers does.
  pub turn-Effect :
      (t : Turn) (k : ℕ) (s r : Server) (again : Bool)
      → turn unmarshal marshal handlers t k s ≡ some (r, again)
      → Effect handlers s r
  unfolding turn with_connection
  turn-Effect t k s r again h = elim (Bool-cases t.done) [
    | inl d ↦ unmoved s r _ again (rw (d, turn) at h)
    | inr d ↦
        let h1 = rw (d, turn) at h in
        elim (Option-cases t.line) [
          | inl e ↦ unmoved s r _ again (rw e at h1)
          | inr (line, e) ↦
              let h2 = rw e at h1 in
              elim (Option-cases (unmarshal line)) [
                | inl u ↦ unmoved s r _ again (rw u at h2)
                | inr (msg, u) ↦
                    let h3 = rw u at h2 in
                    let s1 = with_connection k (seen t.now (s.connection k)) s in
                    elim (Option-cases (handle_message marshal handlers t.write_fails k msg s1)) [
                      | inl panics ↦ absurd (let h4 = rw panics at h3 in cc)
                      | inr (s2, m) ↦
                          let e2 = came_to s2 r _ again (rw m at h3) in
                          let eff =
                            handle_message-Effect marshal handlers t.write_fails k msg s1 s2 m in
                          subst (Effect handlers s) e2 (seen_first t.now k s s2 eff)
                    ]
              ]
        ]
  ]
