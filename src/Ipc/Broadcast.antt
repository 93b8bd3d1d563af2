-- ===== src/Ipc/Broadcast.antt =====
-- internal/ipc/server.go: what a broadcast puts into the channels.
use tmidb_core.Base.{ℕ, ◌≡◌, refl, true, false, List, [], ◌∷◌, some, Text, if◌then◌else◌, arith}
use tmidb_core.Ipc.{LogEntry, Channel, Streams}
use tmidb_core.Ipc.Stream.{offer, send, write_channel, broadcast, broadcast_log_entry, tail}
use tmidb_core.Ipc.Owned.{registered, Single, IsOwned}

-- The channels after a broadcast, one by one: an independent description of the loop.
abbrev pub offered : LogEntry → List (Text × ℕ) → (ℕ → Channel) → ℕ → Channel
offered entry m channels c = if registered c m then offer entry (channels c) else channels c

AllOpen : List (Text × ℕ) → (ℕ → Channel) → Type 0
AllOpen m channels = (c : ℕ) → registered c m ≡ true → (channels c).closed ≡ false

pub send-open :
    (entry : LogEntry) (c : ℕ) (channels : ℕ → Channel)
    → (channels c).closed ≡ false
    → send entry c channels ≡ some (write_channel c (offer entry (channels c)) channels)
unfolding send
send-open entry c channels h = rw h refl

closed-offer : (entry : LogEntry) (ch : Channel) → (offer entry ch).closed ≡ ch.closed
unfolding offer
closed-offer entry ch = ground arith

broadcast_lem :
    (entry : LogEntry) (m : List (Text × ℕ)) (channels : ℕ → Channel)
    → Single m
    → AllOpen m channels
    → (after : ℕ → Channel) × (broadcast entry m channels ≡ some after)
      × ((c : ℕ) → after c ≡ offered entry m channels c)
unfolding broadcast registered AllOpen
broadcast_lem entry [] channels all open_ = (channels, refl, λ c. refl)
broadcast_lem entry ((id, d) ∷ m) channels all open_ =
    let now : (channels d).closed ≡ false = open_ d (ground arith) in
    let step : ℕ → Channel = write_channel d (offer entry (channels d)) channels in
    let sent : send entry d channels ≡ some step = send-open entry d channels now in
    let rest =
      broadcast_lem entry m step all.1
        (λ c r. ground (arith, open_ c, closed-offer entry (channels d))) in
    (rest.0, rw (sent, broadcast) rest.1, λ c. ground (arith, rest.2 c))

-- What a broadcast does: the entry is put at the end of each registered channel that has room, and
-- nothing else changes.
pub record Sent (entry : LogEntry) (s t : Streams) : Type 0 where
  pub table : t.log_streams ≡ s.log_streams
  pub made : t.made ≡ s.made
  pub channels : (c : ℕ) → t.channel c ≡ offered entry s.log_streams s.channel c

-- With the streams of a server in order, a broadcast never panics on a closed channel: it puts the
-- entry at the end of each registered channel that has room, once, and changes nothing else.
pub broadcast_log_entry_lem :
    (entry : LogEntry) (s : Streams)
    → IsOwned s
    → (t : Streams) × (broadcast_log_entry entry s ≡ some t) × Sent entry s t
unfolding broadcast_log_entry AllOpen
broadcast_log_entry_lem entry s o =
    let sent = broadcast_lem entry s.log_streams s.channel o.single o.opened in
    (
      record s { channel = sent.0 },
      rw (sent.1) refl,
      record { table = refl; made = refl; channels = sent.2 },
    )

pub closed-offered :
    (entry : LogEntry) (m : List (Text × ℕ)) (channels : ℕ → Channel) (c : ℕ)
    → (offered entry m channels c).closed ≡ (channels c).closed
closed-offered entry m channels c = ground (arith, closed-offer entry (channels c))

-- A goroutine that tails a file does not panic while its channel is open.
pub tail-open :
    (c : ℕ) (entry : LogEntry) (s : Streams)
    → (s.channel c).closed ≡ false
    → (t : Streams) × (tail c entry s ≡ some t)
      × (t.log_streams ≡ s.log_streams)
      × (t.made ≡ s.made)
      × ((d : ℕ) → (t.channel d).closed ≡ (s.channel d).closed)
unfolding tail
tail-open c entry s h = (
  record s { channel = write_channel c (offer entry (s.channel c)) s.channel },
  rw (send-open entry c s.channel h) refl,
  refl,
  refl,
  λ d. ground (arith, closed-offer entry (s.channel c)),
)
