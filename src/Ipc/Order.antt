-- ===== src/Ipc/Order.antt =====
-- internal/ipc/server.go: what is left in a channel when nobody receives from it.
use tmidb_core.Base.{
  ℕ, zero, suc, ◌≤◌, ◌≡◌, refl, ap, ◌∙◌, sym, true, List, [], ◌∷◌, ◌++◌, Option, none, some, length,
  length-append, append-nil, append-append_one, take, ltb, arith, Bool-cases, inl, inr,
}
use tmidb_core.Ipc.{LogEntry, Channel, Streams}
use tmidb_core.Ipc.Stream.{buffer_size, offer, broadcast_log_entry}
use tmidb_core.Ipc.Owned.{registered, IsOwned}
use tmidb_core.Ipc.Leak.{broadcast_log_entry-Keeps}
use tmidb_core.Ipc.Broadcast.{broadcast_log_entry_lem, Sent}

-- A run of broadcasts; `none` is a panic.
unfoldable pub broadcast_all : List LogEntry → Streams → Option Streams
broadcast_all [] s = some s
broadcast_all (entry ∷ entries) s = elim (broadcast_log_entry entry s) [
  | none ↦ none
  | some t ↦ broadcast_all entries t
]

take-take_append :
    {A : Type 0} (n : ℕ) (xs zs : List A) → take n (take n xs ++ zs) ≡ take n (xs ++ zs)
take-take_append zero xs zs = refl
take-take_append (suc n) [] zs = refl
take-take_append (suc n) (x ∷ xs) zs = ap (◌∷◌ x) (take-take_append n xs zs)

take-take_one :
    {A : Type 0} (n : ℕ) (xs : List A) (y : A) (zs : List A)
    → take n (take n (xs ++ y ∷ []) ++ zs) ≡ take n (xs ++ y ∷ zs)
take-take_one n xs y zs =
    take-take_append n (xs ++ y ∷ []) zs ∙ ap (take n) (append-append_one xs y zs)

take_all : {A : Type 0} (n : ℕ) (xs : List A) → length xs ≤ n → take n xs ≡ xs
take_all zero [] h = refl
take_all zero (x ∷ xs) h = absurd (omega arith)
take_all (suc n) [] h = refl
take_all (suc n) (x ∷ xs) h = ap (◌∷◌ x) (take_all n xs (omega arith))

take_full : {A : Type 0} (n : ℕ) (xs ys : List A) → length xs ≡ n → take n (xs ++ ys) ≡ xs
take_full zero [] ys h = refl
take_full zero (x ∷ xs) ys h = absurd (omega arith)
take_full (suc n) [] ys h = absurd (omega arith)
take_full (suc n) (x ∷ xs) ys h = ap (◌∷◌ x) (take_full n xs ys (omega arith))

offer-buffer :
    (entry : LogEntry) (ch : Channel)
    → length ch.buffer ≤ buffer_size
    → (offer entry ch).buffer ≡ take buffer_size (ch.buffer ++ entry ∷ [])
unfolding offer
offer-buffer entry ch h = elim (Bool-cases (ltb (length ch.buffer) buffer_size)) [
  | inl e ↦
      rw (e, offer)
        (sym (
          take_all buffer_size (ch.buffer ++ entry ∷ [])
            (ground (arith, length-append ch.buffer (entry ∷ [])))))
  | inr e ↦ rw (e, offer) (sym (take_full buffer_size ch.buffer (entry ∷ []) (ground arith)))
]

length-take_le : {A : Type 0} (n : ℕ) (xs : List A) → length (take n xs) ≤ n
length-take_le zero xs = omega arith
length-take_le (suc n) [] = omega arith
length-take_le (suc n) (x ∷ xs) = omega (arith, length-take_le n xs)

-- A registered channel after one broadcast.
registered-buffer :
    (entry : LogEntry) (c : ℕ) (s t : Streams)
    → registered c s.log_streams ≡ true
    → length (s.channel c).buffer ≤ buffer_size
    → Sent entry s t
    → (t.channel c).buffer ≡ take buffer_size ((s.channel c).buffer ++ entry ∷ [])
registered-buffer entry c s t r h sent =
    ap (λ ch. ch.buffer) (sent.channels c) ∙ rw r (offer-buffer entry (s.channel c) h)

-- With the streams in order: any number of broadcasts runs without a panic and without waiting for a
-- reader. A registered channel that nobody receives from then holds what it held and the entries in
-- their order, up to the first 1000; the later ones are lost.
pub broadcast_all_lem :
    (entries : List LogEntry) (c : ℕ) (s : Streams)
    → IsOwned s
    → registered c s.log_streams ≡ true
    → length (s.channel c).buffer ≤ buffer_size
    → (t : Streams) × (broadcast_all entries s ≡ some t)
      × ((t.channel c).buffer ≡ take buffer_size ((s.channel c).buffer ++ entries))
unfolding broadcast_all
broadcast_all_lem [] c s o r h = (
  s,
  refl,
  sym (rw (append-nil (s.channel c).buffer) (take_all buffer_size (s.channel c).buffer h)),
)
broadcast_all_lem (entry ∷ entries) c s o r h =
    let sent = broadcast_log_entry_lem entry s o in
    let now = registered-buffer entry c s sent.0 r h sent.2 in
    let owned = (broadcast_log_entry-Keeps entry s sent.0 o sent.1).owned in
    let full = length-take_le buffer_size ((s.channel c).buffer ++ entry ∷ []) in
    let rest = broadcast_all_lem entries c sent.0 owned (rw (sent.2.table) r) (rw now full) in
    (
      rest.0,
      rw (sent.1, broadcast_all) (rest.1),
      rest.2
          ∙ ap (λ b. take buffer_size (b ++ entries)) now
          ∙ take-take_one buffer_size (s.channel c).buffer entry entries,
    )
