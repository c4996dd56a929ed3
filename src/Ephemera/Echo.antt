-- ===== src/Ephemera/Echo.antt =====
-- No message echoes: `receive_message` of samod-core/src/ephemera/ephemeral_session.rs.
use text.Mathlib.TextEquality.{eq_iff}
use samod.Prelude.{
  sym, ℕ, ◌≤◌, ◌<◌, ◌≡◌, ◌⊎◌, inl, inr, Option, none, some, List, [], ◌∷◌, arith, ltb, ◌==◌,
  string_eq, Bool-cases, Option-cases, if◌then◌else◌,
}
use samod.Prelude.Lists.{All}
use samod.Prelude.Map.{get, get-insert}
use samod.Messages.{EphemeralMessage}
use samod.Ephemera.{EphemeralSession, receive_message, accept}

abbrev pub keep : Option EphemeralMessage → List EphemeralMessage → List EphemeralMessage
keep none ms = ms
keep (some m) ms = m ∷ ms

-- What gets through of a sequence of messages.
unfoldable pub accepted : EphemeralSession → List EphemeralMessage → List EphemeralMessage
accepted s [] = []
accepted s (m ∷ ms) = keep (receive_message s m).1 (accepted (receive_message s m).0 ms)

-- Newer than all that the session has seen.
abbrev Above : EphemeralSession → EphemeralMessage → Type 0
Above s m = (c : ℕ) → get m.session_id s.session_counts ≡ some c → c < m.count

-- A message that gets through is new, and is recorded; a message that does not changes nothing.
pub receive_message_cases :
    (s : EphemeralSession) (m : EphemeralMessage)
    → (Above s m × (receive_message s m ≡ accept s m))
      ⊎ ((c : ℕ) × (get m.session_id s.session_counts ≡ some c)
          × (m.count ≤ c)
          × (receive_message s m ≡ (s, none)))
unfolding receive_message
receive_message_cases s m = elim (Option-cases (get m.session_id s.session_counts)) [
  | inl e ↦ inl ((λ c h. cc), rw (e, receive_message))
  | inr (c, e) ↦ elim (Bool-cases (ltb c m.count)) [
    | inl h ↦ inl ((λ d x. ground (arith, e)), ground (arith, e))
    | inr h ↦ inr (c, e, ground arith, ground (arith, e))
  ]
]

recorded :
    (s : EphemeralSession) (m n : EphemeralMessage)
    → get n.session_id (accept s m).0.session_counts
      ≡ (if m.session_id == n.session_id then some m.count else get n.session_id s.session_counts)
recorded s m n = get-insert m.session_id n.session_id m.count s.session_counts

newer_than_accepted :
    (s : EphemeralSession) (m n : EphemeralMessage)
    → Above (accept s m).0 n
    → n.session_id ≡ m.session_id
    → m.count < n.count
newer_than_accepted s m n above e =
    above m.count (ground (arith, recorded s m n, eq_iff m.session_id n.session_id))

-- Messages that are above the counts recorded later were above the earlier ones, too.
Above-accept :
    (s : EphemeralSession) (m n : EphemeralMessage) → Above s m → Above (accept s m).0 n → Above s n
Above-accept s m n new above c h = elim (Bool-cases (m.session_id == n.session_id)) [
  | inl e ↦
      let same : m.session_id ≡ n.session_id = (eq_iff m.session_id n.session_id).0 e in
      omega (arith, new c (rw same h), newer_than_accepted s m n above (sym same))
  | inr e ↦ above c (rw (recorded s m n, e) h)
]

All-Above :
    (s : EphemeralSession) (m : EphemeralMessage) (ns : List EphemeralMessage)
    → Above s m
    → All (Above (accept s m).0) ns
    → All (Above s) ns × All (λ n. n.session_id ≡ m.session_id → m.count < n.count) ns
All-Above s m [] new h = (tt, tt)
All-Above s m (n ∷ ns) new h =
    let (above, newer) = All-Above s m ns new h.1 in
    ((Above-accept s m n new h.0, above), (newer_than_accepted s m n h.0, newer))

-- Of two messages of one session, the later has the larger count.
abbrev pub Rising : List EphemeralMessage → Type 0
Rising [] = Unit
Rising (m ∷ ms) = All (λ n. n.session_id ≡ m.session_id → m.count < n.count) ms × Rising ms

accepted_lem :
    (ms : List EphemeralMessage) (s : EphemeralSession)
    → All (Above s) (accepted s ms) × Rising (accepted s ms)
unfolding accepted
accepted_lem [] s = (tt, tt)
accepted_lem (m ∷ ms) s = elim (receive_message_cases s m) [
  | inl (new, e) ↦ rw e (
      let (above, rising) = accepted_lem ms (accept s m).0 in
      let (above', newer) = All-Above s m (accepted (accept s m).0 ms) new above in
      ((new, above'), (newer, rising)))
  | inr (c, known, old, e) ↦ rw e (accepted_lem ms s)
]

-- Whatever arrives and in whatever order, the messages that get through have, session by session,
-- rising counts: none gets through twice, and none after a newer one of its session.
pub accepted-Rising : (s : EphemeralSession) (ms : List EphemeralMessage) → Rising (accepted s ms)
accepted-Rising s ms = (accepted_lem ms s).1
