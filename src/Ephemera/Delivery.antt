-- ===== src/Ephemera/Delivery.antt =====
-- What one peer sends reaches the others: `next_message_session_details` and `receive_message` of
-- samod-core/src/ephemera/ephemeral_session.rs.
use text.Mathlib.TextEquality.{eq_iff}
use samod.Prelude.{
  ap, ℕ, ◌+◌, ◌≤◌, ◌<◌, ◌^◌, ◌≡◌, refl, inl, inr, some, List, [], ◌∷◌, arith, string_eq,
}
use samod.Prelude.Lists.{length}
use samod.Prelude.Map.{get, get-insert}
use samod.Network.{PeerId, Bytes}
use samod.Messages.{EphemeralMessage}
use samod.Ephemera.{EphemeralSession, next_message_session_details, accept}
use samod.Ephemera.Echo.{accepted, receive_message_cases}

-- The messages that a peer sends with the given contents, tagged as `broadcast` tags them.
unfoldable pub sent : PeerId → EphemeralSession → List Bytes → List EphemeralMessage
sent sender s [] = []
sent sender s (content ∷ rest) =
    let (s', details) = next_message_session_details s in
    record {
      sender_id = sender;
      session_id = details.session_id;
      count = details.counter;
      content = content;
    }
    ∷ sent sender s' rest

-- The receiver has seen nothing of the session beyond the sender's counter.
abbrev pub InStep : EphemeralSession → EphemeralSession → Type 0
InStep sender receiver =
    (c : ℕ) → get sender.session_id receiver.session_counts ≡ some c → c ≤ sender.counter

-- If the receiver has seen nothing of the session beyond the sender's counter, all that the sender
-- then sends gets through when delivered in order, as long as its counter does not wrap.
pub accepted-sent :
    (contents : List Bytes) (peer : PeerId) (sender receiver : EphemeralSession)
    → InStep sender receiver
    → sender.counter + length contents < 2 ^ 64
    → accepted receiver (sent peer sender contents) ≡ sent peer sender contents
unfolding accepted sent next_message_session_details
accepted-sent [] peer sender receiver step room = refl
accepted-sent (content ∷ rest) peer sender receiver step room =
    elim (receive_message_cases receiver m) [
      | inl (new, e) ↦ rw e (
          ap (λ ms. m ∷ ms)
            (accepted-sent rest peer sender' (accept receiver m).0 step' (omega (arith, more))))
      | inr (c, known, old, e) ↦ absurd (omega (arith, step c known, more))
    ]
  where
    sender' : EphemeralSession
    sender' = (next_message_session_details sender).0

    m : EphemeralMessage
    m = record {
      sender_id = peer;
      session_id = sender.session_id;
      count = sender'.counter;
      content = content;
    }

    more : sender'.counter ≡ sender.counter + 1
    more = omega arith

    step' : InStep sender' (accept receiver m).0
    step' c h = ground (
      arith,
      get-insert sender.session_id sender.session_id m.count receiver.session_counts,
      eq_iff sender.session_id sender.session_id,
    )
