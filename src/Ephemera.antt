-- ===== src/Ephemera.antt =====
-- Ephemeral messages and the sessions that keep them from echoing:
-- samod-core/src/ephemera/ephemeral_session.rs.
pub mod Echo
pub mod Delivery
mod Tests
use samod.Prelude.{
  ℕ, ◌+◌, ◌%◌, ◌^◌, String, Bool, Option, none, some, [], ltb, if◌then◌else◌, string_eq,
}
use samod.Prelude.Map.{Map, get, insert}
use samod.Messages.{EphemeralMessage}

pub record EphemeralSession : Type 0 where
  pub counter : ℕ
  pub session_id : String
  pub session_counts : Map String ℕ

pub record OutgoingSessionDetails : Type 0 where
  pub counter : ℕ
  pub session_id : String

-- `EphemeralSession::new` with the session that the generator draws.
abbrev pub new : String → EphemeralSession
new session_id = record { counter = 0; session_id = session_id; session_counts = [] }

-- The counter is a `u64`.
unfoldable pub next_message_session_details :
    EphemeralSession → EphemeralSession × OutgoingSessionDetails
next_message_session_details s =
    let next = (s.counter + 1) % 2 ^ 64 in
    (record s { counter = next }, record { counter = next; session_id = s.session_id })

abbrev accept : EphemeralSession → EphemeralMessage → EphemeralSession × Option EphemeralMessage
accept s msg =
    (record s { session_counts = insert msg.session_id msg.count s.session_counts }, some msg)

unfoldable pub receive_message :
    EphemeralSession → EphemeralMessage → EphemeralSession × Option EphemeralMessage
receive_message s msg = elim (get msg.session_id s.session_counts) [
  | some current ↦ if ltb current msg.count then accept s msg else (s, none)
  | none ↦ accept s msg
]
