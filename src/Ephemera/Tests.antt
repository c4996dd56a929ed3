-- ===== src/Ephemera/Tests.antt =====
-- Ephemeral messages on concrete input.
use samod.Prelude.{ℕ, String, ◌≡◌, refl, List, [], ◌∷◌, arith}
use samod.Prelude.Map.{get, insert, get-empty}
use samod.Messages.{EphemeralMessage}
use samod.Ephemera.{new, receive_message}
use samod.Ephemera.Echo.{accepted, Rising, accepted-Rising}
use samod.Ephemera.Delivery.{sent, accepted-sent, InStep}

abbrev msg : String → ℕ → EphemeralMessage
msg session count = record {
  sender_id = "bob";
  session_id = session;
  count = count;
  content = 1 ∷ [];
}

abbrev looped : List EphemeralMessage
looped = msg "s" 1 ∷ msg "t" 4 ∷ msg "s" 1 ∷ msg "s" 3 ∷ msg "t" 2 ∷ msg "s" 2 ∷ []

looped-accepted : accepted (new "mine") looped ≡ msg "s" 1 ∷ msg "t" 4 ∷ msg "s" 3 ∷ []
unfolding accepted receive_message get insert
looped-accepted = refl

accepted-Rising_example : Rising (accepted (new "mine") looped)
accepted-Rising_example = accepted-Rising (new "mine") looped

new-InStep : InStep (new "theirs") (new "mine")
new-InStep c h = cc (get-empty {K = String} {V = ℕ} "theirs")

accepted-sent_example :
    accepted (new "mine") (sent "bob" (new "theirs") ((1 ∷ []) ∷ (2 ∷ []) ∷ []))
    ≡ sent "bob" (new "theirs") ((1 ∷ []) ∷ (2 ∷ []) ∷ [])
accepted-sent_example =
    accepted-sent ((1 ∷ []) ∷ (2 ∷ []) ∷ []) "bob" (new "theirs") (new "mine") new-InStep
      (omega arith)
