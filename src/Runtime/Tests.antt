-- ===== src/Runtime/Tests.antt =====
-- A mailbox on concrete input.
use samod.Prelude.{String, some, List, [], ◌∷◌, ◌≡◌, refl, nat_eq, string_eq, pair_eq}
use samod.Prelude.Map.{get, insert}
use samod.Network.{DocumentId, PeerId}
use samod.Share.{ShareConfig, publish, share_all}
use samod.Messages.{update_share_policy}
use samod.Runtime.Task.{handle_message, answer}
use samod.Runtime.Policies.{
  Subscription, event_of, set_peers, check, handle_event as handle_policy_event,
}
use samod.Runtime.Policies.Calls.{Op, peers_changed, asked, yielded, step, run, fresh}
use samod.Runtime.Mailbox.{
  Step, World, at_loop, handling, idle, dispatch, run_turn, dispatches, runs,
}
use samod.Runtime.Mailbox.Fifo.{Reaches, begins, goes, IsSound, QueueStep, queue, Reaches-Fifo}

-- One task is dispatched, taken by the runner, and another one is dispatched meanwhile.
abbrev one : World String
one = dispatch "load" (idle String)

abbrev taken : World String
taken = run_turn [] (at_loop 64) [] one

abbrev two : World String
two = dispatch "tick" taken

abbrev handled : World String
handled = run_turn [] (handling "load" 63) [] two

two-Reaches : Reaches two
unfolding dispatch run_turn
two-Reaches =
    goes taken two
      (goes one taken (goes (idle String) one begins (dispatches "load"))
        (runs [] (at_loop 64) [] refl))
      (dispatches "tick")

handling_load : Step two handled
unfolding dispatch run_turn
handling_load = runs [] (handling "load" 63) [] refl

Reaches-Fifo_example : IsSound two × QueueStep two handled handling_load
Reaches-Fifo_example = Reaches-Fifo two handled two-Reaches handling_load

handled_test : queue handled ≡ ("tick" ∷ [], "load" ∷ [])
unfolding dispatch run_turn
handled_test = refl

abbrev shares : DocumentId → PeerId → List ShareConfig
shares document_id peer_id = publish ∷ publish ∷ share_all ∷ []

-- A peer's sharing is asked for twice, decided, decided again as before, and changed.
abbrev talk : List Op
talk =
    peers_changed 3 ("bob" ∷ [])
    ∷ asked 3 5 "bob" 10
    ∷ asked 3 5 "bob" 11
    ∷ yielded (event_of 3 "bob" 10 (some publish))
    ∷ yielded (event_of 3 "bob" 10 (some publish))
    ∷ yielded (event_of 3 "bob" 9 (some publish))
    ∷ yielded (event_of 3 "bob" 10 (some share_all))
    ∷ []

abbrev settled : Subscription
settled = record { id = 10; latest = some share_all; waiting = [] }

talk_test :
    (run shares talk (fresh String)).log
    ≡ ((3, "bob"), handle_message (update_share_policy "bob" share_all))
      ∷ ((3, "bob"), answer 11 publish)
      ∷ ((3, "bob"), answer 10 publish)
      ∷ []
unfolding run step set_peers check handle_policy_event get insert
talk_test = refl
