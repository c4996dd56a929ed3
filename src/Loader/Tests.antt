-- ===== src/Loader/Tests.antt =====
-- Repositories that are loaded from concrete storages.
use Prim.Native.Char.{code}
use Prim.Native.String.{[] as empty, ◌∷◌ as cons}
use samod.Prelude.{
  ℕ, String, Option, none, some, [], ◌∷◌, ◌≡◌, refl, ◌==◌, nat_eq, list_eq, if◌then◌else◌,
}
use samod.Network.{Bytes}
use samod.Hub.State.{State}
use samod.Runtime.Storage.Memory.{in_memory, in_memory-IsLawful}
use samod.Loader.{Draws, new}
use samod.Loader.Boot.{load_hub, load_hub-again}

-- Texts of ASCII, and the one of them that is read.
abbrev to_bytes : String → Bytes
to_bytes empty = []
to_bytes (cons c text) = code c ∷ to_bytes text

abbrev from_bytes : Bytes → Option String
from_bytes bytes = if bytes == 55 ∷ [] then some "7" else none

abbrev draw : String → ℕ → Draws
draw id turn = record {
  task_id = turn;
  storage_id = id;
  session_id = "session";
  counters = record { connection = 0; dialer = 0; listener = 0; actor = 0 };
}

load_hub-again_example :
    (hub : State) × ((s' : in_memory.Contents) × ((hub' : State) × (load_hub from_bytes to_bytes
            in_memory 3
            (draw "7")
            (new "alice")
            []
            []
          ≡ some (hub, s'))
        × (load_hub from_bytes to_bytes in_memory 3 (draw "8") (new "alice") [] s'
            ≡ some (hub', s'))
        × (hub'.storage_id ≡ hub.storage_id)))
load_hub-again_example =
    load_hub-again from_bytes to_bytes in_memory 0 (draw "7") (draw "8") "alice" []
      in_memory-IsLawful refl
