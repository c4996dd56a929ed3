-- ===== src/Storage/Tests.antt =====
-- Storage keys on concrete input.
use samod.Prelude.{◌≡◌, ◌↔◌, some, [], ◌∷◌}
use samod.Prelude.Lists.{All}
use samod.Prelude.Result.{ok}
use samod.Storage.{StorageKey, onelevel_deeper, from_parts, snapshot_prefix, snapshot_path}
use samod.Storage.Keys.{Deeper, onelevel_deeper_iff, IsValid, from_parts_iff}

abbrev snapshot : StorageKey
snapshot = snapshot_path "doc" "aa"

onelevel_deeper_iff_example :
    (onelevel_deeper snapshot ("doc" ∷ []) ≡ some (snapshot_prefix "doc"))
    ↔ Deeper snapshot ("doc" ∷ []) (snapshot_prefix "doc")
onelevel_deeper_iff_example = onelevel_deeper_iff snapshot ("doc" ∷ []) (snapshot_prefix "doc")

from_parts_iff_example :
    (from_parts snapshot ≡ ok snapshot) ↔ ((snapshot ≡ snapshot) × All IsValid snapshot)
from_parts_iff_example = from_parts_iff snapshot snapshot
