-- ===== src/Hub/Listener.antt =====
-- A listener and its connections: samod-core/src/actors/hub/listener.rs.
use samod.Prelude.{String, List, [], nat_eq}
use samod.Prelude.Lists.{set_insert, set_remove}
use samod.Network.{ConnectionId, ListenerId}

pub record ListenerState : Type 0 where
  pub listener_id : ListenerId
  pub url : String
  pub active_connections : List ConnectionId

abbrev pub new : ListenerId → String → ListenerState
new listener_id url = record { listener_id = listener_id; url = url; active_connections = [] }

abbrev pub add_connection : ConnectionId → ListenerState → ListenerState
add_connection connection_id l = record l {
  active_connections = set_insert connection_id l.active_connections;
}

abbrev pub remove_connection : ConnectionId → ListenerState → ListenerState
remove_connection connection_id l = record l {
  active_connections = set_remove connection_id l.active_connections;
}
