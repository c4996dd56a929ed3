-- ===== src/Runtime/Policies/Current.antt =====
-- What the actors are told of the sharing decisions: samod/src/io_loop/share_policy.rs, over any
-- sequence of the loop's calls.
use samod.Prelude.{string_eq, pair_eq}
use samod.Share.{config_eq}
use samod.Runtime.Policies.{Policies}
