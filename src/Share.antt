-- ===== src/Share.antt =====
-- Sharing decisions: samod-core/src/share_config.rs.
use samod.Prelude.{◌≡◌, Bool, true, false, ◌&&◌, not, arith, KeyEq, ◌↔◌}

pub data ShareAccess : Type 0 where
  denied read_only read_write : ShareAccess

pub record ShareConfig : Type 0 where
  pub access : ShareAccess
  pub announce : Bool

abbrev pub can_read : ShareConfig → Bool
can_read c = elim c.access [ denied ↦ false | _ ↦ true ]

abbrev pub can_write : ShareConfig → Bool
can_write c = elim c.access [ read_write ↦ true | _ ↦ false ]

abbrev pub can_request : ShareConfig → Bool
can_request c = can_write c && c.announce

-- The constructors `none()`, `read_only()` and `read_write()`.
abbrev pub deny : ShareConfig
deny = record { access = denied; announce = false }

abbrev pub publish : ShareConfig
publish = record { access = read_only; announce = true }

abbrev pub share_all : ShareConfig
share_all = record { access = read_write; announce = true }

abbrev pub with_announce : ShareConfig → Bool → ShareConfig
with_announce c announce = record c { announce = announce }

abbrev access_beq : ShareAccess → ShareAccess → Bool
access_beq denied denied = true
access_beq read_only read_only = true
access_beq read_write read_write = true
access_beq _ _ = false

abbrev bool_beq : Bool → Bool → Bool
bool_beq true b = b
bool_beq false b = not b

abbrev config_beq : ShareConfig → ShareConfig → Bool
config_beq c d = access_beq c.access d.access && bool_beq c.announce d.announce

pub config_beq_iff : (c d : ShareConfig) → (config_beq c d ≡ true) ↔ (c ≡ d)
config_beq_iff c d = ground arith

instance abbrev pub config_eq : KeyEq ShareConfig
config_eq = record { same = config_beq; same_iff = config_beq_iff }
