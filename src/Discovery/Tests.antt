-- ===== src/Discovery/Tests.antt =====
-- The cache with one controller.
use omm.Prelude.{[]}
use omm.Prelude.Int.{pos}
use omm.Discovery.{Announcement, Cache}

abbrev barn : Announcement
barn = record {
  home_id = "home-a";
  name = "Barn";
  controller_id = "c1";
  api = "http://10.0.0.2";
  node_id = "n1";
}

abbrev cache : Cache
cache = record { entries = []; ttl = pos 30 }
