-- ===== src/Spike/Tests.antt =====
-- The packet of the experiment.
use war3_battle_tool.Spike.Packet.{Ipv4Addr}

abbrev source : Ipv4Addr
source = record { a = 192; b = 168; c = 1; d = 100 }

abbrev localhost : Ipv4Addr
localhost = record { a = 127; b = 0; c = 0; d = 1 }
