-- ===== src/Signaling/Verb.antt =====
-- src/server/signaling/player.cpp: namespace verb.
use pong_pp.Common.{ℕ, List, codes}

abbrev pub list : List ℕ
list = codes "LIST"

abbrev pub create : List ℕ
create = codes "CREATE"

abbrev pub join : List ℕ
join = codes "JOIN"

abbrev pub relay : List ℕ
relay = codes "RELAY"

abbrev pub rooms : List ℕ
rooms = codes "ROOMS"

abbrev pub created : List ℕ
created = codes "CREATED"

abbrev pub ready : List ℕ
ready = codes "READY"

abbrev pub peer_left : List ℕ
peer_left = codes "PEER_LEFT"

abbrev pub error : List ℕ
error = codes "ERROR"
