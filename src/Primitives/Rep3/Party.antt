-- ===== src/Primitives/Rep3/Party.antt =====
-- `PartyID` of mpc-core.
use gigadoram_rs.Base.{Bool, true, false}

pub data PartyId : Type 0 where
  id0 id1 id2 : PartyId

abbrev pub next : PartyId → PartyId
next id0 = id1
next id1 = id2
next id2 = id0

abbrev pub prev : PartyId → PartyId
prev id0 = id2
prev id1 = id0
prev id2 = id1

-- `==` on parties.
abbrev pub same_party : PartyId → PartyId → Bool
same_party id0 id0 = true
same_party id0 id1 = false
same_party id0 id2 = false
same_party id1 id0 = false
same_party id1 id1 = true
same_party id1 id2 = false
same_party id2 id0 = false
same_party id2 id1 = false
same_party id2 id2 = true
