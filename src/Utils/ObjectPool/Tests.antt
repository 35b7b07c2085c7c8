-- ===== src/Utils/ObjectPool/Tests.antt =====
-- A pool of at most three items in blocks of two.
use api_pack.Utils.ObjectPool.{Item, ObjectPool, construct, create}

abbrev pool : ObjectPool
pool = construct 2 3 1

abbrev first : Item
first = record { block = 0; index = 0 }

-- Two items are handed out, of which the first one comes back.
abbrev second : Item
second = record { block = 0; index = 1 }

abbrev two_used : ObjectPool
two_used = (create (create pool).0).0
