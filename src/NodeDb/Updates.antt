-- ===== src/NodeDb/Updates.antt =====
-- What an update of one node leaves of the others.
use meshtastic_go.Common.{ℕ, ◌%◌, ◌^◌, ◌≡◌, refl, Option, none, some, ◌==◌, if◌then◌else◌}
use meshtastic_go.Common.Dict.{nat_eq, lookup, lookup-insert}
use meshtastic_go.Proto.{NodeInfo}
use meshtastic_go.Channel.{ChannelDef}
use meshtastic_go.NodeDb.{NodeDb, or_new, update, get, set_channel}

abbrev stamped : ℕ → NodeInfo → NodeInfo
stamped now info = record info { last_heard = now % 2 ^ 32 }

-- The entry of a node after an update of a node.
pub get-update :
    (now n m : ℕ) (fn : NodeInfo → NodeInfo) (db : NodeDb)
    → get m (update now n fn db)
      ≡ (if n == m then some (stamped now (fn (or_new n (get n db)))) else get m db)
unfolding get update
get-update now n m fn db =
    lookup-insert n m (stamped now (fn (or_new n (lookup n db.nodes)))) db.nodes

pub get-set_channel :
    (n m : ℕ) (c : Option ChannelDef) (db : NodeDb) → get m (set_channel n c db) ≡ get m db
unfolding get set_channel
get-set_channel n m none db = refl
get-set_channel n m (some c) db = refl
