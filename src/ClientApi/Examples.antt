-- ===== src/ClientApi/Examples.antt =====
-- The server of clients at concrete inputs.
use meshtastic_go.Common.{
  ◌<◌, ◌≡◌, refl, ◌⊎◌, true, false, some, List, [], ◌∷◌, get_elem?, take, replicate, All, text,
}
use meshtastic_go.Channel.{ChannelDef, channel_def}
use meshtastic_go.ClientApi.{ServerConfig, max_channels, channel_index_for, channel_table}
use meshtastic_go.ClientApi.Subscribers.{
  subscribe, unsubscribe, writes, dispatch, ServerMove, server_moves, dispatched, IsServedFrom,
  server_moves-IsServedFrom,
}
use meshtastic_go.ClientApi.Table.{is_listed, points_to, channel_index_for-points}
use meshtastic_go.Common.Dict.{lookup}
use meshtastic_go.Fixtures.{test_db}
use meshtastic_go.NodeDb.{NodeDb, channel_of}
use meshtastic_go.Proto.{radio_rebooted}

abbrev lodge : ChannelDef
unfolding channel_def
lodge = channel_def (record { name = text "Lodge"; key = replicate 16 2 })

abbrev server : ServerConfig
server = record {
  node_id = 9;
  channels =
      record { name = text "Main"; psk = 1 ∷ []; position_precision = 0 }
      ∷ record { name = text "Lodge"; psk = replicate 16 2; position_precision = 0 }
      ∷ [];
  node_info_broadcast_secs = 900;
}

abbrev db : NodeDb
db = record test_db { channels = (7, lodge) ∷ [] }

heard_on : channel_of 7 db ≡ some lodge
unfolding channel_of lookup
heard_on = refl

channel_index_for-points_example :
    let i = channel_index_for server db 7 in
    (i < max_channels)
    × (((is_listed lodge (take max_channels server.channels) ≡ true)
          × (points_to lodge (get_elem? (channel_table server) i) ≡ true))
        ⊎ ((is_listed lodge (take max_channels server.channels) ≡ false) × (i ≡ 0)))
channel_index_for-points_example = channel_index_for-points server db 7 lodge heard_on

abbrev moves : List ServerMove
moves =
    subscribe 1
    ∷ dispatch (radio_rebooted true)
    ∷ subscribe 2
    ∷ writes 1
    ∷ dispatch (radio_rebooted false)
    ∷ unsubscribe 2
    ∷ []

server_moves-IsServedFrom_example : All (IsServedFrom (dispatched moves)) (server_moves moves [])
server_moves-IsServedFrom_example = server_moves-IsServedFrom moves
