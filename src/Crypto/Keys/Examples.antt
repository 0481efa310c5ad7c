-- ===== src/Crypto/Keys/Examples.antt =====
-- Keys at concrete inputs.
use meshtastic_go.Common.{◌≡◌, refl, [], ◌∷◌, arith, if◌then◌else◌, bytes_eq, text}
use meshtastic_go.Crypto.Keys.{default_key, expand_short_psk, try_compact_key, channel_hash}
use meshtastic_go.Crypto.Keys.Laws.{expand-compact, index_zero_key}

expand-compact_example :
    expand_short_psk (try_compact_key index_zero_key)
    ≡ (if bytes_eq index_zero_key index_zero_key then [] else index_zero_key)
expand-compact_example = expand-compact index_zero_key (omega arith) (omega arith)

compact_of_index_zero : try_compact_key index_zero_key ≡ 0 ∷ []
unfolding try_compact_key bytes_eq
compact_of_index_zero = refl

-- The hash of the default channel of the firmware, "LongFast" with the default key.
long_fast_hash : channel_hash (text "LongFast") default_key ≡ 8
unfolding channel_hash
long_fast_hash = refl
