-- ===== src/Channel/Examples.antt =====
-- The channel registry at concrete inputs.
use meshtastic_go.Common.{◌≡◌, refl, ◌&&◌, some, [], ◌∷◌, if◌then◌else◌, bytes_eq, text}
use meshtastic_go.Common.Dict.{lookup, insert, delete}
use meshtastic_go.Crypto.Keys.{default_key, expand_short_psk}
use meshtastic_go.Channel.{
  ChannelDef, new_channel_registry, channel_def, register, lookup_pair, resolve_by_name, ambiguous,
}
use meshtastic_go.Channel.Indexed.{IsIndexed, new_channel_registry-IsIndexed, register-IsIndexed}
use meshtastic_go.Channel.Pairs.{lookup_pair-register}

abbrev long_fast : ChannelDef
unfolding channel_def
long_fast = channel_def (record { name = text "LongFast"; key = default_key })

abbrev long_fast_2 : ChannelDef
unfolding channel_def expand_short_psk
long_fast_2 = channel_def (record { name = text "LongFast"; key = expand_short_psk (2 ∷ []) })

register-IsIndexed_example : IsIndexed (register long_fast new_channel_registry)
unfolding channel_def
register-IsIndexed_example =
    register-IsIndexed long_fast new_channel_registry new_channel_registry-IsIndexed refl

lookup_pair-register_example :
    lookup_pair (text "LongFast") (1 ∷ []) (register long_fast new_channel_registry) ≡ (
      if bytes_eq long_fast.name (text "LongFast")
        && bytes_eq long_fast.key_bytes (expand_short_psk (1 ∷ []))
      then some long_fast
      else lookup_pair (text "LongFast") (1 ∷ []) new_channel_registry)
unfolding channel_def
lookup_pair-register_example =
    lookup_pair-register (text "LongFast") (1 ∷ []) long_fast new_channel_registry
      new_channel_registry-IsIndexed refl

two_of_a_name :
    resolve_by_name
      (text "LongFast")
      (register long_fast_2 (register long_fast new_channel_registry))
    ≡ ambiguous
unfolding resolve_by_name register new_channel_registry lookup insert delete bytes_eq
    expand_short_psk channel_def
two_of_a_name = refl
