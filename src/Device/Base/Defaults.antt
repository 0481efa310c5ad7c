-- ===== src/Device/Base/Defaults.antt =====
-- The defaults of an outgoing packet.
use meshtastic_go.Common.{
  ℕ, ◌≤◌, ◌<◌, ◌≡◌, refl, Bool, Option, none, some, arith, ◌==◌, if◌then◌else◌,
}
use meshtastic_go.Device.Base.{apply_packet_defaults, or_now}
use meshtastic_go.Device.Config.{BaseConfig}
use meshtastic_go.Lora.{get_priority}
use meshtastic_go.Proto.{MeshPacket, Data}

-- Every priority is one of the seven that the library uses, never unset.
pub get_priority-positive : (d : Option Data) (ack : Bool) → 64 ≤ get_priority d ack
unfolding get_priority
get_priority-positive none ack = ground arith
get_priority-positive (some d) ack = ground arith

-- `if x == 0 then y else x`, once and twice.
or_twice :
    (x y : ℕ)
    → (if (if x == 0 then y else x) == 0 then y else (if x == 0 then y else x))
      ≡ (if x == 0 then y else x)
or_twice x y = ground arith

now_twice : (unix later : ℕ) (o : Option ℕ) → or_now later (or_now unix o) ≡ or_now unix o
now_twice unix later none = refl
now_twice unix later (some t) = refl

-- The defaults that were filled in once stay: applying them again, at any time, changes nothing.
defaults_once :
    (b : BaseConfig) (unix later : ℕ) (p : MeshPacket)
    → apply_packet_defaults b later (apply_packet_defaults b unix p)
      ≡ apply_packet_defaults b unix p
unfolding apply_packet_defaults
defaults_once b unix later p = simp (or_twice, now_twice unix later p.rx_time) refl

-- With a default limit from 1 to 7 and a packet that asks for at most 7, the packet that is sent
-- has at least one hop, at most seven, and a start of its own that is not zero.
defaults-hops :
    (b : BaseConfig) (unix : ℕ) (p : MeshPacket)
    → 0 < b.hop_limit
    → b.hop_limit ≤ 7
    → p.hop_limit ≤ 7
    → (0 < (apply_packet_defaults b unix p).hop_limit)
      × ((apply_packet_defaults b unix p).hop_limit ≤ 7)
      × (0 < (apply_packet_defaults b unix p).hop_start)
unfolding apply_packet_defaults
defaults-hops b unix p h k l = (ground arith, ground arith, ground arith)
