-- ===== src/Proto/Ports.antt =====
-- The port numbers of core/proto/portnums.pb.go, and other enumeration values.
use meshtastic_go.Common.{ℕ}

abbrev pub unknown_app : ℕ
unknown_app = 0

abbrev pub text_message_app : ℕ
text_message_app = 1

abbrev pub position_app : ℕ
position_app = 3

abbrev pub nodeinfo_app : ℕ
nodeinfo_app = 4

abbrev pub routing_app : ℕ
routing_app = 5

abbrev pub admin_app : ℕ
admin_app = 6

abbrev pub waypoint_app : ℕ
waypoint_app = 8

abbrev pub mesh_beacon_app : ℕ
mesh_beacon_app = 37

abbrev pub telemetry_app : ℕ
telemetry_app = 67

abbrev pub traceroute_app : ℕ
traceroute_app = 70

abbrev pub neighborinfo_app : ℕ
neighborinfo_app = 71

abbrev pub map_report_app : ℕ
map_report_app = 73
