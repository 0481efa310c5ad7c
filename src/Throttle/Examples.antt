-- ===== src/Throttle/Examples.antt =====
-- The throttle at concrete inputs.
use meshtastic_go.Common.{ℕ, ◌+◌, ◌*◌, ◌≤◌, refl, [], ◌∷◌, arith}
use meshtastic_go.Common.Dict.{lookup, insert}
use meshtastic_go.Proto.{telemetry_app}
use meshtastic_go.Throttle.{key_eq, new_request_throttle, cooldown_for_portnum, can_respond}
use meshtastic_go.Throttle.Spacing.{Call, run, replies_spaced}

abbrev at_seconds : ℕ → ℕ → Call
at_seconds s node = record {
  since = s * 1_000_000_000;
  now = s * 1_000_000_000;
  node_id = node;
  portnum = telemetry_app;
}

replies_spaced_example :
    10 * 1_000_000_000 + cooldown_for_portnum telemetry_app ≤ 200 * 1_000_000_000
unfolding can_respond lookup insert cooldown_for_portnum run
replies_spaced_example =
    replies_spaced (at_seconds 10 5) (at_seconds 200 5) (at_seconds 20 6 ∷ at_seconds 30 5 ∷ [])
      new_request_throttle refl refl (omega arith) refl (omega arith) refl
