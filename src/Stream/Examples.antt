-- ===== src/Stream/Examples.antt =====
-- Frames at concrete inputs.
use meshtastic_go.Common.{◌≡◌, refl, none, some, [], ◌∷◌, arith, text}
use meshtastic_go.Stream.{write_bytes}
use meshtastic_go.Stream.RoundTrip.{after_noise, read_bytes-write_bytes, stray_start-loses}

read_bytes-write_bytes_example :
    after_noise (0xc3 ∷ 0xc3 ∷ []) (write_bytes (text "hello")) (1 ∷ [])
    ≡ some (text "hello", 1 ∷ [])
read_bytes-write_bytes_example =
    read_bytes-write_bytes (0xc3 ∷ 0xc3 ∷ []) (text "hello") (1 ∷ []) (refl, (refl, tt))
      (omega arith)

stray_start-loses_example : after_noise (0x94 ∷ []) (write_bytes (text "hello")) [] ≡ none
stray_start-loses_example =
    stray_start-loses (text "hello") (refl, (refl, (refl, (refl, (refl, tt))))) (omega arith)
      (omega arith)
