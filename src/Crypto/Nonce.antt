-- ===== src/Crypto/Nonce.antt =====
-- core/crypto/aes.go: CreateNonce
use meshtastic_go.Common.{ℕ, ◌++◌, ◌==◌, if◌then◌else◌, take, replicate, Bytes}
use meshtastic_go.Common.Endian.{le_bytes}

-- The extra nonce, if there is one, takes the place of the upper half of the packet id.
unfoldable pub create_nonce : ℕ → ℕ → ℕ → Bytes
create_nonce packet_id from_node extra_nonce =
    let id = le_bytes 8 packet_id in
    let head = if extra_nonce == 0 then id else take 4 id ++ le_bytes 4 extra_nonce in
    head ++ (le_bytes 4 from_node ++ replicate 4 0)
