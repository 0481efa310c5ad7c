-- ===== src/Device/Node/Identity.antt =====
-- What New accepts.
use meshtastic_go.Common.{
  ◌≤◌, ◌<◌, ◌≡◌, refl, ap, ◌∙◌, ◌≢◌, inl, inr, Bool, true, false, not, ◌&&◌, Option, none, some,
  List, [], ◌∷◌, arith, ltb, ◌==◌, if◌then◌else◌, Bool-cases, length,
}
use meshtastic_go.Crypto.Keys.{public_key_size}
use meshtastic_go.Device.Node.{
  Config, Validated, valid, identity_mismatch, refused, identified, with_channels, validate,
  max_hops,
}
use meshtastic_go.NodeId.{matches_public_key}
use meshtastic_go.Proto.{ChannelSettings}

-- A configuration that peers can verify: an id, a key that derives it if there is one, and a hop
-- limit from 1 to 7.
abbrev pub IsSound : Config → Type 0
IsSound cfg =
    (cfg.node_id ≢ 0)
    × (0 < length cfg.public_key → matches_public_key cfg.node_id cfg.public_key ≡ true)
    × (0 < cfg.default_hop_limit)
    × (cfg.default_hop_limit ≤ max_hops)

-- What a result promises: a configuration that is let through is sound.
abbrev pub IfValid : Validated → Type 0
IfValid (valid cfg) = IsSound cfg
IfValid identity_mismatch = Unit
IfValid refused = Unit

with_channels-IfValid :
    (cfg : Config) (o : Option (List ChannelSettings))
    → cfg.node_id ≢ 0
    → (0 < length cfg.public_key → matches_public_key cfg.node_id cfg.public_key ≡ true)
    → IfValid (with_channels cfg o)
with_channels-IfValid cfg none n k = tt
with_channels-IfValid cfg (some []) n k = tt
with_channels-IfValid cfg (some (s ∷ l)) n k = (n, k, ground arith, ground arith)

if-IfValid :
    (t : Bool) (x y : Validated)
    → (t ≡ true → IfValid x)
    → (t ≡ false → IfValid y)
    → IfValid (if t then x else y)
if-IfValid true x y p q = p refl
if-IfValid false x y p q = q refl

identified-key : (cfg : Config) → (identified cfg).public_key ≡ cfg.public_key
identified-key cfg =
    elim (Bool-cases (cfg.node_id == 0 && length cfg.public_key == public_key_size)) [
      | inl e ↦ rw e refl
      | inr e ↦ rw e refl
    ]

-- A configuration that validation lets through has a node id, a public key that derives this id
-- where it has a key at all, and a hop limit from 1 to 7.
validate-IfValid : (cfg : Config) → IfValid (validate cfg)
unfolding validate
validate-IfValid cfg =
    let id = (identified cfg).node_id in
    if-IfValid (not cfg.has_transport) _ _ (λ e. tt)
      (λ e.
        if-IfValid (ltb 0 (length cfg.public_key) && not (length cfg.public_key == public_key_size))
          _ _ (λ e. tt)
          (λ e.
            if-IfValid (id == 0) _ _ (λ e. tt)
              (λ some_id.
                if-IfValid
                  (ltb 0 (length cfg.public_key) && not (matches_public_key id cfg.public_key)) _ _
                  (λ e. tt)
                  (λ matches.
                    with_channels-IfValid (identified cfg) cfg.channels (ground arith) (λ long.
                      ap (matches_public_key id) (identified-key cfg)
                      ∙ ground (arith, identified-key cfg))))))
