-- ===== src/Device/Node/Options.antt =====
-- device/node/send.go: the options of a send.
use meshtastic_go.Common.{ℕ, ◌-◌, Bool, true, false, Option, none, some, List, [], ◌∷◌, Bytes}
use meshtastic_go.Channel.{ChannelDef}

abbrev pub max_data_payload : ℕ
max_data_payload = 233 - 1

abbrev pub max_neighbors_per_packet : ℕ
max_neighbors_per_packet = 10

-- The options after applySendOptions; `channel_def` is `none` for nil.
pub record SendOptions : Type 0 where
  pub reply_id : ℕ
  pub emoji : ℕ
  pub want_ack : Bool
  pub want_response : Bool
  pub request_id : ℕ
  pub use_pki : Bool
  pub channel : Bytes
  pub channel_def : Option ChannelDef

abbrev pub SendOption : Type 0
SendOption = SendOptions → SendOptions

abbrev pub no_options : SendOptions
no_options = record {
  reply_id = 0;
  emoji = 0;
  want_ack = false;
  want_response = false;
  request_id = 0;
  use_pki = false;
  channel = [];
  channel_def = none;
}

-- WithReplyID, WithEmoji, WithWantAck, WithPKI, WithChannel, WithChannelDef, WithWantResponse and
-- WithRequestID
abbrev pub with_reply_id : ℕ → SendOption
with_reply_id id o = record o { reply_id = id }

abbrev pub with_emoji : ℕ → SendOption
with_emoji codepoint o = record o { emoji = codepoint }

abbrev pub with_want_ack : SendOption
with_want_ack o = record o { want_ack = true }

abbrev pub with_pki : SendOption
with_pki o = record o { use_pki = true }

abbrev pub with_channel : Bytes → SendOption
with_channel name o = record o { channel = name }

abbrev pub with_channel_def : ChannelDef → SendOption
with_channel_def ch o = record o { channel_def = some ch }

abbrev pub with_want_response : SendOption
with_want_response o = record o { want_response = true }

abbrev pub with_request_id : ℕ → SendOption
with_request_id id o = record o { request_id = id }

unfoldable pub apply_from : List SendOption → SendOptions → SendOptions
apply_from [] o = o
apply_from (fn ∷ fns) o = apply_from fns (fn o)

abbrev pub apply_send_options : List SendOption → SendOptions
apply_send_options opts = apply_from opts no_options
