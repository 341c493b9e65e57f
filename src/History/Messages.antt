-- ===== src/History/Messages.antt =====
-- Messages and their estimated size (agent/src/core/history-tokens.ts).
--
-- A message is its role and the two texts that agent/src/core/message.ts makes of it: `text`, what
-- `messageText` returns, and `transcript`, what `messageTranscript` returns.
use codeberg.Text.{Text}
use codeberg.Base.{ℕ, ◌+◌, ◌/◌, List, [], ◌∷◌, length}

pub data Role : Type 0 where
  system user assistant tool : Role

pub record ModelMessage : Type 0 where
  pub role : Role
  pub text : Text
  pub transcript : Text

-- `Math.ceil(text.length / 4)`.
unfoldable pub estimate_tokens : Text → ℕ
estimate_tokens text = (length text + 3) / 4

unfoldable pub message_tokens : ModelMessage → ℕ
message_tokens message = estimate_tokens message.transcript

unfoldable pub total_tokens : List ModelMessage → ℕ
total_tokens [] = 0
total_tokens (message ∷ rest) = message_tokens message + total_tokens rest
