-- ===== src/RequestBudget/Estimate.antt =====
-- Messages of a request and their estimated size: agent/src/core/request-budget/estimate.ts.
--
-- Of a value that is estimated by its canonical JSON, that text is kept.
use codeberg.Base.{
  ℕ, ◌+◌, ◌*◌, ◌/◌, ◌||◌, if◌then◌else◌, Bool, true, false, Option, none, some, List, [], ◌∷◌, ◌++◌,
  length,
}
use codeberg.Text.{Text, codes, same_text, starts_with}
use codeberg.History.Messages.{estimate_tokens}

pub data Role : Type 0 where
  system user assistant tool : Role

abbrev pub same_role : Role → Role → Bool
same_role system system = true
same_role user user = true
same_role assistant assistant = true
same_role tool tool = true
same_role _ _ = false

pub data FileData : Type 0 where
  file_text base64 : Text → FileData
  file_bytes : ℕ → FileData
  elsewhere : FileData

pub record FilePart : Type 0 where
  pub contents : FileData
  pub media_type : Text

pub data OutputPart : Type 0 where
  output_text : Text → OutputPart
  output_file : FilePart → OutputPart
  output_other : Text → OutputPart

pub data Output : Type 0 where
  text_output json_output : Text → Output
  execution_denied : Option Text → Output
  content_output : List OutputPart → Output

pub data Part : Type 0 where
  text reasoning : Text → Part
  tool_call : Text → Text → Part
  tool_result : Text → Output → Part
  file : FilePart → Part
  custom : Text → Part

pub data Content : Type 0 where
  plain : Text → Content
  parts : List Part → Content

pub record Message : Type 0 where
  pub role : Role
  pub content : Content

-- The prompt, and the canonical text of tools, response format and tool choice.
pub record Request : Type 0 where
  pub prompt : List Message
  pub schemas : Text

abbrev pub is_textual : Text → Bool
is_textual media =
    same_text media (codes "text")
    || starts_with media (codes "text/")
    || starts_with media (codes "application/json")
    || starts_with media (codes "application/xml")
    || starts_with media (codes "application/javascript")

abbrev pub is_image : Text → Bool
is_image media = same_text media (codes "image") || starts_with media (codes "image/")

abbrev pub opaque_tokens : Text → ℕ
opaque_tokens media = if is_image media then 1500 else 4000

-- `Math.ceil(bytes / 4)`, with three quarters of a byte for each character of base 64.
unfoldable pub file_tokens : FileData → Text → ℕ
file_tokens (file_text content) media = estimate_tokens content
file_tokens (base64 content) media =
    if is_textual media then (length content * 3 + 15) / 16 else opaque_tokens media
file_tokens (file_bytes bytes) media =
    if is_textual media then (bytes + 3) / 4 else opaque_tokens media
file_tokens elsewhere media = opaque_tokens media

unfoldable pub output_part_tokens : OutputPart → ℕ
output_part_tokens (output_text t) = estimate_tokens t
output_part_tokens (output_file f) = file_tokens f.contents f.media_type
output_part_tokens (output_other json) = estimate_tokens json

unfoldable pub output_parts_tokens : List OutputPart → ℕ
output_parts_tokens [] = 0
output_parts_tokens (part ∷ rest) = output_part_tokens part + output_parts_tokens rest

unfoldable pub output_tokens : Output → ℕ
output_tokens (text_output t) = estimate_tokens t
output_tokens (json_output json) = estimate_tokens json
output_tokens (execution_denied none) = estimate_tokens (codes "denied")
output_tokens (execution_denied (some reason)) = estimate_tokens reason
output_tokens (content_output values) = output_parts_tokens values

unfoldable pub part_tokens : Part → ℕ
part_tokens (text t) = estimate_tokens t + 2
part_tokens (reasoning t) = estimate_tokens t + 2
part_tokens (tool_call name input) = estimate_tokens (name ++ input) + 8
part_tokens (tool_result name output) = output_tokens output + estimate_tokens name + 8
part_tokens (file f) = file_tokens f.contents f.media_type
part_tokens (custom json) = estimate_tokens json + 4

unfoldable pub parts_tokens : List Part → ℕ
parts_tokens [] = 8
parts_tokens (part ∷ rest) = part_tokens part + parts_tokens rest

unfoldable pub content_tokens : Content → ℕ
content_tokens (plain t) = estimate_tokens t + 8
content_tokens (parts ps) = parts_tokens ps

abbrev pub estimate_message : Message → ℕ
estimate_message message = content_tokens message.content

abbrev pub messages_tokens : List Message → ℕ
messages_tokens [] = 0
messages_tokens (message ∷ rest) = estimate_message message + messages_tokens rest

unfoldable pub estimate_request : Request → ℕ
estimate_request request = estimate_tokens request.schemas + messages_tokens request.prompt
