-- ===== src/Templates.antt =====
-- Chat templates: gemma_utils/src/chat_format.rs, model_api_server/src/turn_render.rs and the
-- hand-rolled wrap of chitin_llama/src/prompt.rs.
pub mod Rendering
pub mod Jinja
pub mod Prompt
use chitin_model_api.Prelude.Tests.{if◌then◌else◌}
use chitin_model_api.Prelude.Text.{Bytes, codes, is_empty}
use chitin_model_api.Prelude.{Bool, true, false, not, ◌&&◌, List, [], ◌∷◌, ◌++◌, Option, none, some}
use chitin_model_api.Proto.{Role, system, user, assistant, tool, Turn}

-- A line feed.
abbrev pub lf : Bytes
lf = 10 ∷ []

pub record ChatFormat : Type 0 where
  pub format_system : Bytes → Bytes
  pub format_user : Bytes → Bytes
  pub format_assistant : Bytes → Bytes
  pub format_assistant_start : Bytes

unfoldable pub format_turn : ChatFormat → Bytes → Bytes → Bytes
format_turn fmt u a = fmt.format_user u ++ fmt.format_assistant a

-- A head line, the content and an end mark.
wrap : Bytes → Bytes → Bytes → Bytes
wrap head end c = head ++ (lf ++ (c ++ (end ++ lf)))

unfoldable pub chatml_format : ChatFormat
unfolding wrap
chatml_format = record {
  format_system = wrap (codes "<|im_start|>system") (codes "<|im_end|>");
  format_user = wrap (codes "<|im_start|>user") (codes "<|im_end|>");
  format_assistant = wrap (codes "<|im_start|>assistant") (codes "<|im_end|>");
  format_assistant_start = codes "<|im_start|>assistant" ++ lf;
}

unfoldable pub raw_format : ChatFormat
raw_format = record {
  format_system = λ c. c ++ (lf ++ lf);
  format_user = λ c. codes "User: " ++ (c ++ (lf ++ lf));
  format_assistant = λ c. codes "Assistant: " ++ (c ++ (lf ++ lf));
  format_assistant_start = codes "Assistant:";
}

unfoldable pub gemma4_format : ChatFormat
unfolding wrap
gemma4_format = record {
  format_system = wrap (codes "<|turn>system") (codes "<turn|>");
  format_user = wrap (codes "<|turn>user") (codes "<turn|>");
  format_assistant = wrap (codes "<|turn>model") (codes "<turn|>");
  format_assistant_start = codes "<|turn>model" ++ lf;
}

unfoldable pub already_has_system : List Turn → Bool
already_has_system [] = false
already_has_system (t ∷ ts) = elim t.role [ system ↦ true | _ ↦ false ]

unfoldable pub render_turn : ChatFormat → Turn → Bytes
render_turn fmt t = elim t.role [
  | system ↦ fmt.format_system t.content
  | user ↦ fmt.format_user t.content
  | assistant ↦ fmt.format_assistant t.content
  | tool ↦ fmt.format_user t.content
]

unfoldable pub render_each : ChatFormat → List Turn → Bytes
unfolding render_turn
render_each fmt [] = []
render_each fmt (t ∷ ts) = render_turn fmt t ++ render_each fmt ts

-- The system prompt, unless there is none, it is empty, or the turns open with one.
unfoldable pub system_part : ChatFormat → List Turn → Option Bytes → Bytes
unfolding already_has_system
system_part fmt ts none = []
system_part fmt ts (some sys) =
    if not (already_has_system ts) && not (is_empty sys) then fmt.format_system sys else []

unfoldable pub render_turns : ChatFormat → List Turn → Option Bytes → Bytes
unfolding render_each system_part
render_turns fmt ts system_prompt =
    system_part fmt ts system_prompt ++ (render_each fmt ts ++ fmt.format_assistant_start)

gemma4_system : Option Bytes → Bytes
gemma4_system none = []
gemma4_system (some sys) =
    if not (is_empty sys)
    then codes "<|turn>system" ++ (lf ++ (sys ++ (codes "<turn|>" ++ lf)))
    else []

unfoldable pub build_gemma4_chat : Option Bytes → Bytes → Bytes
unfolding gemma4_system
build_gemma4_chat system_prompt user_text =
    gemma4_system system_prompt
    ++ (codes "<|turn>user"
        ++ (lf ++ (user_text ++ (codes "<turn|>" ++ (lf ++ (codes "<|turn>model" ++ lf))))))
