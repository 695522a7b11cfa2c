-- ===== src/Templates/Prompt.antt =====
-- chitin_llama/src/prompt.rs: which template wraps a prompt. llama.cpp's model is a parameter; what an
-- error displays for debugging is its text.
use chitin_model_api.Lenient.Serde.{Serde}
use chitin_model_api.Lenient.Trim.{contains}
use chitin_model_api.Prelude.Result.{Result, ok, err, ◌>>=◌, map_err}
use chitin_model_api.Prelude.Tests.{if◌then◌else◌}
use chitin_model_api.Prelude.Text.{Bytes, codes, is_empty}
use chitin_model_api.Prelude.{Bool, true, List, [], ◌∷◌, ◌++◌, Option, none, some}
use chitin_model_api.Proto.{ToolDef}
use chitin_model_api.Templates.Jinja.{ChatMsg, MiniJinja, msg_system, msg_user, render_chat}
use chitin_model_api.Templates.{build_gemma4_chat}

pub record LlamaModel : Type 1 where
  pub LlamaChatTemplate : Type 0
  pub LlamaChatMessage : Type 0
  pub chat_template : Result Bytes LlamaChatTemplate
  pub to_str : LlamaChatTemplate → Option Bytes
  pub new_message : Bytes → Bytes → Result Bytes LlamaChatMessage
  pub apply_chat_template : LlamaChatTemplate → List LlamaChatMessage → Bool → Result Bytes Bytes

-- `collect` into a result: the first error, or all of them.
collected : (model : LlamaModel) → List ChatMsg → Result Bytes (List model.LlamaChatMessage)
collected model [] = ok []
collected model (m ∷ ms) =
    model.new_message m.role m.content >>= λ x. collected model ms >>= λ xs. ok (x ∷ xs)

unfoldable pub build_chat_prompt : LlamaModel → List ChatMsg → Bool → Result Bytes Bytes
unfolding collected
build_chat_prompt model messages add_assistant_prefix =
    map_err (λ e. codes "chat_template: " ++ e) model.chat_template >>= λ template.
    map_err (λ e. codes "LlamaChatMessage::new: " ++ e) (collected model messages) >>= λ chat.
    map_err (λ e. codes "apply_chat_template: " ++ e)
      (model.apply_chat_template template chat add_assistant_prefix)

abbrev pub two_turns : Option Bytes → Bytes → List ChatMsg
two_turns none user_text = msg_user user_text ∷ []
two_turns (some sys) user_text = msg_system sys ∷ msg_user user_text ∷ []

-- The text of the model file's template, if it has one that is text and holds Gemma 4's mark.
unfoldable pub gemma4_template : LlamaModel → Option Bytes
unfolding contains
gemma4_template model = elim model.chat_template [
  | err e ↦ none
  | ok tmpl ↦ elim (model.to_str tmpl) [
    | none ↦ none
    | some s ↦ if contains (codes "<|turn>") s then some s else none
  ]
]

module _ (serde : Serde) (array : List serde.Value → serde.Value) where
  unfoldable pub build_simple_chat :
      MiniJinja serde.Value → LlamaModel → Option Bytes → Bytes → List ToolDef → Result Bytes Bytes
  unfolding build_chat_prompt gemma4_template build_gemma4_chat render_chat is_empty
  build_simple_chat jinja model system_prompt user_text tools = elim (gemma4_template model) [
    | none ↦ build_chat_prompt model (two_turns system_prompt user_text) true
    | some s ↦
        if is_empty tools
        then ok (build_gemma4_chat system_prompt user_text)
        else render_chat serde array jinja s (two_turns system_prompt user_text) tools true true
  ]
