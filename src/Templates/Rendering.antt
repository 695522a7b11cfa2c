-- ===== src/Templates/Rendering.antt =====
-- The templates of model_api_server/src/turn_render.rs and chitin_llama/src/prompt.rs: how prompts relate.
use chitin_model_api.Prelude.Text.{Bytes}
use chitin_model_api.Prelude.{
  ◌≡◌, refl, sym, ap, ◌∙◌, List, [], ◌∷◌, ◌++◌, Option, none, some, append_assoc,
}
use chitin_model_api.Proto.{Turn, user_turn}
use chitin_model_api.Templates.{
  ChatFormat, gemma4_format, render_turn, render_each, system_part, render_turns, build_gemma4_chat,
}

-- The hand-rolled wrap of one user text is the rendering of one user turn under Gemma 4's format.
pub build_gemma4_chat-render_turns :
    (system_prompt : Option Bytes) (user_text : Bytes)
    → build_gemma4_chat system_prompt user_text
      ≡ render_turns gemma4_format (user_turn user_text ∷ []) system_prompt
unfolding build_gemma4_chat render_turns gemma4_format
build_gemma4_chat-render_turns none user_text = simp (append_assoc)
build_gemma4_chat-render_turns (some []) user_text = simp (append_assoc)
build_gemma4_chat-render_turns (some (c ∷ sys)) user_text = simp (append_assoc)

render_each-append :
    (fmt : ChatFormat) (ts us : List Turn)
    → render_each fmt (ts ++ us) ≡ render_each fmt ts ++ render_each fmt us
unfolding render_each
render_each-append fmt [] us = refl
render_each-append fmt (t ∷ ts) us =
    ap (λ r. render_turn fmt t ++ r) (render_each-append fmt ts us)
    ∙ sym (append_assoc (render_turn fmt t) (render_each fmt ts) (render_each fmt us))

system_part-append :
    (fmt : ChatFormat) (t : Turn) (ts us : List Turn) (system_prompt : Option Bytes)
    → system_part fmt (t ∷ (ts ++ us)) system_prompt ≡ system_part fmt (t ∷ ts) system_prompt
unfolding system_part
system_part-append fmt t ts us none = refl
system_part-append fmt t ts us (some sys) = refl

-- The prompt of a conversation that goes on starts like the prompt before, up to the opening of the
-- assistant's turn: `ts` are the first turns, at least one, and `us` the further ones.
pub render_turns-append :
    (fmt : ChatFormat) (t : Turn) (ts us : List Turn) (system_prompt : Option Bytes)
    → (front : Bytes) × (render_turns fmt (t ∷ ts) system_prompt
        ≡ front ++ fmt.format_assistant_start)
      × (render_turns fmt ((t ∷ ts) ++ us) system_prompt
          ≡ front ++ (render_each fmt us ++ fmt.format_assistant_start))
unfolding render_turns
render_turns-append fmt t ts us system_prompt =
    let head = system_part fmt (t ∷ ts) system_prompt in
    let turns = render_each fmt (t ∷ ts) in
    (
      head ++ turns,
      sym (append_assoc head turns fmt.format_assistant_start),
      ap (λ h. h ++ (render_each fmt ((t ∷ ts) ++ us) ++ fmt.format_assistant_start))
            (system_part-append fmt t ts us system_prompt)
          ∙ ap (λ r. head ++ (r ++ fmt.format_assistant_start)) (render_each-append fmt (t ∷ ts) us)
          ∙ ap (λ r. head ++ r) (append_assoc turns (render_each fmt us) fmt.format_assistant_start)
          ∙ sym (append_assoc head turns (render_each fmt us ++ fmt.format_assistant_start)),
    )
