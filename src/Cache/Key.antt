-- ===== src/Cache/Key.antt =====
-- model_api_server/src/litertlm_slot.rs: the key of the prefix cache. The hash function is a
-- parameter.
pub mod Injective
use chitin_model_api.Prelude.Lists.{length}
use chitin_model_api.Prelude.Result.{Result, ok, err}
use chitin_model_api.Prelude.Tests.{ltb, if◌then◌else◌}
use chitin_model_api.Prelude.Text.{Bytes, codes, u32_to_le_bytes}
use chitin_model_api.Prelude.{ℕ, ◌/◌, ◌%◌, ◌-◌, ◌^◌, List, [], ◌∷◌, ◌++◌, Option, none, some}
use chitin_model_api.Proto.{
  Role, system, user, assistant, tool, Turn, InferenceInput, text, turns, pcm, mel, user_turn, F32,
}

-- The bits of 0.95 and 0.8 as `f32`.
abbrev pub default_top_p : F32
default_top_p = 0x3f733333

abbrev pub default_temperature : F32
default_temperature = 0x3f4ccccd

unfoldable pub role_byte : Role → ℕ
role_byte system = 0
role_byte user = 1
role_byte assistant = 2
role_byte tool = 3

-- `u32::try_from(len).unwrap_or(u32::MAX)`.
unfoldable pub clamp_u32 : ℕ → ℕ
clamp_u32 n = if ltb n (2 ^ 32) then n else 2 ^ 32 - 1

-- A length and the bytes that it counts.
unfoldable pub counted : Bytes → Bytes
unfolding clamp_u32
counted b = u32_to_le_bytes (clamp_u32 (length b)) ++ b

id_bytes : Option Bytes → Bytes
id_bytes none = []
id_bytes (some id) = counted id

unfoldable pub turn_bytes : Turn → Bytes
unfolding role_byte counted id_bytes
turn_bytes t = role_byte t.role ∷ (counted t.content ++ id_bytes t.tool_call_id)

unfoldable pub turns_bytes : List Turn → Bytes
unfolding turn_bytes
turns_bytes [] = []
turns_bytes (t ∷ ts) = turn_bytes t ++ turns_bytes ts

unfoldable pub system_bytes : Option Bytes → Bytes
system_bytes none = []
system_bytes (some s) = s

-- The literals hold NUL bytes.
abbrev sys_mark : Bytes
sys_mark = codes "sys" ++ (0 ∷ [])

abbrev pub sampler_mark : Bytes
sampler_mark = 0 ∷ (codes "sampler" ++ (0 ∷ []))

abbrev pub turns_mark : Bytes
turns_mark = 0 ∷ (codes "turns" ++ (0 ∷ []))

unfoldable pub canonical_prefix_bytes : Option Bytes → F32 → F32 → List Turn → Bytes
unfolding turns_bytes system_bytes
canonical_prefix_bytes system_prompt top_p temperature ts =
    sys_mark
    ++ (system_bytes system_prompt
        ++ (sampler_mark
            ++ (u32_to_le_bytes top_p
                ++ (u32_to_le_bytes temperature ++ (turns_mark ++ turns_bytes ts)))))

-- The upper 64 of the 128 bits.
unfoldable pub hash_prefix : (Bytes → ℕ) → Option Bytes → F32 → F32 → List Turn → ℕ
hash_prefix xxh3_128 system_prompt top_p temperature ts =
    xxh3_128 (canonical_prefix_bytes system_prompt top_p temperature ts) / 2 ^ 64 % 2 ^ 64

unfoldable pub input_to_turns : InferenceInput → Result Bytes (List Turn)
input_to_turns (text s) = ok (user_turn s ∷ [])
input_to_turns (turns ts) = ok ts
input_to_turns (pcm _ _) = err (codes "audio inputs not supported on litert-lm backend")
input_to_turns (mel _ _) = err (codes "audio inputs not supported on litert-lm backend")

-- User and tool turns are sent; the model regenerates the others.
unfoldable pub sendable_contents : List Turn → List Bytes
sendable_contents [] = []
sendable_contents (t ∷ ts) =
    let rest = sendable_contents ts in
    elim t.role [
      | user ↦ t.content ∷ rest
      | tool ↦ t.content ∷ rest
      | system ↦ rest
      | assistant ↦ rest
    ]
