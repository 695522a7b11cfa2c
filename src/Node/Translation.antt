-- ===== src/Node/Translation.antt =====
-- Which requests of JavaScript the bindings accept, and what they make of them.
use chitin_model_api.Node.Types.{JsRequest}
use chitin_model_api.Node.{
  RequestError, role_of, tool_mode_of, json_mode_of, Napi, request_with, to_proto_request,
}
use chitin_model_api.Prelude.Result.{Result, ok, bind_succeeds}
use chitin_model_api.Prelude.Tests.{if◌then◌else◌, Bool-cases}
use chitin_model_api.Prelude.Text.{Bytes, codes, bytes_eq, bytes_eq_iff}
use chitin_model_api.Prelude.{◌≡◌, refl, ap, ◌∙◌, ◌↔◌, inl, inr, Option, none, some}
use chitin_model_api.Proto.{GpuRole, ToolMode, JsonMode, InferenceRequest}

-- The names that the bindings' doc comments give.
abbrev pub role_name : GpuRole → Bytes
role_name GpuRole.fast = codes "fast"
role_name GpuRole.deep = codes "deep"
role_name GpuRole.asr = codes "asr"
role_name GpuRole.omni = codes "omni"

abbrev pub tool_mode_name : ToolMode → Bytes
tool_mode_name ToolMode.auto = codes "auto"
tool_mode_name ToolMode.server = codes "server"
tool_mode_name ToolMode.client = codes "client"

abbrev pub json_mode_name : JsonMode → Bytes
json_mode_name JsonMode.unconstrained = codes "none"
json_mode_name JsonMode.tool_only = codes "tool-only"
json_mode_name JsonMode.thinking_with_tools = codes "thinking-with-tools"
json_mode_name JsonMode.any_json = codes "any-json"
json_mode_name JsonMode.notes_classifier_json = codes "notes-classifier-json"

pub role_of-role_name : (g : GpuRole) → role_of (role_name g) ≡ ok g
unfolding role_of
role_of-role_name GpuRole.fast = refl
role_of-role_name GpuRole.deep = refl
role_of-role_name GpuRole.asr = refl
role_of-role_name GpuRole.omni = refl

pub tool_mode_of-tool_mode_name : (m : ToolMode) → tool_mode_of (some (tool_mode_name m)) ≡ ok m
unfolding tool_mode_of
tool_mode_of-tool_mode_name ToolMode.auto = refl
tool_mode_of-tool_mode_name ToolMode.server = refl
tool_mode_of-tool_mode_name ToolMode.client = refl

pub json_mode_of-json_mode_name : (m : JsonMode) → json_mode_of (some (json_mode_name m)) ≡ ok m
unfolding json_mode_of
json_mode_of-json_mode_name JsonMode.unconstrained = refl
json_mode_of-json_mode_name JsonMode.tool_only = refl
json_mode_of-json_mode_name JsonMode.thinking_with_tools = refl
json_mode_of-json_mode_name JsonMode.any_json = refl
json_mode_of-json_mode_name JsonMode.notes_classifier_json = refl

-- One arm of a match on a string: its result is for its name, or the arms behind it decide.
arm_names :
    {A : Type 0} (name : A → Bytes) (s : Bytes) (b a : A) (rest : Result RequestError A)
    → (rest ≡ ok b → s ≡ name b)
    → (if bytes_eq s (name a) then ok a else rest) ≡ ok b
    → s ≡ name b
arm_names name s b a rest later h = elim (Bool-cases (bytes_eq s (name a))) [
  | inl e ↦ let i : ok a ≡ ok b = rw e at h in (bytes_eq_iff s (name a)).0 e ∙ ap name (cc i)
  | inr e ↦ later (rw e at h)
]

role_of-role : (s : Bytes) (g : GpuRole) → role_of s ≡ ok g → s ≡ role_name g
unfolding role_of
role_of-role s g = arm_names role_name s g GpuRole.fast _ (
    arm_names role_name s g GpuRole.deep _ (
      arm_names role_name s g GpuRole.asr _
        (arm_names role_name s g GpuRole.omni _ (λ h. absurd (cc h)))))

tool_mode_of-mode : (s : Bytes) (m : ToolMode) → tool_mode_of (some s) ≡ ok m → s ≡ tool_mode_name m
unfolding tool_mode_of
tool_mode_of-mode s m = arm_names tool_mode_name s m ToolMode.auto _ (
    arm_names tool_mode_name s m ToolMode.server _
      (arm_names tool_mode_name s m ToolMode.client _ (λ h. absurd (cc h))))

json_mode_of-mode : (s : Bytes) (m : JsonMode) → json_mode_of (some s) ≡ ok m → s ≡ json_mode_name m
unfolding json_mode_of
json_mode_of-mode s m = arm_names json_mode_name s m JsonMode.unconstrained _ (
    arm_names json_mode_name s m JsonMode.tool_only _ (
      arm_names json_mode_name s m JsonMode.thinking_with_tools _ (
        arm_names json_mode_name s m JsonMode.any_json _
          (arm_names json_mode_name s m JsonMode.notes_classifier_json _ (λ h. absurd (cc h))))))

-- A string that is left out, or the name of a mode.
abbrev pub NamesOne : {A : Type 0} → (A → Bytes) → Option Bytes → Type 0
NamesOne name none = Unit
NamesOne {A} name (some s) = (a : A) × (s ≡ name a)

tool_mode_iff :
    (o : Option Bytes) → ((m : ToolMode) × (tool_mode_of o ≡ ok m)) ↔ NamesOne tool_mode_name o
unfolding tool_mode_of
tool_mode_iff none = (λ h. tt, λ h. (ToolMode.auto, refl))
tool_mode_iff (some s) = (
  λ (m, e). (m, tool_mode_of-mode s m e),
  λ (m, e). (m, ap (λ x. tool_mode_of (some x)) e ∙ tool_mode_of-tool_mode_name m),
)

json_mode_iff :
    (o : Option Bytes) → ((m : JsonMode) × (json_mode_of o ≡ ok m)) ↔ NamesOne json_mode_name o
unfolding json_mode_of
json_mode_iff none = (λ h. tt, λ h. (JsonMode.unconstrained, refl))
json_mode_iff (some s) = (
  λ (m, e). (m, json_mode_of-mode s m e),
  λ (m, e). (m, ap (λ x. json_mode_of (some x)) e ∙ json_mode_of-json_mode_name m),
)

module _ (napi : Napi) where
  -- The names that a request may have.
  abbrev pub IsNamed : JsRequest napi.BigInt → Type 0
  IsNamed r =
      ((g : GpuRole) × (r.role ≡ role_name g))
      × NamesOne tool_mode_name r.tool_mode
      × NamesOne json_mode_name r.json_mode

  pub accepted :
      (r : JsRequest napi.BigInt) (g : GpuRole) (t : ToolMode) (j : JsonMode)
      → role_of r.role ≡ ok g
      → tool_mode_of r.tool_mode ≡ ok t
      → json_mode_of r.json_mode ≡ ok j
      → to_proto_request napi r ≡ ok (request_with napi g t j r)
  unfolding to_proto_request
  accepted r g t j a b c = rw (a, b, c, to_proto_request) refl

  -- A request is accepted exactly if its role is one of the four names, and its tool mode and its JSON
  -- mode are each left out or one of theirs.
  pub to_proto_request-accepts_iff :
      (r : JsRequest napi.BigInt)
      → ((p : InferenceRequest) × (to_proto_request napi r ≡ ok p)) ↔ IsNamed r
  unfolding to_proto_request
  to_proto_request-accepts_iff r = (
    λ (p, e).
        let (g, e', a) = bind_succeeds _ (role_of r.role) e in
        let (t, e'', b) = bind_succeeds _ (tool_mode_of r.tool_mode) e' in
        let (j, _, c) = bind_succeeds _ (json_mode_of r.json_mode) e'' in
        (
          (g, role_of-role r.role g a),
          (tool_mode_iff r.tool_mode).0 (t, b),
          (json_mode_iff r.json_mode).0 (j, c),
        ),
    λ ((g, a), b, c).
        let (t, b') = (tool_mode_iff r.tool_mode).1 b in
        let (j, c') = (json_mode_iff r.json_mode).1 c in
        (request_with napi g t j r, accepted r g t j (ap role_of a ∙ role_of-role_name g) b' c'),
  )
