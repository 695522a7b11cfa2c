-- ===== src/Llama/Session/Position.antt =====
-- chitin_llama/src/session.rs: the session's position over a generation.
use chitin_model_api.Llama.Session.{Llama, Session, SessionError, Done}
use chitin_model_api.Prelude.Result.{Result, err}
use chitin_model_api.Prelude.{ℕ, List, Option, none, some}

abbrev result_of : Option (Done (List ℕ)) → Result SessionError (List ℕ)
result_of none = err SessionError.empty_prompt
result_of (some d) = d.0

abbrev failure : SessionError → Result SessionError (List ℕ)
failure e = err e

abbrev position : Option (Done (List ℕ)) → ℕ
position none = 0
position (some d) = d.1.n_cur
