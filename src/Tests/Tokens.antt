-- ===== src/Tests/Tokens.antt =====
-- The session at a concrete context.
use chitin_model_api.Llama.Session.Prefill.{Placed, prefill-Placed}
use chitin_model_api.Llama.Session.{Llama, Session, Cell, prefill}
use chitin_model_api.Prelude.Lists.{length}
use chitin_model_api.Prelude.Tests.{ltb, ◌==◌}
use chitin_model_api.Prelude.{ℕ, ◌≡◌, ◌<◌, ◌+◌, refl, true, false, List, [], ◌∷◌}

-- Two entries fit into a batch, and the sampler counts the batches.
abbrev pub llama : Llama
llama = record {
  takes = λ held. ltb (length held) 2;
  decodes = λ handed. true;
  sample = λ handed accepted i. length handed;
  is_eog = λ t. t == 4;
}

abbrev pub fresh : Session
fresh = record {
  n_cur = 0;
  max_seq_len = 100;
  batch_capacity = 2;
  batch = [];
  handed = [];
  accepted = [];
}

abbrev pub prompt : List ℕ
prompt = 7 ∷ 8 ∷ 9 ∷ []

abbrev cell : ℕ → ℕ → Cell
cell t p = record { token = t; pos = p; logits = false }

abbrev last : Cell
last = record { token = 9; pos = 2; logits = true }

abbrev filled : Session
filled = record {
  n_cur = 3;
  max_seq_len = 100;
  batch_capacity = 2;
  batch = last ∷ [];
  handed = (cell 7 0 ∷ cell 8 1 ∷ []) ∷ (last ∷ []) ∷ [];
  accepted = [];
}

prefill-Placed_example :
    (3 ≡ fresh.n_cur + length prompt)
    × (filled.n_cur ≡ 3)
    × (3 < fresh.max_seq_len)
    × Placed llama fresh.n_cur 3 0 prompt fresh filled
unfolding prefill
prefill-Placed_example = prefill-Placed llama prompt 3 fresh filled refl
