-- ===== src/Wire/Frames.antt =====
-- model_api_client/src/framed.rs: the bytes of a list of frames, one behind the other.
use chitin_model_api.Prelude.Result.{Result, ok, ◌>>=◌, bind_succeeds}
use chitin_model_api.Prelude.Text.{Bytes}
use chitin_model_api.Prelude.{◌≡◌, refl, ap, ◌∙◌, List, [], ◌∷◌, ◌++◌, append_assoc}
use chitin_model_api.Wire.{IoError, Bincode, encode}

module _ {M : Type 0} (b : Bincode M) where
  unfoldable pub frames : List M → Result IoError Bytes
  frames [] = ok []
  frames (m ∷ ms) = do f ← encode b m; t ← frames ms; ok (f ++ t)

  pub frames_nil : (t : Bytes) → frames [] ≡ ok t → t ≡ []
  unfolding frames
  frames_nil t h = cc

  -- The first of a list of frames, and the others.
  pub frames-cons :
      (m : M) (ms : List M) (out : Bytes)
      → frames (m ∷ ms) ≡ ok out
      → (f t : Bytes) × (encode b m ≡ ok f) × (frames ms ≡ ok t) × (out ≡ f ++ t)
  unfolding frames
  frames-cons m ms out h =
      let (f, k, e) = bind_succeeds (λ f. frames ms >>= λ t. ok (f ++ t)) (encode b m) h in
      let (t, k', e') = bind_succeeds (λ t. ok (f ++ t)) (frames ms) k in (f, t, e, e', cc)

  frames_of_cons :
      (m : M) (ms : List M) (f t : Bytes)
      → encode b m ≡ ok f
      → frames ms ≡ ok t
      → frames (m ∷ ms) ≡ ok (f ++ t)
  unfolding frames
  frames_of_cons m ms f t e k = rw (e, k)

  pub frames-append :
      (xs ys : List M) (out : Bytes)
      → frames (xs ++ ys) ≡ ok out
      → (o p : Bytes) × (frames xs ≡ ok o) × (frames ys ≡ ok p) × (out ≡ o ++ p)
  frames-append [] ys out h = ([], out, unfold frames in refl, h, refl)
  frames-append (x ∷ xs) ys out h =
      let (f, t, e, k, s) = frames-cons x (xs ++ ys) out h in
      let (o, p, ko, kp, s') = frames-append xs ys t k in
      (
        f ++ o,
        p,
        frames_of_cons x xs f o e ko,
        kp,
        s ∙ ap (λ (u : Bytes). f ++ u) s' ∙ ap (λ (u : Bytes). u) (rw append_assoc),
      )
