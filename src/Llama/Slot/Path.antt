-- ===== src/Llama/Slot/Path.antt =====
-- model_api_server/src/llama_slot.rs: `resolve_gguf_path`. The file system is a parameter, and so is
-- the order of paths.
use chitin_model_api.Prelude.Tests.{if◌then◌else◌, Bool-cases}
use chitin_model_api.Prelude.Lists.{All}
use chitin_model_api.Prelude.Text.{Bytes, codes, bytes_eq, lowercase}
use chitin_model_api.Prelude.{
  ◌≡◌, ◌⊎◌, refl, ap, ◌∙◌, inl, inr, Bool, true, false, Option, none, some, List, [], ◌∷◌, ◌++◌,
}

-- Of the paths of the file system, which need not be text: the extension if that is text, whether a
-- path is a directory, the paths that can be read in it, whether one path comes no later than
-- another, and a path as text, with a replacement for what is not UTF-8.
pub record FileSystem : Type 0 where
  pub extension : Bytes → Option Bytes
  pub is_dir : Bytes → Bool
  pub read_dir : Bytes → Option (List Bytes)
  pub path_le : Bytes → Bytes → Bool
  pub to_string_lossy : Bytes → Bytes

module _ (fs : FileSystem) where
  unfoldable pub is_gguf : Bytes → Bool
  unfolding lowercase bytes_eq
  is_gguf path = elim (fs.extension path) [
    | none ↦ false
    | some e ↦ bytes_eq (lowercase e) (codes "gguf")
  ]

  unfoldable pub ggufs_of : List Bytes → List Bytes
  unfolding is_gguf
  ggufs_of [] = []
  ggufs_of (p ∷ ps) = let rest = ggufs_of ps in if is_gguf p then p ∷ rest else rest

  -- `sort`, as far as its first path goes.
  unfoldable pub first_path : Bytes → List Bytes → Bytes
  first_path p [] = p
  first_path p (q ∷ qs) = first_path (if fs.path_le p q then p else q) qs

  abbrev pub model_link : Bytes → Bytes
  model_link model_dir = model_dir ++ codes "/model.gguf"

  -- The first path of a directory's model files.
  unfoldable pub picked : Bytes → List Bytes → Bytes
  unfolding first_path
  picked model_dir [] = model_link model_dir
  picked model_dir (p ∷ ps) = fs.to_string_lossy (first_path p ps)

  unfoldable pub resolve_gguf_path : Bytes → Bytes
  unfolding is_gguf ggufs_of picked
  resolve_gguf_path model_dir =
      let in_dir : Bytes = elim (fs.read_dir model_dir) [
        | none ↦ model_link model_dir
        | some ps ↦ picked model_dir (ggufs_of ps)
      ] in
      if is_gguf model_dir
      then model_dir
      else if fs.is_dir model_dir
      then in_dir
      else model_link model_dir

-- The order of paths: total and transitive.
pub record IsOrder (le : Bytes → Bytes → Bool) : Type 0 where
  pub total : (p q : Bytes) → (le p q ≡ true) ⊎ (le q p ≡ true)
  pub transitive : (p q r : Bytes) → le p q ≡ true → le q r ≡ true → le p r ≡ true

abbrev pub Among : Bytes → List Bytes → Type 0
Among p [] = ⊥
Among p (q ∷ qs) = (p ≡ q) ⊎ Among p qs

module _ (fs : FileSystem) (order : IsOrder fs.path_le) where
  abbrev Least : Bytes → List Bytes → Type 0
  Least p ps = All (λ q. fs.path_le p q ≡ true) ps

  reflexive : (p : Bytes) → fs.path_le p p ≡ true
  reflexive p = elim (order.total p p) [ inl h ↦ h | inr h ↦ h ]

  not_before : (p q : Bytes) → fs.path_le p q ≡ false → fs.path_le q p ≡ true
  not_before p q h = elim (order.total p q) [ inl k ↦ absurd (cc (h, k)) | inr k ↦ k ]

  first_stays :
      (p q : Bytes) (qs : List Bytes)
      → fs.path_le p q ≡ true
      → first_path fs p (q ∷ qs) ≡ first_path fs p qs
  unfolding first_path
  first_stays p q qs e = rw e refl

  first_moves :
      (p q : Bytes) (qs : List Bytes)
      → fs.path_le p q ≡ false
      → first_path fs p (q ∷ qs) ≡ first_path fs q qs
  unfolding first_path
  first_moves p q qs e = rw e refl

  -- The first path is one of them and comes no later than any.
  first_path-Least :
      (r p : Bytes) (ps : List Bytes) → r ≡ first_path fs p ps → Among r (p ∷ ps) × Least r (p ∷ ps)
  unfolding first_path
  first_path-Least r p [] e = (inl e, (rw e (reflexive p), tt))
  first_path-Least r p (q ∷ qs) e = elim (Bool-cases (fs.path_le p q)) [
    | inl f ↦
        let (m, (h, k)) = first_path-Least r p qs (e ∙ first_stays p q qs f) in
        (elim m [ inl i ↦ inl i | inr i ↦ inr (inr i) ], (h, (order.transitive r p q h f, k)))
    | inr f ↦
        let (m, (h, k)) = first_path-Least r q qs (e ∙ first_moves p q qs f) in
        (inr m, (order.transitive r q p h (not_before p q f), (h, k)))
  ]

  in_directory :
      (model_dir : Bytes) (ps : List Bytes)
      → is_gguf fs model_dir ≡ false
      → fs.is_dir model_dir ≡ true
      → fs.read_dir model_dir ≡ some ps
      → resolve_gguf_path fs model_dir ≡ picked fs model_dir (ggufs_of fs ps)
  unfolding resolve_gguf_path
  in_directory model_dir ps h i j = rw (h, i, j, resolve_gguf_path) refl

  -- In a directory that can be read and holds a model file, what is returned is, as text, the path of
  -- one of its model files that comes no later than any of them, if the directory's own name is no
  -- model file's.
  pub resolve_gguf_path-Least :
      (model_dir p : Bytes) (ps rest : List Bytes)
      → is_gguf fs model_dir ≡ false
      → fs.is_dir model_dir ≡ true
      → fs.read_dir model_dir ≡ some ps
      → ggufs_of fs ps ≡ p ∷ rest
      → (first : Bytes) × (resolve_gguf_path fs model_dir ≡ fs.to_string_lossy first)
        × Among first (p ∷ rest)
        × All (λ q. fs.path_le first q ≡ true) (p ∷ rest)
  unfolding picked
  resolve_gguf_path-Least model_dir p ps rest h i j k =
      let (m, l) = first_path-Least (first_path fs p rest) p rest refl in
      (first_path fs p rest, in_directory model_dir ps h i j ∙ ap (picked fs model_dir) k, m, l)
