-- ===== src/Core/Context/Folders.antt =====
-- The folder of a context of src/base/Context.hpp while its copies come and go.
use understory.Base.{
  ℕ, suc, Option, none, some, append-nil, append_assoc, ◌≡◌, ◌≢◌, ◌⊎◌, refl, ap, sym, ◌∙◌, Bool,
  true, false, not, ◌&&◌, ◌||◌, Bool-cases, inl, inr, List, [], ◌∷◌, ◌++◌,
}
use understory.Base.Decimal.{to_string}
use understory.Base.Strings.{same, same_refl, same→≡}
use understory.Core.Context.{
  FilePath, Entry, nothing, folder, file, FileSystem, PathText, append, same_path, below, exists,
  is_directory, directory_exists, add_folder, remove_all, PredefinedEnvironement, unknown,
  default_env, random_env, custom_env, Context, destroy, World, copy, end_of_life, end_first,
  create_below, create_directories, link_subfolders, linked, new_implementation, get_temporary_path,
}

Entry-cases : (e : Entry) → (e ≡ nothing) ⊎ (e ≡ folder) ⊎ (e ≡ file)
Entry-cases nothing = inl refl
Entry-cases folder = inr (inl refl)
Entry-cases file = inr (inr refl)

same_path→≡ : (p q : FilePath) → same_path p q ≡ true → p ≡ q
unfolding same_path
same_path→≡ [] [] h = refl
same_path→≡ [] (y ∷ q) h = cc
same_path→≡ (x ∷ p) [] h = cc
same_path→≡ (x ∷ p) (y ∷ q) h = elim (Bool-cases (same x y)) [
  | inl b ↦ let e = same→≡ x y b in let rest = same_path→≡ p q (rw b at h) in cc
  | inr b ↦ absurd (let no = rw b at h in cc)
]

below_refl : (p : FilePath) → below p p ≡ true
unfolding below
below_refl [] = refl
below_refl (x ∷ p) = rw (same_refl x, below_refl p) refl

-- A new folder leaves what is there.
add_folder-keeps :
    (path p : FilePath) (e : Entry) (files : FileSystem)
    → files path ≡ nothing
    → e ≢ nothing
    → files p ≡ e
    → add_folder path files p ≡ e
unfolding add_folder
add_folder-keeps path p e files n t h = elim (Bool-cases (same_path path p)) [
  | inl b ↦ absurd (t (sym h ∙ ap files (sym (same_path→≡ path p b)) ∙ n))
  | inr b ↦ rw b h
]

exists-entry : (p : FilePath) (files : FileSystem) → exists p files ≡ true → files p ≢ nothing
unfolding exists
exists-entry p files h n = let no = rw (exists, n) at h in cc

entry-exists : (p : FilePath) (files : FileSystem) → files p ≢ nothing → exists p files ≡ true
unfolding exists
entry-exists p files t = elim (Entry-cases (files p)) [
  | inl n ↦ absurd (t n)
  | inr (inl d) ↦ rw (exists, d) refl
  | inr (inr d) ↦ rw (exists, d) refl
]

-- Whether all the subfolders are there.
unfoldable pub all_exist : FilePath → List PathText → FileSystem → Bool
all_exist path [] files = true
all_exist path (subfolder ∷ subfolders) files =
    exists (append path subfolder) files && all_exist path subfolders files

module _ (refused : FilePath → Bool) where
  -- Whether folders can be made or not, what is there stays.
  create_below-keeps :
      (above names p : FilePath) (e : Entry) (files : FileSystem)
      → e ≢ nothing
      → files p ≡ e
      → (create_below refused above names files).1 p ≡ e
  unfolding create_below
  create_below-keeps above [] p e files t h = h
  create_below-keeps above (x ∷ names) p e files t h =
      let path = above ++ x ∷ [] in
      elim (Entry-cases (files path)) [
        | inl n ↦ elim (Bool-cases (refused path)) [
          | inl b ↦ rw (create_below, n, b) h
          | inr b ↦
              rw (create_below, n, b)
                (create_below-keeps path names p e (add_folder path files) t
                  (add_folder-keeps path p e files n t h))
        ]
        | inr (inl d) ↦ rw (create_below, d) (create_below-keeps path names p e files t h)
        | inr (inr d) ↦ rw (create_below, d) h
      ]

  link_subfolders-keeps :
      (path : FilePath) (subfolders : List PathText) (p : FilePath) (e : Entry) (files : FileSystem)
      → e ≢ nothing
      → files p ≡ e
      → (link_subfolders refused path subfolders files).1 p ≡ e
  unfolding link_subfolders create_directories
  link_subfolders-keeps path [] p e files t h = h
  link_subfolders-keeps path (subfolder ∷ subfolders) p e files t h =
      let concat = append path subfolder in
      let created = create_directories refused concat files in
      let k = create_below-keeps [] concat p e files t h in
      elim (Bool-cases created.0) [
        | inl b ↦ elim (Bool-cases (exists concat created.1)) [
          | inl x ↦ rw (b, x) (link_subfolders-keeps path subfolders p e created.1 t k)
          | inr x ↦ rw (b, x) k
        ]
        | inr b ↦ rw b k
      ]

  link_subfolders-all_exist :
      (path : FilePath) (subfolders : List PathText) (files : FileSystem)
      → (link_subfolders refused path subfolders files).0 ≡ true
      → all_exist path subfolders (link_subfolders refused path subfolders files).1 ≡ true
  unfolding link_subfolders create_directories all_exist
  link_subfolders-all_exist path [] files h = refl
  link_subfolders-all_exist path (subfolder ∷ subfolders) files h =
      let concat = append path subfolder in
      let created = create_directories refused concat files in
      elim (Bool-cases created.0) [
        | inl b ↦ elim (Bool-cases (exists concat created.1)) [
          | inl x ↦
              let t = exists-entry concat created.1 x in
              let kept = link_subfolders-keeps path subfolders concat _ created.1 t refl in
              let there =
                entry-exists concat (link_subfolders refused path subfolders created.1).1
                  (λ n. t (sym kept ∙ n)) in
              rw (b, x)
                (rw there (link_subfolders-all_exist path subfolders created.1 (rw (b, x) at h)))
          | inr x ↦ absurd (let no = rw (b, x) at h in cc)
        ]
        | inr b ↦ absurd (let no = rw (b, b) at h in cc)
      ]

abbrev pub is_random : PredefinedEnvironement → Bool
is_random random_env = true
is_random _ = false

directory-exists :
    (path : FilePath) (files : FileSystem)
    → files path ≡ folder
    → directory_exists path files ≡ true
unfolding directory_exists exists is_directory
directory-exists path files d = rw (exists, is_directory, d) refl

destroyed :
    (env : PredefinedEnvironement) (path : FilePath) (files : FileSystem)
    → files path ≡ folder
    → directory_exists path (destroy (record { env = env; path_to_context = path }) files)
      ≡ not (is_random env)
unfolding destroy
destroyed unknown path files d = directory-exists path files d
destroyed default_env path files d = directory-exists path files d
destroyed random_env path files d =
    unfold directory_exists exists is_directory remove_all in
    rw (exists, is_directory, remove_all, below_refl path) refl
destroyed custom_env path files d = directory-exists path files d

-- The life of an implementation that was made of `c`, the only context: what its constructor leaves,
-- and what there is once it has ended.
abbrev ended : Bool × World → World
ended (true, w) = end_of_life w
ended (false, w) = w

abbrev pub DiesWithCopy : Context → List PathText → Bool × World → Type 0
DiesWithCopy c subfolders (built, w) =
    (directory_exists c.path_to_context w.files ≡ (built || not (is_random c.env)))
    × ((not built || all_exist c.path_to_context subfolders w.files) ≡ true)
    × ((ended (built, w)).alive ≡ c ∷ [])
    × (directory_exists c.path_to_context (ended (built, w)).files ≡ not (is_random c.env))

linked-DiesWithCopy :
    (refused : FilePath → Bool) (c : Context) (subfolders : List PathText) (built : Bool)
    (made files : FileSystem)
    → made c.path_to_context ≡ folder
    → (built ≡ true → all_exist c.path_to_context subfolders made ≡ true)
    → DiesWithCopy c subfolders
        (linked refused (built, made) (copy c (record { alive = c ∷ []; files = files })))
unfolding linked copy end_of_life end_first
linked-DiesWithCopy refused c subfolders true made files d all = (
  directory-exists c.path_to_context made d,
  all refl,
  refl,
  destroyed c.env c.path_to_context made d,
)
linked-DiesWithCopy refused c subfolders false made files d all =
    (destroyed c.env c.path_to_context made d, refl, refl, destroyed c.env c.path_to_context made d)

-- An implementation is made of the only context that lives, whose folder is there, with any subfolders,
-- whatever folders the system refuses to make. If its constructor does not throw, the context's folder
-- and all the subfolders are there. Once the implementation has ended, or its constructor has thrown,
-- the context that it was made of lives on as before; but its folder is gone exactly where it is a
-- random one, because the copy took it away.
pub new_implementation-DiesWithCopy :
    (refused : FilePath → Bool) (c : Context) (subfolders : List PathText) (files : FileSystem)
    → files c.path_to_context ≡ folder
    → DiesWithCopy c subfolders
        (new_implementation refused c subfolders (record { alive = c ∷ []; files = files }))
unfolding new_implementation copy
new_implementation-DiesWithCopy refused c subfolders files d =
    let links = link_subfolders refused c.path_to_context subfolders files in
    linked-DiesWithCopy refused c subfolders links.0 links.1 files
      (link_subfolders-keeps refused c.path_to_context subfolders c.path_to_context folder files
        (λ e. cc) d)
      (λ b. link_subfolders-all_exist refused c.path_to_context subfolders files b)

same_path_refl : (p : FilePath) → same_path p p ≡ true
unfolding same_path
same_path_refl [] = refl
same_path_refl (x ∷ p) = rw (same_refl x, same_path_refl p) refl

-- A folder that could be made below one that is there, is there.
create_below-folder :
    (refused : FilePath → Bool) (above names : FilePath) (files : FileSystem)
    → files above ≡ folder
    → (create_below refused above names files).0 ≡ true
    → (create_below refused above names files).1 (above ++ names) ≡ folder
unfolding create_below add_folder
create_below-folder refused above [] files d h = rw (append-nil above) d
create_below-folder refused above (x ∷ names) files d h =
    let path = above ++ x ∷ [] in
    rw (← append_assoc above (x ∷ []) names) (elim (Entry-cases (files path)) [
      | inl n ↦ elim (Bool-cases (refused path)) [
        | inl b ↦ absurd (let no = rw (create_below, n, b) at h in cc)
        | inr b ↦
            rw (create_below, n, b)
              (create_below-folder refused path names (add_folder path files)
                (rw (same_path_refl path) refl) (rw (create_below, n, b) at h))
      ]
      | inr (inl e) ↦
          rw (create_below, e)
            (create_below-folder refused path names files e (rw (create_below, e) at h))
      | inr (inr e) ↦ absurd (let no = rw (create_below, e) at h in cc)
    ])

-- Where the root is a folder, the loop for a random folder ends in its first round: it throws, or the
-- folder is there.
pub temporary_path_found :
    (refused : FilePath → Bool) (default_path temp : FilePath) (draws : ℕ → ℕ) (fuel i : ℕ)
    (files : FileSystem)
    → files [] ≡ folder
    → (r : Option FilePath × FileSystem) × (get_temporary_path refused default_path temp draws
          (suc fuel)
          i
          files
        ≡ some r)
unfolding get_temporary_path create_directories
temporary_path_found refused default_path temp draws fuel i files d =
    let path = temp ++ to_string (draws i) ∷ [] in
    let made = create_directories refused path files in
    elim (Bool-cases made.0) [
      | inl b ↦
          let there =
            directory-exists path made.1 (create_below-folder refused [] path files d b) in
          ((some path, made.1), rw (b, there) refl)
      | inr b ↦ ((none, made.1), rw b refl)
    ]
