-- ===== src/Core/Context.antt =====
-- src/base/Context.hpp: the folder in which a program keeps its files, and how long it is there. A path
-- is the list of its names from the root of the file system; links, "." and ".." are left out. The
-- platform's folders, the default one and the one for temporary files, the random numbers, and which
-- folders the system refuses to make are arguments.
pub mod Folders
use understory.Base.{
  ℕ, zero, suc, Bool, true, false, not, ◌&&◌, List, [], ◌∷◌, ◌++◌, Option, none, some,
  if◌then◌else◌,
}
use understory.Base.Decimal.{to_string}
use understory.Base.Strings.{same}

abbrev pub FilePath : Type 0
FilePath = List (List ℕ)

-- What a path leads to: nothing, a folder, or a file of any other type.
pub data Entry : Type 0 where
  nothing folder file : Entry

abbrev pub FileSystem : Type 0
FileSystem = FilePath → Entry

-- A string that stands for a path.
pub record PathText : Type 0 where
  pub is_absolute : Bool
  pub names : FilePath

-- `operator/` of std::filesystem::path.
unfoldable pub append : FilePath → PathText → FilePath
append p text = if text.is_absolute then text.names else p ++ text.names

unfoldable pub same_path : FilePath → FilePath → Bool
same_path [] [] = true
same_path [] (y ∷ q) = false
same_path (x ∷ p) [] = false
same_path (x ∷ p) (y ∷ q) = same x y && same_path p q

-- Whether the second path is the first one or lies below it.
unfoldable pub below : FilePath → FilePath → Bool
below [] q = true
below (x ∷ p) [] = false
below (x ∷ p) (y ∷ q) = same x y && below p q

unfoldable pub exists : FilePath → FileSystem → Bool
exists path files = elim (files path) [ nothing ↦ false | _ ↦ true ]

unfoldable pub is_directory : FilePath → FileSystem → Bool
is_directory path files = elim (files path) [ folder ↦ true | _ ↦ false ]

unfoldable pub directory_exists : FilePath → FileSystem → Bool
unfolding exists is_directory
directory_exists path files = exists path files && is_directory path files

unfoldable pub add_folder : FilePath → FileSystem → FileSystem
unfolding same_path
add_folder path files q = if same_path path q then folder else files q

-- std::filesystem::remove_all; that it can throw is left out, as it ends the program in a destructor.
unfoldable pub remove_all : FilePath → FileSystem → FileSystem
unfolding below
remove_all path files q = if below path q then nothing else files q

pub data PredefinedEnvironement : Type 0 where
  unknown default_env random_env custom_env : PredefinedEnvironement

pub record Context : Type 0 where
  pub env : PredefinedEnvironement
  pub path_to_context : FilePath

-- `none` is the exception of the constructor.
unfoldable pub new_context : PredefinedEnvironement → FilePath → FileSystem → Option Context
unfolding directory_exists
new_context env path files =
    if directory_exists path files
    then some (record { env = env; path_to_context = path })
    else none

unfoldable pub destroy : Context → FileSystem → FileSystem
unfolding remove_all
destroy c files = elim c.env [ random_env ↦ remove_all c.path_to_context files | _ ↦ files ]

-- The contexts that live, the youngest first, and the file system.
pub record World : Type 0 where
  pub alive : List Context
  pub files : FileSystem

unfoldable pub copy : Context → World → World
copy c w = record w { alive = c ∷ w.alive }

end_first : List Context → World → World
unfolding destroy
end_first [] w = w
end_first (c ∷ cs) w = record { alive = cs; files = destroy c w.files }

-- The youngest context ends.
unfoldable pub end_of_life : World → World
unfolding end_first
end_of_life w = end_first w.alive w

module _ (refused : FilePath → Bool) where
  -- The folders of these names below `above`, which is there, down to the first that cannot be made:
  -- whether all could, and the file system.
  unfoldable pub create_below : FilePath → FilePath → FileSystem → Bool × FileSystem
  unfolding add_folder
  create_below above [] files = (true, files)
  create_below above (x ∷ names) files =
      let path = above ++ x ∷ [] in
      let deeper = create_below path names files in
      let made = create_below path names (add_folder path files) in
      elim (files path) [
        | folder ↦ deeper
        | file ↦ (false, files)
        | nothing ↦ if refused path then (false, files) else made
      ]

  -- std::filesystem::create_directories; `false` is its exception.
  unfoldable pub create_directories : FilePath → FileSystem → Bool × FileSystem
  unfolding create_below
  create_directories path files = create_below [] path files

  -- The loop of the constructor of ContextImplementation; `false` is an exception.
  unfoldable pub link_subfolders : FilePath → List PathText → FileSystem → Bool × FileSystem
  unfolding append create_directories exists
  link_subfolders path [] files = (true, files)
  link_subfolders path (subfolder ∷ linked_subfolders) files =
      let concat = append path subfolder in
      let created = create_directories concat files in
      let more = link_subfolders path linked_subfolders created.1 in
      if not created.0
      then created
      else if not (exists concat created.1)
      then (false, created.1)
      else more

  linked : Bool × FileSystem → World → Bool × World
  unfolding end_of_life
  linked (true, files) w = (true, record w { files = files })
  linked (false, files) w = (false, end_of_life (record w { files = files }))

  -- `ContextImplementation` keeps a copy of the context. `false` is an exception, at which the copy ends.
  unfoldable pub new_implementation : Context → List PathText → World → Bool × World
  unfolding copy link_subfolders linked
  new_implementation c linked_subfolders w =
      let copied = copy c w in
      linked (link_subfolders c.path_to_context linked_subfolders copied.files) copied

module _ (refused : FilePath → Bool) (default_path temp_directory_path : FilePath)
    (draws : ℕ → ℕ) where
  context_in : PredefinedEnvironement → FilePath → Bool × FileSystem → Option Context × FileSystem
  unfolding new_context
  context_in env path (true, files) = (new_context env path files, files)
  context_in env path (false, files) = (none, files)

  -- Each of these gives the context, if no exception is thrown, and the file system.
  unfoldable pub normal : FileSystem → Option Context × FileSystem
  unfolding create_directories context_in
  normal files = context_in default_env default_path (create_directories refused default_path files)

  -- "_CC" is the folder of the custom contexts.
  unfoldable pub custom : PathText → FileSystem → Option Context × FileSystem
  unfolding append create_directories context_in
  custom custom_context_name files =
      let path = append (default_path ++ (95 ∷ 67 ∷ 67 ∷ []) ∷ []) custom_context_name in
      let (ok, above) = create_directories refused default_path files in
      let made = context_in custom_env path (create_directories refused path above) in
      if ok then made else (none, above)

  -- The loop, from the draw `i` on: the path, or `none` for an exception, and the file system. No fuel
  -- is left where there is no result.
  unfoldable pub get_temporary_path : ℕ → ℕ → FileSystem → Option (Option FilePath × FileSystem)
  unfolding create_directories directory_exists
  get_temporary_path zero i files = none
  get_temporary_path (suc fuel) i files =
      let path = temp_directory_path ++ to_string (draws i) ∷ [] in
      let (ok, made) = create_directories refused path files in
      let again = get_temporary_path fuel (suc i) made in
      if not ok
      then some (none, made)
      else if directory_exists path made
      then some (some path, made)
      else again

  random_in : Option FilePath × FileSystem → Option Context × FileSystem
  unfolding new_context
  random_in (none, files) = (none, files)
  random_in (some path, files) = (new_context random_env path files, files)

  unfoldable pub random : ℕ → FileSystem → Option (Option Context × FileSystem)
  unfolding random_in get_temporary_path
  random fuel files = elim (get_temporary_path fuel 0 files) [
    | none ↦ none
    | some made ↦ some (random_in made)
  ]
