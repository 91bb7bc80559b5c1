-- ===== src/Core/AssetTests.antt =====
-- The results of Core/Assets at concrete arguments.
use understory.Core.Context.{
  Context, FilePath, FileSystem, PathText, nothing, folder, random_env, new_implementation,
}
use understory.Core.Context.Folders.{DiesWithCopy, new_implementation-DiesWithCopy}
use understory.Base.{
  Bool, length, false, ℕ, ◌≡◌, ◌≢◌, ◌↔◌, refl, inl, inr, List, [], ◌∷◌, Option, none, some,
  Option-cases, ◌==◌, if◌then◌else◌, arith,
}
use understory.Base.Strings.{same}
use understory.Core.Fnv.{hash_64_fnv1a}
use understory.Core.Assets.{
  Asset, AssetContext, Protobuf, Size, create_file, create_asset, integrate_asset, fetch_asset,
}
use understory.Core.Assets.Store.{HasNoSpace, fetched_iff}

-- A database as a list of its entries, with a text that is always the same.
abbrev Entries : Type 0
Entries = List (ℕ × Asset)

unfoldable at : ℕ → Entries → Option Asset
at id [] = none
at id ((key, asset) ∷ assets) = let rest = at id assets in if id == key then some asset else rest

unfoldable insert : ℕ → Asset → Entries → Entries
insert id asset assets = elim (at id assets) [ some earlier ↦ assets | none ↦ (id, asset) ∷ assets ]

at-insert_new : (id : ℕ) (a : Asset) (d : Entries) → at id d ≡ none → at id (insert id a d) ≡ some a
unfolding at insert
at-insert_new id a d h = rw (insert, h) (ground arith)

at-insert_present :
    (id : ℕ) (a b : Asset) (d : Entries) → at id d ≡ some b → at id (insert id a d) ≡ some b
unfolding insert
at-insert_present id a b d h = rw (insert, h) h

at-insert_other : (j id : ℕ) (a : Asset) (d : Entries) → j ≢ id → at j (insert id a d) ≡ at j d
unfolding at insert
at-insert_other j id a d h = elim (Option-cases (at id d)) [
  | inl e ↦ rw (insert, e) (ground arith)
  | inr (b, e) ↦ rw (insert, e)
]

abbrev pb : Protobuf
pb = record {
  Database = Entries;
  at = at;
  insert = insert;
  to_json = λ d. 123 ∷ 125 ∷ [];
  parse = λ bytes. [];
  inserts_new = at-insert_new;
  keeps_present = at-insert_present;
  keeps_other = at-insert_other;
}

abbrev empty_context : AssetContext Entries
empty_context = record { database = []; files = [] }

abbrev small : Size
small = record { width = 1; height = 1 }

abbrev two_words : List ℕ
two_words = 104 ∷ 105 ∷ 32 ∷ 117 ∷ []

abbrev made : Asset
made = record {
  file = record {
    file_description = record {
      name = 120 ∷ [];
      file_extension = 46 ∷ 97 ∷ [];
      fnv1a_hash = hash_64_fnv1a two_words;
    };
    content = two_words;
    content_length = 4;
  };
  dimensions = small;
}

made_created : create_asset (120 ∷ []) (46 ∷ 97 ∷ []) (some two_words) small ≡ some made
unfolding create_asset create_file
made_created = refl

nothing_stored : at (hash_64_fnv1a two_words) [] ≡ none
unfolding at
nothing_stored = refl

fetched_iff_example :
    (fetch_asset pb (hash_64_fnv1a two_words) (integrate_asset pb made empty_context) ≡ made)
    ↔ HasNoSpace two_words
fetched_iff_example =
    fetched_iff pb (120 ∷ []) (46 ∷ 97 ∷ []) two_words small made empty_context made_created
      nothing_stored

abbrev random_context : Context
random_context = record { env = random_env; path_to_context = (116 ∷ []) ∷ (55 ∷ []) ∷ [] }

-- A subfolder "d", and one below it that the system refuses to make.
abbrev subfolders : List PathText
subfolders =
    record { is_absolute = false; names = (100 ∷ []) ∷ [] }
    ∷ record { is_absolute = false; names = (100 ∷ []) ∷ (101 ∷ []) ∷ [] }
    ∷ []

abbrev refuses_e : FilePath → Bool
refuses_e p = length p == 4

abbrev temporary : FileSystem
temporary p = if length p == 3 then nothing else if length p == 4 then nothing else folder

new_implementation-DiesWithCopy_example : DiesWithCopy random_context subfolders (
    new_implementation refuses_e random_context subfolders
      (record { alive = random_context ∷ []; files = temporary }))
new_implementation-DiesWithCopy_example =
    new_implementation-DiesWithCopy refuses_e random_context subfolders temporary refl

-- The second subfolder makes the constructor throw.
second_subfolder_throws :
    (new_implementation refuses_e random_context subfolders
      (record { alive = random_context ∷ []; files = temporary })).0
    ≡ false
unfolding new_implementation same
second_subfolder_throws = refl
