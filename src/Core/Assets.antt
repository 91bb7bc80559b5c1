-- ===== src/Core/Assets.antt =====
-- src/core/FileIntegrator.hpp and src/core/AssetIntegrator.hpp: files that become assets, which are
-- stored in the folder of a context. A path is the list of its bytes, from the context's folder on;
-- `std::filesystem` has split the path of a file to integrate into its stem and its extension.
-- Writes succeed. What protobuf does and the size that stb_image reads are arguments.
pub mod Store
pub mod Paths
use understory.Base.{
  ℕ, ◌%◌, ◌^◌, ◌≡◌, ◌≢◌, Bool, true, false, List, [], ◌∷◌, ◌++◌, Option, none, some, if◌then◌else◌,
  ◌==◌, ltb, length, ◌&&◌, ◌||◌,
}
use understory.Base.Decimal.{to_string}
use understory.Base.Maps.{Map, find, insert_or_assign}
use understory.Core.Fnv.{hash_64_fnv1a}

-- src/models/File.proto
pub record FileDescriptor : Type 0 where
  pub name : List ℕ
  pub file_extension : List ℕ
  pub fnv1a_hash : ℕ

pub record File : Type 0 where
  pub file_description : FileDescriptor
  pub content : List ℕ
  -- An int32, by its 32 bits.
  pub content_length : ℕ

-- src/models/Asset.proto; the code leaves its two lists of tags empty.
pub record Size : Type 0 where
  pub width : ℕ
  pub height : ℕ

pub record Asset : Type 0 where
  pub file : File
  pub dimensions : Size

-- The files of a context, by their paths.
abbrev pub Files : Type 0
Files = Map (List ℕ)

-- `none` is the exception for a file that does not exist.
unfoldable pub create_file : List ℕ → List ℕ → Option (List ℕ) → Option File
create_file stem extension none = none
create_file stem extension (some file_content) = some (record {
  file_description = record {
    name = stem;
    file_extension = extension;
    fnv1a_hash = hash_64_fnv1a file_content;
  };
  content = file_content;
  content_length = length file_content % 2 ^ 32;
})

unfoldable pub create_asset : List ℕ → List ℕ → Option (List ℕ) → Size → Option Asset
create_asset stem extension file size = elim (create_file stem extension file) [
  | none ↦ none
  | some f ↦ some (record { file = f; dimensions = size })
]

-- The AssetDatabase that protobuf generates, with its `map<uint64, Asset>`: `contains` and `at`, and
-- `insert`, which leaves an entry that is there; MessageToJsonString and ParseFromIstream.
pub record Protobuf : Type 1 where
  pub Database : Type 0
  pub at : ℕ → Database → Option Asset
  pub insert : ℕ → Asset → Database → Database
  pub to_json : Database → List ℕ
  pub parse : List ℕ → Database
  pub inserts_new :
      (id : ℕ) (a : Asset) (d : Database) → at id d ≡ none → at id (insert id a d) ≡ some a
  pub keeps_present :
      (id : ℕ) (a b : Asset) (d : Database) → at id d ≡ some b → at id (insert id a d) ≡ some b
  pub keeps_other : (j id : ℕ) (a : Asset) (d : Database) → j ≢ id → at j (insert id a d) ≡ at j d

pub record AssetContext (D : Type 0) : Type 0 where
  pub database : D
  pub files : Files

-- resourcesFolder, and resourcesDbFile
abbrev pub resources_folder : List ℕ
resources_folder = 114 ∷ 101 ∷ 115 ∷ 111 ∷ 117 ∷ 114 ∷ 99 ∷ 101 ∷ 115 ∷ []

abbrev pub resources_db_file : List ℕ
resources_db_file = resources_folder ++ 46 ∷ 106 ∷ 115 ∷ 111 ∷ 110 ∷ []

unfoldable pub asset_file_path : Asset → List ℕ
asset_file_path asset =
    let d = asset.file.file_description in
    resources_folder ++ 47 ∷ (to_string d.fnv1a_hash ++ d.file_extension)

unfoldable pub clear_content : Asset → Asset
clear_content asset = record asset { file = record asset.file { content = [] } }

unfoldable pub set_content : List ℕ → Asset → Asset
set_content bytes asset = record asset { file = record asset.file { content = bytes } }

-- `isspace`
abbrev pub is_space : ℕ → Bool
is_space c = (c == 32) || (ltb 8 c && ltb c 14)

unfoldable pub word : List ℕ → List ℕ
word [] = []
word (c ∷ cs) = let rest = word cs in if is_space c then [] else c ∷ rest

-- `operator>>` of a stream into a string: from the first byte that is no white space to the next
-- white space.
unfoldable pub read_word : List ℕ → List ℕ
read_word [] = []
read_word (c ∷ cs) = let rest = read_word cs in if is_space c then rest else word (c ∷ cs)

-- `Asset()`, and the answer of `fetchAsset` where the entry or the file is missing.
abbrev pub no_asset : Asset
no_asset = record {
  file = record {
    file_description = record { name = []; file_extension = []; fnv1a_hash = 0 };
    content = [];
    content_length = 0;
  };
  dimensions = record { width = 0; height = 0 };
}

module _ (pb : Protobuf) where
  -- The constructor. Where there is no database file, the bytes to parse are none.
  unfoldable pub new_asset_context : Files → AssetContext pb.Database
  new_asset_context files = record {
    database = elim (find resources_db_file files) [
      | none ↦ pb.parse []
      | some bytes ↦ pb.parse bytes
    ];
    files = files;
  }

  unfoldable pub save_state : AssetContext pb.Database → AssetContext pb.Database
  save_state s = record s {
    files = insert_or_assign resources_db_file (pb.to_json s.database) s.files;
  }

  unfoldable pub integrate_asset : Asset → AssetContext pb.Database → AssetContext pb.Database
  integrate_asset asset s =
      let cleared = clear_content asset in
      let hash = cleared.file.file_description.fnv1a_hash in
      save_state (record {
        files = insert_or_assign (asset_file_path asset) asset.file.content s.files;
        database = pb.insert hash cleared s.database;
      })

  unfoldable pub fetch_asset : ℕ → AssetContext pb.Database → Asset
  fetch_asset file_id s = elim (pb.at file_id s.database) [
    | none ↦ no_asset
    | some asset ↦ elim (find (asset_file_path asset) s.files) [
      | none ↦ no_asset
      | some bytes ↦ set_content (read_word bytes) asset
    ]
  ]
