-- ===== src/Core/Assets/Store.antt =====
-- What comes back of a stored asset (src/core/AssetIntegrator.hpp).
use understory.Base.{
  ℕ, ◌≡◌, ◌↔◌, refl, sym, ap, ◌∙◌, inl, inr, false, List, [], ◌∷◌, none, some, Bool-cases,
  eq_of_some,
}
use understory.Core.Fnv.{hash_64_fnv1a}
use mathlib.Core.Path.{subst}
use understory.Base.Maps.{find, insert_or_assign, find-insert_same, find-insert_other}
use understory.Base.Strings.{same}
use understory.Core.Assets.{
  Asset, AssetContext, Protobuf, asset_file_path, resources_db_file, save_state, clear_content,
  set_content, Size, create_file, create_asset, new_asset_context, integrate_asset, is_space, word,
  read_word, fetch_asset,
}

abbrev pub hash_of : Asset → ℕ
hash_of asset = asset.file.file_description.fnv1a_hash

-- The database file is no asset file.
pub path-not_db : (asset : Asset) → same (asset_file_path asset) resources_db_file ≡ false
unfolding same asset_file_path
path-not_db asset = refl

module _ (pb : Protobuf) (asset : Asset) (s : AssetContext pb.Database) where
  stored_file :
      find (asset_file_path asset) (integrate_asset pb asset s).files ≡ some asset.file.content
  unfolding integrate_asset save_state
  stored_file =
      find-insert_other (asset_file_path asset) resources_db_file _ _ (path-not_db asset)
      ∙ find-insert_same (asset_file_path asset) asset.file.content s.files

  pub other_file :
      (path : List ℕ)
      → same path (asset_file_path asset) ≡ false
      → same path resources_db_file ≡ false
      → find path (integrate_asset pb asset s).files ≡ find path s.files
  unfolding integrate_asset save_state
  other_file path h k =
      find-insert_other path resources_db_file _ _ k
      ∙ find-insert_other path (asset_file_path asset) asset.file.content s.files h

  pub stored_entry :
      (integrate_asset pb asset s).database
      ≡ pb.insert (hash_of asset) (clear_content asset) s.database
  unfolding integrate_asset save_state clear_content
  stored_entry = refl

-- Fetching gives the entry of the database with the first word of the file.
fetch_found :
    (pb : Protobuf) (id : ℕ) (s : AssetContext pb.Database) (a : Asset) (bytes : List ℕ)
    → pb.at id s.database ≡ some a
    → find (asset_file_path a) s.files ≡ some bytes
    → fetch_asset pb id s ≡ set_content (read_word bytes) a
unfolding fetch_asset
fetch_found pb id s a bytes h k = rw (fetch_asset, h, k)

-- An asset of a new hash that has been stored is fetched as it was, but for its content, of which
-- only the first word comes back.
pub fetch-integrate :
    (pb : Protobuf) (asset : Asset) (s : AssetContext pb.Database)
    → pb.at asset.file.file_description.fnv1a_hash s.database ≡ none
    → fetch_asset pb asset.file.file_description.fnv1a_hash (integrate_asset pb asset s)
      ≡ set_content (read_word asset.file.content) asset
fetch-integrate pb asset s h =
    fetch_found pb (hash_of asset) (integrate_asset pb asset s) (clear_content asset)
      asset.file.content
      (ap (pb.at (hash_of asset)) (stored_entry pb asset s)
        ∙ pb.inserts_new (hash_of asset) (clear_content asset) s.database h)
      (unfold clear_content asset_file_path in stored_file pb asset s)
    ∙ (unfold set_content clear_content in refl)

-- No byte is white space.
abbrev pub HasNoSpace : List ℕ → Type 0
HasNoSpace [] = Unit
HasNoSpace (c ∷ cs) = (is_space c ≡ false) × HasNoSpace cs

word_whole : (cs : List ℕ) → HasNoSpace cs → word cs ≡ cs
unfolding word
word_whole [] n = refl
word_whole (c ∷ cs) (n, ns) = rw (n, word_whole cs ns)

read_word_whole : (cs : List ℕ) → HasNoSpace cs → read_word cs ≡ cs
unfolding read_word
read_word_whole [] n = refl
read_word_whole (c ∷ cs) (n, ns) = rw n (word_whole (c ∷ cs) (n, ns))

word-HasNoSpace : (cs : List ℕ) → HasNoSpace (word cs)
unfolding word
word-HasNoSpace [] = tt
word-HasNoSpace (c ∷ cs) = elim (Bool-cases (is_space c)) [
  | inl s ↦ rw s tt
  | inr n ↦ rw n (n, word-HasNoSpace cs)
]

read_word-HasNoSpace : (cs : List ℕ) → HasNoSpace (read_word cs)
unfolding read_word
read_word-HasNoSpace [] = tt
read_word-HasNoSpace (c ∷ cs) = elim (Bool-cases (is_space c)) [
  | inl s ↦ rw s (read_word-HasNoSpace cs)
  | inr n ↦ rw n (word-HasNoSpace (c ∷ cs))
]

created_fields :
    (stem extension content : List ℕ) (size : Size) (asset : Asset)
    → create_asset stem extension (some content) size ≡ some asset
    → (asset.file.content ≡ content)
      × (asset.file.file_description.fnv1a_hash ≡ hash_64_fnv1a content)
unfolding create_asset create_file
created_fields stem extension content size asset e = (
  sym (ap (λ a. a.file.content) (eq_of_some e)),
  sym (ap (λ a. a.file.file_description.fnv1a_hash) (eq_of_some e)),
)

content_of_fetch :
    (bytes : List ℕ) (asset : Asset) → set_content bytes asset ≡ asset → bytes ≡ asset.file.content
unfolding set_content
content_of_fetch bytes asset e = ap (λ a. a.file.content) e

same_content : (asset : Asset) → set_content asset.file.content asset ≡ asset
unfolding set_content
same_content asset = refl

-- An asset made of a file, of a hash that is new to the context, and then stored, is fetched under
-- the hash of the file. What is fetched is the asset exactly when the file holds no white space.
pub fetched_iff :
    (pb : Protobuf) (stem extension content : List ℕ) (size : Size) (asset : Asset)
    (s : AssetContext pb.Database)
    → create_asset stem extension (some content) size ≡ some asset
    → pb.at (hash_64_fnv1a content) s.database ≡ none
    → (fetch_asset pb (hash_64_fnv1a content) (integrate_asset pb asset s) ≡ asset)
      ↔ HasNoSpace content
fetched_iff pb stem extension content size asset s e h =
    let (c, k) = created_fields stem extension content size asset e in
    let fetched = fetch-integrate pb asset s (ap (λ x. pb.at x s.database) k ∙ h) in
    let found : fetch_asset pb (hash_64_fnv1a content) (integrate_asset pb asset s)
        ≡ set_content (read_word content) asset =
      ap (λ x. fetch_asset pb x (integrate_asset pb asset s)) (sym k)
      ∙ (fetched ∙ ap (λ x. set_content (read_word x) asset) c) in
    (
      (λ f.
          subst HasNoSpace (content_of_fetch (read_word content) asset (sym found ∙ f) ∙ c)
            (read_word-HasNoSpace content)),
      (λ n.
          found
          ∙ (ap (λ x. set_content x asset) (read_word_whole content n ∙ sym c)
              ∙ same_content asset)),
    )

-- Storing an asset of a hash that the context knows, in the same file, leaves the entry of the
-- earlier asset: its fields come back, with the first word of the new content.
pub fetch_stored_twice :
    (pb : Protobuf) (asset earlier : Asset) (s : AssetContext pb.Database)
    → pb.at asset.file.file_description.fnv1a_hash s.database ≡ some earlier
    → asset_file_path earlier ≡ asset_file_path asset
    → fetch_asset pb asset.file.file_description.fnv1a_hash (integrate_asset pb asset s)
      ≡ set_content (read_word asset.file.content) earlier
fetch_stored_twice pb asset earlier s h p =
    fetch_found pb (hash_of asset) (integrate_asset pb asset s) earlier asset.file.content
      (ap (pb.at (hash_of asset)) (stored_entry pb asset s)
        ∙ pb.keeps_present (hash_of asset) (clear_content asset) earlier s.database h)
      (ap (λ x. find x (integrate_asset pb asset s).files) p ∙ stored_file pb asset s)

-- A context that is opened on the files of another one, after an asset was stored there, takes for its
-- database what the binary parser makes of the JSON text of the other's database.
pub reopened_parses_json :
    (pb : Protobuf) (asset : Asset) (s : AssetContext pb.Database)
    → (new_asset_context pb (integrate_asset pb asset s).files).database
      ≡ pb.parse (pb.to_json (integrate_asset pb asset s).database)
unfolding new_asset_context integrate_asset save_state
reopened_parses_json pb asset s =
    let written : List ℕ = pb.to_json (integrate_asset pb asset s).database in
    let others = insert_or_assign (asset_file_path asset) asset.file.content s.files in
    rw (new_asset_context, find-insert_same resources_db_file written others)
