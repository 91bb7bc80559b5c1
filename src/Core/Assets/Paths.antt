-- ===== src/Core/Assets/Paths.antt =====
-- Assets of different hashes lie in different files (src/core/AssetIntegrator.hpp).
use understory.Base.{ℕ, ◌≡◌, ◌≢◌, ap, ◌∙◌, inl, inr, false, some, drop, Bool-cases}
use understory.Base.Decimal.{StartsWithNoDigit, numeral-injective}
use understory.Base.Strings.{same, same→≡}
use understory.Base.Maps.{find}
use understory.Core.Assets.{
  Asset, AssetContext, Protobuf, asset_file_path, integrate_asset, fetch_asset, clear_content,
}
use understory.Core.Assets.Store.{hash_of, stored_entry, other_file, path-not_db}

-- `std::filesystem::path::extension` is empty or begins with a dot.
abbrev pub HasExtension : Asset → Type 0
HasExtension asset = StartsWithNoDigit asset.file.file_description.file_extension

path-injective :
    (a b : Asset)
    → HasExtension a
    → HasExtension b
    → asset_file_path a ≡ asset_file_path b
    → hash_of a ≡ hash_of b
unfolding asset_file_path
path-injective a b x y e = numeral-injective (hash_of a) (hash_of b) _ _ x y (ap (drop 10) e)

different_files :
    (a b : Asset)
    → HasExtension a
    → HasExtension b
    → hash_of a ≢ hash_of b
    → same (asset_file_path a) (asset_file_path b) ≡ false
different_files a b x y n = elim (Bool-cases (same (asset_file_path a) (asset_file_path b))) [
  | inl e ↦ absurd (n (path-injective a b x y (same→≡ _ _ e)))
  | inr e ↦ e
]

-- Storing an asset leaves what is fetched under another hash as it is, whatever extensions the two
-- files have.
pub fetch_other :
    (pb : Protobuf) (asset other : Asset) (s : AssetContext pb.Database)
    → HasExtension asset
    → HasExtension other
    → pb.at other.file.file_description.fnv1a_hash s.database ≡ some other
    → other.file.file_description.fnv1a_hash ≢ asset.file.file_description.fnv1a_hash
    → fetch_asset pb other.file.file_description.fnv1a_hash (integrate_asset pb asset s)
      ≡ fetch_asset pb other.file.file_description.fnv1a_hash s
fetch_other pb asset other s x y h n =
    fetch_same pb (hash_of other) (integrate_asset pb asset s) s other
      (ap (pb.at (hash_of other)) (stored_entry pb asset s)
        ∙ (pb.keeps_other (hash_of other) (hash_of asset) (clear_content asset) s.database n ∙ h))
      h
      (other_file pb asset s (asset_file_path other) (different_files other asset y x n)
        (path-not_db other))
  where
    fetch_same :
        (pb : Protobuf) (id : ℕ) (s t : AssetContext pb.Database) (a : Asset)
        → pb.at id s.database ≡ some a
        → pb.at id t.database ≡ some a
        → find (asset_file_path a) s.files ≡ find (asset_file_path a) t.files
        → fetch_asset pb id s ≡ fetch_asset pb id t
    fetch_same pb id s t a h k f = unfold fetch_asset in rw (fetch_asset, h, k, f)
