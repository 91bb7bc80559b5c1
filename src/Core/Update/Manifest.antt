-- ===== src/Core/Update/Manifest.antt =====
-- Manifests as a generator writes them, component after component, and what the extraction of
-- src/core/UpdateChecker.hpp is to find in them.
pub mod Search
pub mod Extract
pub mod Loop
use understory.Base.{
  ℕ, ◌≡◌, Bool, true, false, not, List, [], ◌∷◌, ◌++◌, Option, none, some, is_empty, ◌&&◌, ◌==◌,
  if◌then◌else◌,
}
use understory.Base.Strings.{same}
use understory.Core.Update.{strip, is_line_end, name_open, name_close, version_open, version_close}

-- `lead` and `between` are what stands before the name and between the name and the version.
pub record Component : Type 0 where
  pub lead : List ℕ
  pub name : List ℕ
  pub between : List ℕ
  pub version : List ℕ

abbrev pub render_behind : Component → List ℕ → List ℕ
render_behind c rest =
    name_open
    ++ (c.name
        ++ (name_close ++ (c.between ++ (version_open ++ (c.version ++ (version_close ++ rest))))))

unfoldable pub render : List Component → List ℕ → List ℕ
render [] tail = tail
render (c ∷ cs) tail = c.lead ++ render_behind c (render cs tail)

-- The literal begins nowhere in the text, whatever '<' follows the text.
unfoldable pub avoids : List ℕ → List ℕ → Bool
avoids literal [] = true
avoids literal (c ∷ cs) = elim (strip literal ((c ∷ cs) ++ 60 ∷ [])) [
  | some rest ↦ false
  | none ↦ avoids literal cs
]

unfoldable pub one_line : List ℕ → Bool
one_line [] = true
one_line (c ∷ cs) = let rest = one_line cs in if is_line_end c then false else rest

pub record IsWellFormed (c : Component) : Type 0 where
  pub lead_avoids : avoids name_open c.lead ≡ true
  pub name_avoids : avoids name_close c.name ≡ true
  pub name_one_line : one_line c.name ≡ true
  pub name_not_empty : is_empty c.name ≡ false
  pub between_avoids : avoids version_open c.between ≡ true
  pub between_one_line : one_line c.between ≡ true
  pub version_avoids : avoids version_close c.version ≡ true
  pub version_one_line : one_line c.version ≡ true

abbrev pub AllWellFormed : List Component → Type 0
AllWellFormed [] = Unit
AllWellFormed (c ∷ cs) = IsWellFormed c × AllWellFormed cs

-- The version of the last component of that name.
unfoldable pub last_version : List ℕ → List Component → Option (List ℕ)
last_version name [] = none
last_version name (c ∷ cs) = elim (last_version name cs) [
  | some version ↦ some version
  | none ↦ if same name c.name then some c.version else none
]
