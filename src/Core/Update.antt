-- ===== src/Core/Update.antt =====
-- src/core/UpdateChecker.hpp. A manifest is the list of its bytes. The download and the file
-- system are arguments: the manifest's text, or `none` for a missing file.
pub mod Versions
pub mod Manifest
pub mod Check
use understory.Base.{
  ℕ, zero, suc, Bool, true, false, not, List, [], ◌∷◌, Option, none, some, length, is_empty,
  if◌then◌else◌, ◌==◌, ◌||◌, ◌>>=◌,
}
use understory.Base.Strings.{less}
use understory.Base.Maps.{Map, find, insert_or_assign, erase}

-- The literals of the regular expression: <Name>, </Name>, <Version>, </Version>.
abbrev pub name_open : List ℕ
name_open = 60 ∷ 78 ∷ 97 ∷ 109 ∷ 101 ∷ 62 ∷ []

abbrev pub name_close : List ℕ
name_close = 60 ∷ 47 ∷ 78 ∷ 97 ∷ 109 ∷ 101 ∷ 62 ∷ []

abbrev pub version_open : List ℕ
version_open = 60 ∷ 86 ∷ 101 ∷ 114 ∷ 115 ∷ 105 ∷ 111 ∷ 110 ∷ 62 ∷ []

abbrev pub version_close : List ℕ
version_close = 60 ∷ 47 ∷ 86 ∷ 101 ∷ 114 ∷ 115 ∷ 105 ∷ 111 ∷ 110 ∷ 62 ∷ []

-- The erase-remove of '\n'.
unfoldable pub remove_newlines : List ℕ → List ℕ
remove_newlines [] = []
remove_newlines (c ∷ cs) = let rest = remove_newlines cs in if c == 10 then rest else c ∷ rest

-- The text behind a literal at its start.
unfoldable pub strip : List ℕ → List ℕ → Option (List ℕ)
strip [] text = some text
strip (p ∷ ps) [] = none
strip (p ∷ ps) (c ∷ cs) = let rest = strip ps cs in if p == c then rest else none

-- `.` of the regular expression: all but the two line ends.
abbrev pub is_line_end : ℕ → Bool
is_line_end c = (c == 10) || (c == 13)

-- `(.*?)` and the literal behind it: the shortest text before the literal, and what comes behind.
unfoldable pub lazy_until : List ℕ → List ℕ → Option (List ℕ × List ℕ)
lazy_until literal [] = elim (strip literal []) [ some rest ↦ some ([], rest) | none ↦ none ]
lazy_until literal (c ∷ cs) = elim (strip literal (c ∷ cs)) [
  | some rest ↦ some ([], rest)
  | none ↦
      let later = lazy_until literal cs in
      if is_line_end c
      then none
      else elim later [ none ↦ none | some (before, rest) ↦ some (c ∷ before, rest) ]
]

-- A match of the whole expression.
pub record Match : Type 0 where
  pub name : List ℕ
  pub version : List ℕ
  pub suffix : List ℕ

-- The match at the start of the text. Each `.*?` takes the first literal there is: a longer text
-- only leaves less for what comes behind, so the search for another choice finds nothing more.
unfoldable pub match_here : List ℕ → Option Match
match_here text = do
  behind_open ← strip name_open text
  (name, behind_name) ← lazy_until name_close behind_open
  (between, behind_between) ← lazy_until version_open behind_name
  (version, suffix) ← lazy_until version_close behind_between
  some (record { name = name; version = version; suffix = suffix })

-- `std::regex_search`: the first place at which there is a match.
unfoldable pub regex_search : List ℕ → Option Match
regex_search [] = match_here []
regex_search (c ∷ cs) = elim (match_here (c ∷ cs)) [ some m ↦ some m | none ↦ regex_search cs ]

-- The loop over the groups. An empty first group leaves the key empty, and the second group becomes
-- the key, so that nothing is stored.
unfoldable pub store_groups : Match → Map (List ℕ) → Map (List ℕ)
store_groups m out = if is_empty m.name then out else insert_or_assign m.name m.version out

-- The loop over the matches.
unfoldable pub extract_from : ℕ → List ℕ → Map (List ℕ) → Map (List ℕ)
extract_from zero text out = out
extract_from (suc f) text out = elim (regex_search text) [
  | none ↦ out
  | some m ↦ extract_from f m.suffix (store_groups m out)
]

-- A match takes at least one byte, so there are fewer matches than bytes and one.
unfoldable pub extract_versions_from_manifest : List ℕ → Map (List ℕ)
extract_versions_from_manifest manifest_content =
    let text = remove_newlines manifest_content in extract_from (suc (length text)) text []

unfoldable pub is_remote_version_newer_than_local : List ℕ → List ℕ → Bool
is_remote_version_newer_than_local local_version remote_version = less local_version remote_version

-- The loop over the local components, and the test of what it leaves of the remote ones.
unfoldable pub compare_components : Map (List ℕ) → Map (List ℕ) → Bool
compare_components [] remote = not (is_empty remote)
compare_components ((component, local_version) ∷ local) remote = elim (find component remote) [
  | none ↦ true
  | some remote_version ↦ elim (is_remote_version_newer_than_local local_version remote_version) [
    | true ↦ true
    | false ↦ compare_components local (erase component remote)
  ]
]

unfoldable pub get_local_manifest_content : Option (List ℕ) → List ℕ
get_local_manifest_content none = []
get_local_manifest_content (some content) = content

-- The answer is `false` where a manifest is missing, empty, or without a component.
unfoldable pub is_newer_version_available : Option (List ℕ) → List ℕ → Bool
is_newer_version_available local_file remote_raw =
    let local_raw = get_local_manifest_content local_file in
    let local_components = extract_versions_from_manifest local_raw in
    let remote_versions = extract_versions_from_manifest remote_raw in
    let answer = compare_components local_components remote_versions in
    if is_empty local_raw
    then false
    else (if is_empty local_components
        then false
        else (if is_empty remote_raw
            then false
            else (if is_empty remote_versions then false else answer)))
