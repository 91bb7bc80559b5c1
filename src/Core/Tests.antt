-- ===== src/Core/Tests.antt =====
-- Runs on concrete input, and the results of Core at concrete arguments.
use understory.Base.{
  length, ◌≤◌, ℕ, ◌<◌, ◌^◌, ◌≡◌, ◌≢◌, refl, ◌↔◌, true, false, List, [], ◌∷◌, Option, none, some,
  arith,
}
use understory.Base.Strings.{same, less}
use understory.Base.Maps.{find, erase, insert_or_assign}
use understory.Core.Update.{
  Match, remove_newlines, strip, lazy_until, match_here, regex_search, store_groups, extract_from,
  extract_versions_from_manifest, is_remote_version_newer_than_local, compare_components,
  is_newer_version_available, get_local_manifest_content, name_open,
}
use understory.Core.Update.Versions.{UpToDate, first_difference_decides}
use understory.Core.Update.Manifest.{
  Component, render, avoids, one_line, AllWellFormed, last_version,
}
use understory.Core.Update.Manifest.Extract.{extract_rendered}
use understory.Core.Update.Manifest.Loop.{AreRounds, store_all, extract_from_ends}
use understory.Core.Update.Check.{rendered_iff}
use understory.Core.Poll.{
  UpdateChecker, invalid, ready, starts, ends, fails, polls, Event, run, step, start, poll,
  try_to_launch_updater, new_update_checker, poll_decides, pending,
}
use understory.Core.Poll.Failures.{has_start, has_poll, failed_check_throws}
use understory.Core.Fnv.{hash_64_fnv1a, loop, step_64, hash_64-one_byte}

-- A component "a" of version 0.9, on lines of its own.
abbrev here : List ℕ
here =
    60 ∷ 80 ∷ 62 ∷ 10 ∷ 60 ∷ 78 ∷ 97 ∷ 109 ∷ 101 ∷ 62 ∷ 97 ∷ 60 ∷ 47 ∷ 78 ∷ 97 ∷ 109 ∷ 101 ∷ 62 ∷ 10
    ∷ 60 ∷ 86 ∷ 101 ∷ 114 ∷ 115 ∷ 105 ∷ 111 ∷ 110 ∷ 62 ∷ 48 ∷ 46 ∷ 57 ∷ 60 ∷ 47 ∷ 86 ∷ 101 ∷ 114
    ∷ 115 ∷ 105 ∷ 111 ∷ 110 ∷ 62 ∷ 10 ∷ 60 ∷ 47 ∷ 80 ∷ 62 ∷ []

-- The same component of version 0.10.
abbrev there : List ℕ
there =
    60 ∷ 80 ∷ 62 ∷ 10 ∷ 60 ∷ 78 ∷ 97 ∷ 109 ∷ 101 ∷ 62 ∷ 97 ∷ 60 ∷ 47 ∷ 78 ∷ 97 ∷ 109 ∷ 101 ∷ 62 ∷ 10
    ∷ 60 ∷ 86 ∷ 101 ∷ 114 ∷ 115 ∷ 105 ∷ 111 ∷ 110 ∷ 62 ∷ 48 ∷ 46 ∷ 49 ∷ 48 ∷ 60 ∷ 47 ∷ 86 ∷ 101
    ∷ 114 ∷ 115 ∷ 105 ∷ 111 ∷ 110 ∷ 62 ∷ 10 ∷ 60 ∷ 47 ∷ 80 ∷ 62 ∷ []

abbrev component : List ℕ → Component
component version = record {
  lead = 60 ∷ 80 ∷ 62 ∷ [];
  name = 97 ∷ [];
  between = [];
  version = version;
}

abbrev nine : List ℕ
nine = 48 ∷ 46 ∷ 57 ∷ []

abbrev ten : List ℕ
ten = 48 ∷ 46 ∷ 49 ∷ 48 ∷ []

abbrev last_line : List ℕ
last_line = 60 ∷ 47 ∷ 80 ∷ 62 ∷ []

nine-AllWellFormed : AllWellFormed (component nine ∷ [])
unfolding avoids one_line strip
nine-AllWellFormed = (
  record {
    lead_avoids = refl;
    name_avoids = refl;
    name_one_line = refl;
    name_not_empty = refl;
    between_avoids = refl;
    between_one_line = refl;
    version_avoids = refl;
    version_one_line = refl;
  },
  tt,
)

ten-AllWellFormed : AllWellFormed (component ten ∷ [])
unfolding avoids one_line strip
ten-AllWellFormed = (
  record {
    lead_avoids = refl;
    name_avoids = refl;
    name_one_line = refl;
    name_not_empty = refl;
    between_avoids = refl;
    between_one_line = refl;
    version_avoids = refl;
    version_one_line = refl;
  },
  tt,
)

here_rendered : remove_newlines here ≡ render (component nine ∷ []) last_line
unfolding remove_newlines render
here_rendered = refl

there_rendered : remove_newlines there ≡ render (component ten ∷ []) last_line
unfolding remove_newlines render
there_rendered = refl

last_line-avoids : avoids name_open last_line ≡ true
unfolding avoids strip
last_line-avoids = refl

extract_rendered_example :
    find (97 ∷ []) (extract_versions_from_manifest here)
    ≡ last_version (97 ∷ []) (component nine ∷ [])
extract_rendered_example =
    extract_rendered here (component nine ∷ []) last_line (97 ∷ []) here_rendered nine-AllWellFormed
      last_line-avoids

-- 0.10 is behind 0.9 for the check.
ten_is_no_update : is_newer_version_available (some here) there ≡ false
unfolding is_newer_version_available get_local_manifest_content extract_versions_from_manifest
    extract_from remove_newlines regex_search match_here lazy_until strip store_groups
    insert_or_assign compare_components erase find is_remote_version_newer_than_local less same
ten_is_no_update = refl

rendered_iff_example : (is_newer_version_available (some here) there ≡ false) ↔ (
    (name : List ℕ)
    → UpToDate (last_version name (component nine ∷ [])) (last_version name (component ten ∷ [])))
rendered_iff_example =
    rendered_iff here there (component nine) (component ten) [] [] last_line last_line here_rendered
      nine-AllWellFormed last_line-avoids there_rendered ten-AllWellFormed last_line-avoids

abbrev nothing : Option (List ℕ)
nothing = none

first_difference_decides_example :
    is_remote_version_newer_than_local (48 ∷ 46 ∷ 57 ∷ []) (48 ∷ 46 ∷ 49 ∷ 48 ∷ []) ≡ false
first_difference_decides_example =
    first_difference_decides (48 ∷ 46 ∷ []) [] (48 ∷ []) 57 49 (λ e. omega arith)

extract_from_ends_example :
    (ms : List Match) × AreRounds here ms
    × (length ms ≤ length here)
    × (extract_from 100 here [] ≡ store_all ms [])
extract_from_ends_example = extract_from_ends 100 here [] (omega arith)

-- Started, ended with the answer that there is an update, and polled twice.
abbrev polled_twice : List Event
polled_twice = starts ∷ ends true ∷ polls true ∷ polls true ∷ []

abbrev launched_one : UpdateChecker
launched_one = record { future = invalid; resolved = true; launched = 1 }

polled_twice-run : run polled_twice new_update_checker ≡ some launched_one
unfolding run step start poll try_to_launch_updater new_update_checker
polled_twice-run = refl

abbrev answered_yes : UpdateChecker
answered_yes = record { future = ready true; resolved = false; launched = 0 }

poll_decides_example :
    (v : UpdateChecker) × (run (polls true ∷ starts ∷ fails ∷ polls true ∷ []) answered_yes
      ≡ some v)
    × (v.launched ≡ 1)
poll_decides_example =
    poll_decides answered_yes true true (starts ∷ fails ∷ polls true ∷ []) refl refl

abbrev under_way : UpdateChecker
under_way = record { future = pending; resolved = false; launched = 0 }

failed_check_throws_example : run (fails ∷ ends true ∷ polls true ∷ []) under_way ≡ none
unfolding has_start has_poll
failed_check_throws_example = failed_check_throws (ends true ∷ polls true ∷ []) under_way refl refl

-- The hash of "a".
hash_a : hash_64_fnv1a (97 ∷ []) ≡ 0xaf63dc4c8601ec8c
unfolding hash_64_fnv1a loop step_64
hash_a = refl

hash_64-one_byte_example :
    (hash_64_fnv1a (1 ∷ 2 ∷ 3 ∷ []) ≢ hash_64_fnv1a (1 ∷ 9 ∷ 3 ∷ []))
    × (hash_64_fnv1a (1 ∷ []) < 2 ^ 64)
hash_64-one_byte_example =
    hash_64-one_byte (1 ∷ []) (3 ∷ []) 2 9 (omega arith, tt) (omega arith, tt) (omega arith)
      (omega arith) (λ e. omega arith)
