-- ===== src/Examples/Globals.antt =====
-- The module-wide lists of src/Backend.cpp, with a few globals.
use dragonegg.Base.{ℕ, ◌≡◌, ◌↔◌, refl, some, [], ◌∷◌, map, get_elem?, ◌==◌, if◌then◌else◌}
use dragonegg.Base.Int.{ℤ, pos}
use dragonegg.Globals.{ModuleLists, change_constant, metadata_string, metadata_strings, find_string}
use dragonegg.Globals.Replace.{Takes, change_constant-Takes}
use dragonegg.Globals.Strings.{no_strings, metadata_strings-distinct}

abbrev lists : ModuleLists
lists = record {
  used_globals = 1 ∷ 2 ∷ [];
  compiler_used_globals = 3 ∷ [];
  static_ctors = (2, pos 100) ∷ (4, pos 65535) ∷ [];
  static_dtors = [];
}

change_constant-Takes_example :
    Takes 2 9 lists.used_globals (change_constant 2 9 lists).used_globals
    × Takes 2 9 lists.compiler_used_globals (change_constant 2 9 lists).compiler_used_globals
    × ((change_constant 2 9 lists).static_ctors
        ≡ map (λ (f : ℕ × ℤ). (if f.0 == 2 then 9 else f.0, f.1)) lists.static_ctors)
    × ((change_constant 2 9 lists).static_dtors
        ≡ map (λ (f : ℕ × ℤ). (if f.0 == 2 then 9 else f.0, f.1)) lists.static_dtors)
change_constant-Takes_example = change_constant-Takes 2 9 lists refl

answers : (metadata_strings (5 ∷ 6 ∷ 5 ∷ []) no_strings).0 ≡ 0 ∷ 1 ∷ 0 ∷ []
unfolding metadata_strings metadata_string find_string
answers = refl

first_answer : get_elem? (metadata_strings (5 ∷ 6 ∷ 5 ∷ []) no_strings).0 0 ≡ some 0
unfolding metadata_strings metadata_string find_string
first_answer = refl

third_answer : get_elem? (metadata_strings (5 ∷ 6 ∷ 5 ∷ []) no_strings).0 2 ≡ some 0
unfolding metadata_strings metadata_string find_string
third_answer = refl

metadata_strings-distinct_example : ◌≡◌ {A = ℕ} 5 5 ↔ ◌≡◌ {A = ℕ} 0 0
metadata_strings-distinct_example =
    metadata_strings-distinct (5 ∷ 6 ∷ 5 ∷ []) 0 2 5 5 0 0 refl refl first_answer third_answer
