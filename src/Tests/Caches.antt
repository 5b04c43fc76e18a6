-- ===== src/Tests/Caches.antt =====
-- common/lru.go and common/rolling_index.go at concrete inputs.
use paradigm.Prelude.{
  ℕ, ◌≡◌, refl, none, some, List, [], ◌∷◌, arith, length, drop, pos, ◌-ℤ◌, nat_eq, int_eq,
  string_eq, pair_eq, find, store, discard,
}
use paradigm.Common.Errors.{ok}
use paradigm.Common.Lru.{
  Lru, new_lru, add, get, contains, peek, remove, remove_element, pop_oldest, push_front,
  remove_oldest,
}
use paradigm.Common.Lru.Elements.{list_remove, move_to_front, set_value, back, element_at}
use paradigm.Common.Lru.Valid.{IsValid, new_lru-IsValid}
use paradigm.Common.Lru.Spec.{view}
use paradigm.Common.Lru.Add.{add-IsValid}
use paradigm.Common.Lru.Runs.{
  Call, add_call, get_call, peek_call, remove_call, pop_call, run, spec_run, run_refines,
}
use paradigm.Common.RollingIndex.{RollingIndex, new_rolling_index}
use paradigm.Common.RollingIndex
use paradigm.Common.RollingIndex.Set.{Outcome, set_item_cases}
use paradigm.Common.RollingIndex.History.{Tracks, set_item-Tracks, get-Tracks}

-- A cache of two entries, with one and with two of them.
abbrev one_entry : Lru ℕ ℕ
one_entry = (add (new_lru {K = ℕ} {V = ℕ} 2) 1 10).1

abbrev two_entries : Lru ℕ ℕ
two_entries = (add one_entry 2 20).1

abbrev calls : List (Call ℕ ℕ)
calls =
    add_call 1 10
    ∷ add_call 2 20
    ∷ get_call 1
    ∷ add_call 3 30
    ∷ get_call 2
    ∷ peek_call 1
    ∷ pop_call
    ∷ remove_call 3
    ∷ []

two_entries-IsValid : IsValid two_entries
two_entries-IsValid = add-IsValid one_entry 2 20 (add-IsValid (new_lru 2) 1 10 (new_lru-IsValid 2))

run_refines_example :
    run (new_lru {K = ℕ} {V = ℕ} 2) calls ≡ spec_run 2 (view (new_lru {K = ℕ} {V = ℕ} 2)) calls
unfolding new_lru
run_refines_example = run_refines calls (new_lru 2) (new_lru-IsValid 2)

run_test : run (new_lru {K = ℕ} {V = ℕ} 2) calls ≡ some 10 ∷ none ∷ some 10 ∷ []
unfolding run new_lru add get contains peek remove pop_oldest push_front remove_oldest
    remove_element list_remove move_to_front set_value back element_at find store discard
run_test = refl

-- An index of two items that has been given three.
abbrev three_items : RollingIndex ℕ
three_items = record { size = 2; last_index = pos 2; items = 5 ∷ 6 ∷ 7 ∷ [] }

three_items-Tracks : Tracks three_items (5 ∷ 6 ∷ 7 ∷ [])
three_items-Tracks = record {
  valid = record { positive = omega arith; held = omega arith; roomy = omega arith };
  last = refl;
  window = refl;
  recent = omega arith;
}

set_item_cases_example : Outcome three_items 9 (pos 1)
set_item_cases_example = set_item_cases three_items 9 (pos 1)

set_item-Tracks_example :
    (r' : RollingIndex ℕ) × (RollingIndex.set_item three_items 8
        (pos (length {A = ℕ} (5 ∷ 6 ∷ 7 ∷ [])))
      ≡ ok r')
    × Tracks r' (5 ∷ 6 ∷ 7 ∷ 8 ∷ [])
set_item-Tracks_example = set_item-Tracks three_items (5 ∷ 6 ∷ 7 ∷ []) 8 three_items-Tracks

get-Tracks_example : RollingIndex.get three_items (pos 1 -ℤ pos 1) ≡ ok (drop 1 (5 ∷ 6 ∷ 7 ∷ []))
get-Tracks_example = get-Tracks three_items (5 ∷ 6 ∷ 7 ∷ []) 1 three_items-Tracks (omega arith)
