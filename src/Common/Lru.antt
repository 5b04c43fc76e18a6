-- ===== src/Common/Lru.antt =====
-- common/lru.go: the least-recently-used cache, a doubly linked list of entries (container/list, most
-- recent first) and a map from each key to its list element. A `*list.Element` is a number that names
-- the element; the list holds the elements themselves. The size is not negative, and the callback
-- `onEvict` is nil, as at each call of NewLRU.
pub mod Elements
pub mod Valid
pub mod Spec
pub mod Get
pub mod Add
pub mod Remove
pub mod Runs
pub mod Reads
use paradigm.Prelude.{
  ℕ, suc, Bool, true, false, Option, none, some, List, [], ◌∷◌, map, ltb, if◌then◌else◌, length,
  Comparable, nat_eq, int_eq, string_eq, pair_eq, Map, find, store, discard,
}
use mathlib.Core.Option
use Elements.{Element, element_at, list_remove, move_to_front, set_value, back}

pub record Lru {ℓ} (K V : Type ℓ) : Type ℓ where
  pub size : ℕ
  pub evict_list : List (Element K V)
  pub items : Map K ℕ
  pub fresh : ℕ

-- `NewLRU`
unfoldable pub new_lru {ℓ} : {K V : Type ℓ} → ℕ → Lru K V
new_lru size = record { size = size; evict_list = []; items = []; fresh = 0 }

module _ {ℓ} {K V : Type ℓ} where
  -- `Purge`
  unfoldable pub purge : Lru K V → Lru K V
  purge c = record c { evict_list = []; items = [] }

  -- `Len`
  unfoldable pub len : Lru K V → ℕ
  len c = length c.evict_list

  -- `GetOldest`
  unfoldable pub get_oldest : Lru K V → Option (K × V)
  get_oldest c = Option.map (λ x. (x.key, x.value)) (back c.evict_list)

module _ {ℓ} {K V : Type ℓ} ⦃e : Comparable K⦄ where
  -- `removeElement`
  unfoldable pub remove_element : Lru K V → Element K V → Lru K V
  remove_element c x = record c {
    evict_list = list_remove x.addr c.evict_list;
    items = discard x.key c.items;
  }

  -- `removeOldest`
  unfoldable pub remove_oldest : Lru K V → Lru K V
  unfolding remove_element
  remove_oldest c = elim (back c.evict_list) [ none ↦ c | some x ↦ remove_element c x ]

  -- `PushFront` and the new key of `items`
  unfoldable pub push_front : Lru K V → K → V → Lru K V
  push_front c k v = record c {
    evict_list = record { addr = c.fresh; key = k; value = v } ∷ c.evict_list;
    items = store k c.fresh c.items;
    fresh = suc c.fresh;
  }

  -- `Add`: whether an entry was evicted, and the new cache
  unfoldable pub add : Lru K V → K → V → Bool × Lru K V
  unfolding push_front
  add c k v = elim (find k c.items) [
    | some a ↦ (false, record c { evict_list = set_value a v (move_to_front a c.evict_list) })
    | none ↦
        let c' = push_front c k v in
        let evict = ltb c'.size (length c'.evict_list) in
        (evict, if evict then remove_oldest c' else c')
  ]

  -- `Get`: the value, and the cache with the entry in front
  unfoldable pub get : Lru K V → K → Option V × Lru K V
  get c k = elim (find k c.items) [
    | some a ↦
        let l = move_to_front a c.evict_list in
        (Option.map (λ x. x.value) (element_at a l), record c { evict_list = l })
    | none ↦ (none, c)
  ]

  -- `Contains`
  unfoldable pub contains : Lru K V → K → Bool
  contains c k = elim (find k c.items) [ some a ↦ true | none ↦ false ]

  -- `Peek`
  unfoldable pub peek : Lru K V → K → Option V
  peek c k = elim (find k c.items) [
    | some a ↦ Option.map (λ x. x.value) (element_at a c.evict_list)
    | none ↦ none
  ]

  -- `Remove`
  unfoldable pub remove : Lru K V → K → Bool × Lru K V
  remove c k = elim (find k c.items) [
    | some a ↦ elim (element_at a c.evict_list) [
      | some x ↦ (true, remove_element c x)
      | none ↦ (true, c)
    ]
    | none ↦ (false, c)
  ]

  -- `RemoveOldest`
  unfoldable pub pop_oldest : Lru K V → Option (K × V) × Lru K V
  pop_oldest c = elim (back c.evict_list) [
    | some x ↦ (some (x.key, x.value), remove_element c x)
    | none ↦ (none, c)
  ]
