-- ===== src/Sequentia/Queries.antt =====
-- core/sequentia/sequentia.go: ancestry, and when a comet sees or strongly sees another. Each query is
-- computed once and then read from its LRU.
pub mod Quorum
use paradigm.Prelude.{
  ℕ, suc, String, Bool, true, false, ◌&&◌, Option, none, some, List, [], ◌∷◌, leb, if◌then◌else◌,
  leb_ℤ, eqb_ℤ, Comparable, ◌==◌, nat_eq, int_eq, string_eq, pair_eq,
}
use paradigm.Common.Lru
use paradigm.Common.Lru.{Lru}
use paradigm.Sequentia.Graph.{
  Graph, M, done, failed, panicked, ◌>>=◌, ◌>>◌, return, state, at_index, id_of, most_plurality,
  get_comet,
}
use paradigm.Sequentia.Store.{Store}
use paradigm.Types.Comet.{Comet, EventCoordinates}

-- One of the LRUs of a graph.
pub record CacheOf (S K V : Type 0) : Type 0 where
  pub read : Graph S → Lru K V
  pub write : Lru K V → Graph S → Graph S

module _ {S : Type 0} where
  abbrev pub ancestor_cache : CacheOf S (String × String) Bool
  ancestor_cache = record {
    read = λ g. g.ancestor_cache;
    write = λ c g. record g { ancestor_cache = c };
  }

  abbrev pub self_ancestor_cache : CacheOf S (String × String) Bool
  self_ancestor_cache = record {
    read = λ g. g.self_ancestor_cache;
    write = λ c g. record g { self_ancestor_cache = c };
  }

  abbrev pub oldest_self_ancestor_cache : CacheOf S (String × String) String
  oldest_self_ancestor_cache = record {
    read = λ g. g.oldest_self_ancestor_cache;
    write = λ c g. record g { oldest_self_ancestor_cache = c };
  }

  abbrev pub strongly_see_cache : CacheOf S (String × String) Bool
  strongly_see_cache = record {
    read = λ g. g.strongly_see_cache;
    write = λ c g. record g { strongly_see_cache = c };
  }

  -- `if c, ok := cache.Get(key); ok { return c }`, else compute, `cache.Add` and return
  unfoldable pub cached : {K V : Type 0} ⦃e : Comparable K⦄ → CacheOf S K V → K → M S V → M S V
  cached cache k compute g =
      let (hit, c) = Lru.get (cache.read g) k in
      let g' = cache.write c g in
      elim hit [
        | some v ↦ done v g'
        | none ↦ elim (compute g') [
          | done v g'' ↦ done v (cache.write (Lru.add (cache.read g'') k v).1 g'')
          | failed e g'' ↦ failed e g''
          | panicked ↦ panicked
        ]
      ]

-- the loop of `stronglySee`: for how many participants the last ancestor of x is the first descendant
-- of y or later; a list of descendants that is too short panics
unfoldable pub count_between : List EventCoordinates → List EventCoordinates → Option ℕ
count_between [] fds = some 0
count_between (la ∷ las) [] = none
count_between (la ∷ las) (fd ∷ fds) = elim (count_between las fds) [
  | some c ↦ some (if leb_ℤ fd.index la.index then suc c else c)
  | none ↦ none
]

module _ {S : Type 0} (st : Store S) where
  -- `ancestor`
  unfoldable pub ancestor : String → String → M S Bool
  unfolding get_comet
  ancestor x y = if x == y then return true else do
    ex ← get_comet st x
    elim ex [
      | none ↦ return false
      | some cx ↦ do
        ey ← get_comet st y
        elim ey [
          | none ↦ return false
          | some cy ↦ do
            g ← state
            la ← at_index cx.last_ancestors (id_of g.participants cy.creator)
            return (leb_ℤ cy.body.index la.index)
        ]
    ]

  -- `AncestorOf`
  unfoldable pub ancestor_of : String → String → M S Bool
  ancestor_of x y = cached ancestor_cache (x, y) (ancestor x y)

  -- `selfAncestor`
  unfoldable pub self_ancestor : String → String → M S Bool
  unfolding get_comet
  self_ancestor x y = if x == y then return true else do
    ex ← get_comet st x
    elim ex [
      | none ↦ return false
      | some cx ↦ do
        ey ← get_comet st y
        elim ey [
          | none ↦ return false
          | some cy ↦ do
            g ← state
            return (
                eqb_ℤ (id_of g.participants cx.creator) (id_of g.participants cy.creator)
                && leb_ℤ cy.body.index cx.body.index)
        ]
    ]

  -- `SelfAncestor`
  unfoldable pub self_ancestor_of : String → String → M S Bool
  self_ancestor_of x y = cached self_ancestor_cache (x, y) (self_ancestor x y)

  -- `See`
  unfoldable pub see : String → String → M S Bool
  see x y = ancestor_of x y

  -- `oldestSelfAncestorToSee`
  unfoldable pub oldest_self_ancestor : String → String → M S String
  unfolding get_comet
  oldest_self_ancestor x y = do
    ex ← get_comet st x
    elim ex [
      | none ↦ return ""
      | some cx ↦ do
        ey ← get_comet st y
        elim ey [
          | none ↦ return ""
          | some cy ↦ do
            g ← state
            a ← at_index cy.first_descendants (id_of g.participants cx.creator)
            return (if leb_ℤ a.index cx.body.index then a.hash else "")
        ]
    ]

  -- `OldestSelfAncestorToSee`
  unfoldable pub oldest_self_ancestor_to_see : String → String → M S String
  oldest_self_ancestor_to_see x y =
      cached oldest_self_ancestor_cache (x, y) (oldest_self_ancestor x y)

  -- `stronglySee`
  unfoldable pub strongly_see_uncached : String → String → M S Bool
  unfolding get_comet count_between most_plurality
  strongly_see_uncached x y = do
    ex ← get_comet st x
    elim ex [
      | none ↦ return false
      | some cx ↦ do
        ey ← get_comet st y
        elim ey [
          | none ↦ return false
          | some cy ↦ elim (count_between cx.last_ancestors cy.first_descendants) [
            | none ↦ λ g. panicked
            | some c ↦ do q ← most_plurality; return (leb q c)
          ]
        ]
    ]

  -- `StronglySee`
  unfoldable pub strongly_see : String → String → M S Bool
  strongly_see x y = cached strongly_see_cache (x, y) (strongly_see_uncached x y)
