-- ===== src/Sequentia/Graph.antt =====
-- core/sequentia/sequentia.go: the state of a CometGraph, and the monad of its methods. A method ends
-- with a value, with an error, or with a panic; an error keeps the changes made before it. The blocks
-- sent to `commitCh` are a list.
pub mod Frame
use paradigm.Prelude.{
  ℕ, ◌+◌, ◌*◌, ◌/◌, String, Bool, Option, none, some, List, [], ◌∷◌, length, get_elem?, ℤ, pos,
  negsuc, nat_eq, int_eq, string_eq, pair_eq, Map, find, store,
}
use paradigm.Common.Errors.{Result, ok, err, panic, StoreErr}
use paradigm.Common.Lru
use paradigm.Common.Lru.{Lru, new_lru}
use paradigm.Sequentia.Store.{Store}
use paradigm.Storage.Caches.{ParentRoundInfo}
use paradigm.Types.Block.{Block}
use paradigm.Types.Comet.{Comet}

pub record Graph (S : Type 0) : Type 0 where
  pub participants : Map String ℤ
  pub reverse_participants : Map ℤ String
  pub store : S
  pub undetermined_events : List String
  pub undecided_rounds : List ℤ
  pub last_consensus_round : Option ℤ
  pub last_block_index : ℤ
  pub last_commited_round_events : ℕ
  pub consensus_transactions : ℕ
  pub pending_loaded_events : ℤ
  pub topological_index : ℕ
  pub most_plurality : ℕ
  pub has_commit_ch : Bool
  pub commits : List Block
  pub ancestor_cache : Lru (String × String) Bool
  pub self_ancestor_cache : Lru (String × String) Bool
  pub oldest_self_ancestor_cache : Lru (String × String) String
  pub strongly_see_cache : Lru (String × String) Bool
  pub parent_round_cache : Lru String ParentRoundInfo
  pub round_cache : Lru String ℤ

pub data GraphErr : Type 0 where
  of_store : StoreErr → GraphErr
  invalid_signature : GraphErr
  self_parent_not_last : GraphErr
  other_parent_unknown : GraphErr
  creator_unknown : GraphErr
  negative_round : GraphErr
  not_hex : GraphErr
  cannot_sign : GraphErr

pub data Outcome (S : Type 0) (A : Type 0) : Type 0 where
  done : A → Graph S → Outcome S A
  failed : GraphErr → Graph S → Outcome S A
  panicked : Outcome S A

abbrev pub M : Type 0 → Type 0 → Type 0
M S A = Graph S → Outcome S A

-- `m[k]` of a map of numbers: 0 where there is no entry
abbrev pub id_of : Map String ℤ → String → ℤ
id_of m k = elim (find k m) [ some i ↦ i | none ↦ pos 0 ]

-- `2*len(participants)/3 + 1`
abbrev pub plurality : ℕ → ℕ
plurality n = 2 * n / 3 + 1

-- the loop over the participants of `BuildCometGraph`
unfoldable pub reversed : Map String ℤ → Map ℤ String
reversed [] = []
reversed ((pk, id) ∷ m) = store id pk (reversed m)

module _ {S : Type 0} where
  infixl 5 ◌>>=◌ ◌>>◌
  abbrev pub ◌>>=◌ : {A B : Type 0} → M S A → (A → M S B) → M S B
  ◌>>=◌ m f g = elim (m g) [ done a g' ↦ f a g' | failed e g' ↦ failed e g' | panicked ↦ panicked ]

  abbrev pub ◌>>◌ : {B : Type 0} → M S (Unit {0}) → M S B → M S B
  m >> k = m >>= λ _. k

  abbrev pub return : {A : Type 0} → A → M S A
  return a g = done a g

  abbrev pub fail : {A : Type 0} → GraphErr → M S A
  fail e g = failed e g

  abbrev pub crash : {A : Type 0} → M S A
  crash g = panicked

  abbrev pub state : M S (Graph S)
  state g = done g g

  abbrev pub modify : (Graph S → Graph S) → M S (Unit {0})
  modify f g = done tt (f g)

  -- The outcome of a store's call, as the method's own.
  abbrev pub lift : {A : Type 0} → Result A → M S A
  lift (ok a) g = done a g
  lift (err e) g = failed (of_store e) g
  lift panic g = panicked

  -- `xs[i]` and `xs[i]` at a Go index
  abbrev pub at_index : {A : Type 0} → List A → ℤ → M S A
  at_index xs (pos n) g = elim (get_elem? xs n) [ some a ↦ done a g | none ↦ panicked ]
  at_index xs (negsuc n) g = panicked

  -- `MostPlurality`
  unfoldable pub most_plurality : M S ℕ
  most_plurality g = done g.most_plurality g

module _ {S : Type 0} (st : Store S) where
  -- `BuildCometGraph`, called for the first time
  unfoldable pub build_comet_graph : Map String ℤ → S → Bool → Graph S
  unfolding reversed
  build_comet_graph participants s has_commit_ch =
      let n = st.cache_size s in
      record {
        participants = participants;
        reverse_participants = reversed participants;
        store = s;
        undetermined_events = [];
        undecided_rounds = pos 0 ∷ [];
        last_consensus_round = none;
        last_block_index = negsuc 0;
        last_commited_round_events = 0;
        consensus_transactions = 0;
        pending_loaded_events = pos 0;
        topological_index = 0;
        most_plurality = plurality (length participants);
        has_commit_ch = has_commit_ch;
        commits = [];
        ancestor_cache = new_lru n;
        self_ancestor_cache = new_lru n;
        oldest_self_ancestor_cache = new_lru n;
        strongly_see_cache = new_lru n;
        parent_round_cache = new_lru n;
        round_cache = new_lru n;
      }

  -- `Store.GetComet` where the caller tests only whether there is an error
  unfoldable pub get_comet : String → M S (Option Comet)
  get_comet k g =
      let (res, s) = st.get_comet g.store k in
      let g' = record g { store = s } in
      elim res [ ok c ↦ done (some c) g' | err e ↦ done none g' | panic ↦ panicked ]

  -- `Store.GetComet` where the caller returns the error
  unfoldable pub require_comet : String → M S Comet
  require_comet k g =
      let (res, s) = st.get_comet g.store k in
      let g' = record g { store = s } in
      elim res [ ok c ↦ done c g' | err e ↦ failed (of_store e) g' | panic ↦ panicked ]
