-- ===== src/Sequentia/Insert/Frame.antt =====
-- The parts of an insertion in core/sequentia/sequentia.go that change nothing but the store.
use paradigm.Prelude.{
  String, Option, none, some, List, [], ◌∷◌, arith, ℤ, nat_eq, int_eq, string_eq, pair_eq, find,
}
use paradigm.Sequentia.Graph.{other_parent_unknown}
use paradigm.Sequentia.Graph.Frame.{
  Keeps, Keeps-return, Keeps-fail, Keeps-state, Keeps-store, Keeps-lift, Keeps-bind,
  Keeps-get_comet, Keeps-require_comet, Keeps-if,
}
use paradigm.Sequentia.Insert.{
  Crypto, check_self_parent, check_other_parent, check_listed, check_known, set_wire_info_of,
  self_parent_index_of, other_parent_info_of, sign_block, get_block, record_known,
  record_block_signature, record_block_signatures, store_comet,
}
use paradigm.Sequentia.Store.{Store}
use paradigm.Types.Block.{Block, BlockSignature}
use paradigm.Types.Comet.{Comet}

module _ {S : Type 0} (st : Store S) where
  pub Keeps-check_self_parent : (c : Comet) → Keeps (check_self_parent st c)
  unfolding check_self_parent
  Keeps-check_self_parent c = Keeps-bind _ _ Keeps-state λ g.
      Keeps-bind _ _ (Keeps-lift (st.last_event_from g.store c.creator))
        λ p. Keeps-if _ _ _ (Keeps-return tt) (Keeps-fail _)

  Keeps-check_listed : (c : Comet) (o : Option String) → Keeps (check_listed st c o)
  unfolding check_listed
  Keeps-check_listed c none = Keeps-fail other_parent_unknown
  Keeps-check_listed c (some o) = Keeps-if _ _ _ (Keeps-return tt) (Keeps-fail _)

  Keeps-check_known : (c : Comet) (o : Option Comet) → Keeps (check_known st c o)
  unfolding check_known
  Keeps-check_known c (some d) = Keeps-return tt
  Keeps-check_known c none = Keeps-bind _ _ Keeps-state λ g.
      Keeps-bind _ _ (Keeps-lift (st.get_root g.store c.creator))
        λ root. Keeps-if _ _ _ (Keeps-return tt) (Keeps-check_listed c (find c.hex root.others))

  pub Keeps-check_other_parent : (c : Comet) → Keeps (check_other_parent st c)
  unfolding check_other_parent
  Keeps-check_other_parent c =
      Keeps-if _ _ _ (Keeps-return tt)
        (Keeps-bind _ _ (Keeps-get_comet st c.body.other_parent) λ o. Keeps-check_known c o)

  Keeps-self_parent_index : (c : Comet) → Keeps (self_parent_index_of st c)
  unfolding self_parent_index_of
  Keeps-self_parent_index c = Keeps-bind _ _ Keeps-state λ g.
      Keeps-if _ _ _
        (Keeps-bind _ _ (Keeps-lift (st.get_root g.store c.creator))
          λ root. Keeps-return root.index)
        (Keeps-bind _ _ (Keeps-require_comet st c.body.self_parent) λ d. Keeps-return d.body.index)

  Keeps-other_parent_info : (c : Comet) → Keeps (other_parent_info_of st c)
  unfolding other_parent_info_of
  Keeps-other_parent_info c = Keeps-if _ _ _ (Keeps-return _) (
      Keeps-bind _ _ (Keeps-require_comet st c.body.other_parent)
        λ d. Keeps-bind _ _ Keeps-state λ g. Keeps-return _)

  pub Keeps-set_wire_info : (c : Comet) → Keeps (set_wire_info_of st c)
  unfolding set_wire_info_of
  Keeps-set_wire_info c = Keeps-bind _ _ (Keeps-self_parent_index c) λ i.
      Keeps-bind _ _ (Keeps-other_parent_info c) λ p. Keeps-bind _ _ Keeps-state λ g. Keeps-return _

  module _ (crypto : Crypto) where
    Keeps-sign_block : (bs : BlockSignature) (o : Option Block) → Keeps (sign_block st crypto bs o)
    unfolding sign_block
    Keeps-sign_block bs none = record { keeps = λ g g' b e. ground arith }
    Keeps-sign_block bs (some block) = record { keeps = λ g g' b e. ground arith }

    Keeps-get_block : (i : ℤ) → Keeps (get_block st crypto i)
    unfolding get_block
    Keeps-get_block i = record { keeps = λ g g' b e. ground arith }

    Keeps-record_known : (bs : BlockSignature) (o : Option ℤ) → Keeps (record_known st crypto bs o)
    unfolding record_known
    Keeps-record_known bs none = Keeps-return tt
    Keeps-record_known bs (some id) =
        Keeps-bind _ _ (Keeps-get_block bs.index) λ b. Keeps-sign_block bs b

    pub Keeps-record_block_signatures :
        (bss : List BlockSignature) → Keeps (record_block_signatures st crypto bss)
    unfolding record_block_signatures record_block_signature
    Keeps-record_block_signatures [] = Keeps-return tt
    Keeps-record_block_signatures (bs ∷ bss) =
        Keeps-bind _ _ (Keeps-bind _ _ Keeps-state λ g. Keeps-record_known bs _)
          (λ u. Keeps-record_block_signatures bss)

    pub Keeps-store_comet : (c : Comet) → Keeps (store_comet st crypto c)
    unfolding store_comet
    Keeps-store_comet c =
        Keeps-bind _ _ Keeps-state λ g. Keeps-bind _ _ (Keeps-lift _) λ s. Keeps-store s
