-- ===== src/Network/Peer/Others.antt =====
-- What `ExcludePeer` of network/peer/peer.go leaves.
use paradigm.Prelude.{
  ℕ, zero, suc, ◌≤◌, String, ◌≡◌, refl, ap, ◌≢◌, inl, inr, some, List, [], ◌∷◌, arith, Bool-cases,
  length, get_elem?, ℤ, pos, negsuc, ◌+ℤ◌, ◌==◌, nat_eq, int_eq, string_eq, pair_eq, eq_of_==,
  ==_ne, ne_of_==,
}
use mathlib.Core.Path.{subst}
use paradigm.Network.Peer.{Peer, exclude_from, exclude_peer}

-- None of the peers has the address.
abbrev pub IsAway : String → List Peer → Type 0
IsAway a [] = Unit {0}
IsAway a (p ∷ ps) = (p.net_addr ≢ a) × IsAway a ps

-- No two of the peers have the same address.
abbrev pub IsDistinct : List Peer → Type 0
IsDistinct [] = Unit {0}
IsDistinct (p ∷ ps) = IsAway p.net_addr ps × IsDistinct ps

-- Where the peers left of `ps` are among `ps` and have another address, so are they with one more in front.
other-∷ :
    (a : String) (q : Peer) (ps left : List Peer)
    → q.net_addr ≢ a
    → ((j : ℕ) (p : Peer)
        → get_elem? left j ≡ some p
        → ((k : ℕ) × (get_elem? ps k ≡ some p)) × (p.net_addr ≢ a))
    → (j : ℕ) (p : Peer) → get_elem? (q ∷ left) j ≡ some p
    → ((k : ℕ) × (get_elem? (q ∷ ps) k ≡ some p)) × (p.net_addr ≢ a)
other-∷ a q ps left ne h zero p e = ((0, e), ground (arith, e, ne))
other-∷ a q ps left ne h (suc j) p e = let ((k, at), away) = h j p e in ((suc k, at), away)

-- A peer that is left is one of the peers, and has another address.
exclude_from-other :
    (i index : ℤ) (ps : List Peer) (a : String) (j : ℕ) (p : Peer)
    → get_elem? (exclude_from i index ps a).1 j ≡ some p
    → ((k : ℕ) × (get_elem? ps k ≡ some p)) × (p.net_addr ≢ a)
unfolding exclude_from
exclude_from-other i index [] a j p h = absurd (cc)
exclude_from-other i index (q ∷ ps) a j p h = elim (Bool-cases (q.net_addr == a)) [
  | inl same ↦
      let ((k, e), ne) = exclude_from-other (i +ℤ pos 1) i ps a j p (rw same at h) in
      ((suc k, e), ne)
  | inr other ↦
      other-∷ a q ps (exclude_from (i +ℤ pos 1) index ps a).1 (ne_of_== q.net_addr a other)
        (λ k r e. exclude_from-other (i +ℤ pos 1) index ps a k r e) j p (rw other at h)
]

-- Where no peer has the address, all are left.
exclude_from-IsAway :
    (i index : ℤ) (ps : List Peer) (a : String) → IsAway a ps → (exclude_from i index ps a).1 ≡ ps
unfolding exclude_from
exclude_from-IsAway i index [] a h = refl
exclude_from-IsAway i index (p ∷ ps) a (ne, h) =
    let other = ==_ne p.net_addr a ne in
    rw other (ap (λ qs. p ∷ qs) (exclude_from-IsAway (i +ℤ pos 1) index ps a h))

-- Where the addresses differ, at most one peer is excluded.
exclude_from-length :
    (i index : ℤ) (ps : List Peer) (a : String)
    → IsDistinct ps
    → length ps ≤ suc (length (exclude_from i index ps a).1)
unfolding exclude_from
exclude_from-length i index [] a d = omega arith
exclude_from-length i index (p ∷ ps) a (away, d) = elim (Bool-cases (p.net_addr == a)) [
  | inl same ↦
      let all =
        exclude_from-IsAway (i +ℤ pos 1) i ps a
          (subst (λ x. IsAway x ps) (eq_of_== p.net_addr a same) away) in
      rw (same, all) (omega arith)
  | inr other ↦
      let rest = exclude_from-length (i +ℤ pos 1) index ps a d in rw other (omega (arith, rest))
]

-- What `ExcludePeer` leaves are peers with another address; where the addresses differ, it leaves all
-- but at most one.
pub exclude_peer_lem :
    (ps : List Peer) (a : String)
    → ((j : ℕ) (p : Peer)
        → get_elem? (exclude_peer ps a).1 j ≡ some p
        → ((k : ℕ) × (get_elem? ps k ≡ some p)) × (p.net_addr ≢ a))
      × (IsDistinct ps → length ps ≤ suc (length (exclude_peer ps a).1))
unfolding exclude_peer
exclude_peer_lem ps a = (
  λ j p h. exclude_from-other (pos 0) (negsuc 0) ps a j p h,
  λ d. exclude_from-length (pos 0) (negsuc 0) ps a d,
)
