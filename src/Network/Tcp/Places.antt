-- ===== src/Network/Tcp/Places.antt =====
-- Where the connections of network/tcp/net_transport.go are: in the pool, with a call, or released.
use mathlib.Core.Path.{subst}
use paradigm.Prelude.{
  ℕ, suc, ◌+◌, String, ◌≡◌, refl, sym, ap, ◌∙◌, ◌⊎◌, inl, inr, Bool, true, not, ◌&&◌, Option, none,
  some, List, [], ◌∷◌, ◌++◌, arith, ltb, if◌then◌else◌, Bool-cases, length, length-append, ℤ, pos,
  ◌≤ℤ◌, ltb_ℤ, int_laws, ltb_ℤ→lt, ◌==◌, nat_eq, int_eq, string_eq, pair_eq, eq_of_==, Map, find,
  store,
}
use paradigm.Common.Effects.{Ran, gives, fails, panics}
use paradigm.Network.Tcp.{
  Conn, NetErr, Stream, split_last, or_empty, Transport, release, pooled, get_pooled_conn,
  dial_conn, get_conn, return_conn,
}

-- How often a connection stands in a list, and in a pool.
abbrev pub times_in : ℕ → List Conn → ℕ
times_in i [] = 0
times_in i (c ∷ cs) = (if c.id == i then 1 else 0) + times_in i cs

abbrev pub times_pooled : ℕ → Map String (List Conn) → ℕ
times_pooled i [] = 0
times_pooled i ((k, cs) ∷ m) = times_in i cs + times_pooled i m

pub times_in-append :
    (i : ℕ) (cs ds : List Conn) → times_in i (cs ++ ds) ≡ times_in i cs + times_in i ds
times_in-append i [] ds = omega arith
times_in-append i (c ∷ cs) ds = omega (arith, times_in-append i cs ds)

times_in-split_last :
    (i : ℕ) (c : Conn) (cs : List Conn)
    → times_in i (c ∷ cs) ≡ times_in i (split_last c cs).0 + times_in i ((split_last c cs).1 ∷ [])
times_in-split_last i c [] = omega arith
times_in-split_last i c (d ∷ ds) = omega (arith, times_in-split_last i d ds)

times_pooled-store :
    (i : ℕ) (k : String) (cs : List Conn) (m : Map String (List Conn))
    → times_pooled i (store k cs m) + times_in i (or_empty (find k m))
      ≡ times_pooled i m + times_in i cs
unfolding store find
times_pooled-store i k cs [] = omega arith
times_pooled-store i k cs ((j, ds) ∷ m) = elim (Bool-cases (j == k)) [
  | inl e ↦ rw e (omega arith)
  | inr e ↦ rw e (omega (arith, times_pooled-store i k cs m))
]

abbrev pub AllTo : String → List Conn → Type 0
AllTo k [] = Unit
AllTo k (c ∷ cs) = (c.target ≡ k) × AllTo k cs

AllTo-append : (k : String) (cs ds : List Conn) → AllTo k cs → AllTo k ds → AllTo k (cs ++ ds)
AllTo-append k [] ds h j = j
AllTo-append k (c ∷ cs) ds (e, h) j = (e, AllTo-append k cs ds h j)

AllTo-parts : (k : String) (cs ds : List Conn) → AllTo k (cs ++ ds) → AllTo k cs × AllTo k ds
AllTo-parts k [] ds h = (tt, h)
AllTo-parts k (c ∷ cs) ds (e, h) = let (front, back) = AllTo-parts k cs ds h in ((e, front), back)

-- The connections of a pool are to the target that they are kept under, and there are not too many of them.
pub record Fits (max_pool : ℤ) (target : String) (cs : List Conn) : Type 0 where
  pub few : (length cs ≡ 0) ⊎ (pos (length cs) ≤ℤ max_pool)
  pub to_target : AllTo target cs

abbrev pub AllFit : ℤ → Map String (List Conn) → Type 0
AllFit n [] = Unit
AllFit n ((k, cs) ∷ m) = Fits n k cs × AllFit n m

Fits-empty : (n : ℤ) (k : String) → Fits n k []
Fits-empty n k = record { few = inl refl; to_target = tt }

AllFit-find :
    (n : ℤ) (k : String) (m : Map String (List Conn)) → AllFit n m → Fits n k (or_empty (find k m))
unfolding find
AllFit-find n k [] h = Fits-empty n k
AllFit-find n k ((j, cs) ∷ m) (f, h) = elim (Bool-cases (j == k)) [
  | inl e ↦ rw e (subst (λ x. Fits n x cs) (eq_of_== j k e) f)
  | inr e ↦ rw e (AllFit-find n k m h)
]

AllFit-store :
    (n : ℤ) (k : String) (cs : List Conn) (m : Map String (List Conn))
    → Fits n k cs
    → AllFit n m
    → AllFit n (store k cs m)
unfolding store
AllFit-store n k cs [] f h = (f, tt)
AllFit-store n k cs ((j, ds) ∷ m) f (g, h) = elim (Bool-cases (j == k)) [
  | inl e ↦ rw e (f, h)
  | inr e ↦ rw e (g, AllFit-store n k cs m f h)
]

length-split_last : (c : Conn) (cs : List Conn) → length (split_last c cs).0 ≡ length cs
length-split_last c [] = refl
length-split_last c (d ∷ ds) = ap suc (length-split_last d ds)

-- What is before the last of the connections, and the last.
split_last-append :
    (c : Conn) (cs : List Conn) → (split_last c cs).0 ++ ((split_last c cs).1 ∷ []) ≡ c ∷ cs
split_last-append c [] = refl
split_last-append c (d ∷ ds) = ap (λ xs. c ∷ xs) (split_last-append d ds)

Fits-front : (n : ℤ) (k : String) (cs ds : List Conn) → Fits n k (cs ++ ds) → Fits n k cs
Fits-front n k cs ds f = record {
  few = elim f.few [
    | inl h ↦ inl (omega (arith, h, length-append cs ds))
    | inr h ↦ inr (omega (int_laws, h, length-append cs ds))
  ];
  to_target = (AllTo-parts k cs ds f.to_target).0;
}

Fits-last :
    (n : ℤ) (k : String) (cs : List Conn) (c : Conn) → Fits n k (cs ++ (c ∷ [])) → c.target ≡ k
Fits-last n k cs c f = (AllTo-parts k cs (c ∷ []) f.to_target).1.0

Fits-snoc :
    (n : ℤ) (cs : List Conn) (c : Conn)
    → Fits n c.target cs
    → ltb_ℤ (pos (length cs)) n ≡ true
    → Fits n c.target (cs ++ (c ∷ []))
Fits-snoc n cs c f h = record {
  few = inr (omega (int_laws, ltb_ℤ→lt (pos (length cs)) n h, length-append cs (c ∷ [])));
  to_target = AllTo-append c.target cs (c ∷ []) f.to_target (refl, tt);
}

module _ {N Q R : Type 0} (stream : Stream N Q R) where
  -- Each connection that was dialed is in one place: in the pool, with one of the calls that hold one, or among
  -- those that were released. The pools are not too large, and are kept under the right target.
  pub record Placed (t : Transport stream) (held : List Conn) : Type 0 where
    pub once :
        (i : ℕ)
        → times_pooled i t.conn_pool + times_in i held + times_in i t.released
          ≡ (if ltb i t.dialed then 1 else 0)
    pub fits : AllFit t.max_pool t.conn_pool

  pub release-Placed :
      (c : Conn) (t : Transport stream) (held : List Conn)
      → Placed t (c ∷ held)
      → Placed (release stream c t) held
  unfolding release
  release-Placed c t held p = record { once = λ i. omega (arith, p.once i); fits = p.fits }

  second : (a b : Bool) → a && b ≡ true → b ≡ true
  second a b h = ground (arith, h)

  returned :
      (i : ℕ) (m : Map String (List Conn)) (c : Conn) (held cs : List Conn) (r n : ℕ)
      → or_empty (find c.target m) ≡ cs
      → times_pooled i m + times_in i (c ∷ held) + r ≡ n
      → times_pooled i (store c.target (cs ++ (c ∷ [])) m) + times_in i held + r ≡ n
  returned i m c held cs r n e h = omega (
    arith,
    h,
    ap (times_in i) e,
    times_pooled-store i c.target (cs ++ (c ∷ [])) m,
    times_in-append i cs (c ∷ []),
  )

  pub return_conn-Placed :
      (c : Conn) (t : Transport stream) (held : List Conn)
      → Placed t (c ∷ held)
      → Placed (return_conn stream c t) held
  unfolding return_conn
  return_conn-Placed c t held p =
      elim (Bool-cases
        (not t.shutdown && ltb_ℤ (pos (length (pooled stream t c.target))) t.max_pool)) [
          | inl e ↦ rw e (record {
            once =
                λ i. returned i t.conn_pool c held (pooled stream t c.target) _ _ refl (p.once i);
            fits =
                AllFit-store t.max_pool c.target _ t.conn_pool
                  (Fits-snoc t.max_pool (pooled stream t c.target) c
                    (AllFit-find t.max_pool c.target t.conn_pool p.fits)
                    (second (not t.shutdown) _ e))
                  p.fits;
          })
          | inr e ↦ rw e (release-Placed c t held p)
        ]

  taken :
      (k : String) (t : Transport stream) (held : List Conn) (c : Conn) (cs : List Conn)
      → pooled stream t k ≡ c ∷ cs
      → Placed t held
      → Placed
          (record t { conn_pool = store k (split_last c cs).0 t.conn_pool })
          ((split_last c cs).1 ∷ held)
        × ((split_last c cs).1.target ≡ k)
  taken k t held c cs q p =
      let parts = split_last c cs in
      let whole =
        subst (Fits t.max_pool k) (q ∙ sym (split_last-append c cs))
          (AllFit-find t.max_pool k t.conn_pool p.fits) in
      (
        record {
          once = λ i. omega (
            arith,
            p.once i,
            ap (times_in i) q,
            times_in-split_last i c cs,
            times_pooled-store i k parts.0 t.conn_pool,
          );
          fits =
              AllFit-store t.max_pool k parts.0 t.conn_pool
                (Fits-front t.max_pool k parts.0 (parts.1 ∷ []) whole) p.fits;
        },
        Fits-last t.max_pool k parts.0 parts.1 whole,
      )

  -- A call that gives a connection hands it over to the caller; one that fails leaves all where they are.
  abbrev pub Handed : String → List Conn → Ran NetErr (Transport stream) Conn → Type 0
  Handed k held (gives c t) = Placed t (c ∷ held) × (c.target ≡ k)
  Handed k held (fails e t) = Placed t held
  Handed k held panics = ⊥

  dial_conn-Handed :
      (k : String) (t : Transport stream) (held : List Conn)
      → Placed t held
      → Handed k held (dial_conn stream k t)
  unfolding dial_conn
  dial_conn-Handed k t held p = elim (Bool-cases (stream.dial t.net k).0) [
    | inl e ↦ rw (e, Handed) (record { once = λ i. ground (arith, p.once i); fits = p.fits }, refl)
    | inr e ↦ rw (e, Handed) (record { once = p.once; fits = p.fits })
  ]

  pub List-cases : (cs : List Conn) → (cs ≡ []) ⊎ ((c : Conn) × (ds : List Conn) × (cs ≡ c ∷ ds))
  List-cases [] = inl refl
  List-cases (c ∷ ds) = inr (c, ds, refl)

  pub get_pooled_conn-empty :
      (k : String) (t : Transport stream)
      → pooled stream t k ≡ []
      → get_pooled_conn stream k t ≡ (none, t)
  unfolding get_pooled_conn
  get_pooled_conn-empty k t e = rw (e, get_pooled_conn) refl

  pub get_pooled_conn-cons :
      (k : String) (t : Transport stream) (c : Conn) (cs : List Conn)
      → pooled stream t k ≡ c ∷ cs
      → get_pooled_conn stream k t ≡ (
        some (split_last c cs).1,
        record t { conn_pool = store k (split_last c cs).0 t.conn_pool },
      )
  unfolding get_pooled_conn
  get_pooled_conn-cons k t c cs e = rw (e, get_pooled_conn) refl

  HandedOf : String → List Conn → Option Conn × Transport stream → Type 0
  HandedOf k held x =
      Handed k held (elim x.0 [ some c ↦ gives c x.1 | none ↦ dial_conn stream k x.1 ])

  pub get_conn-Handed :
      (k : String) (t : Transport stream) (held : List Conn)
      → Placed t held
      → Handed k held (get_conn stream k t)
  unfolding get_conn HandedOf
  get_conn-Handed k t held p = elim (List-cases (pooled stream t k)) [
    | inl e ↦
        subst (HandedOf k held) (sym (get_pooled_conn-empty k t e)) (dial_conn-Handed k t held p)
    | inr (c, cs, e) ↦
        subst (HandedOf k held) (sym (get_pooled_conn-cons k t c cs e)) (taken k t held c cs e p)
  ]
