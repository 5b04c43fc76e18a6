-- ===== src/Network/Tcp/Released.antt =====
-- What the calls of network/tcp/net_transport.go release is closed, and stays closed.
use mathlib.Core.Path.{subst}
use paradigm.Prelude.{
  ℕ, String, sym, inl, inr, Bool, not, ◌&&◌, Option, none, some, List, [], ◌∷◌, Bool-cases,
  Option-cases, length, pos, ltb_ℤ, nat_eq, int_eq, string_eq, pair_eq,
}
use paradigm.Common.Effects.{gives, Leaves, Leaves->>=}
use paradigm.Network.Tcp.{
  Conn, NetErr, write_err, encode_err, flush_err, Stream, Transport, release, dial_conn, close,
  pooled, call, read, get_conn, return_conn, send_rpc, decode_response, set_deadline,
}
use paradigm.Network.Tcp.Places.{List-cases, get_pooled_conn-empty, get_pooled_conn-cons}

module _ {N Q R : Type 0} (stream : Stream N Q R) where
  -- `Close` of a connection closes it, and no other call of the stream layer opens a closed one again.
  pub record Closes (IsClosed : N → ℕ → Type 0) : Type 0 where
    pub close_conn : (n : N) (i : ℕ) → IsClosed (stream.close_conn n i) i
    pub keeps_close_conn : (n : N) (i j : ℕ) → IsClosed n j → IsClosed (stream.close_conn n i) j
    pub keeps_close_listener : (n : N) (j : ℕ) → IsClosed n j → IsClosed (stream.close_listener n) j
    pub keeps_dial : (n : N) (k : String) (j : ℕ) → IsClosed n j → IsClosed (stream.dial n k).1 j
    pub keeps_set_deadline : (n : N) (i j : ℕ) → IsClosed n j → IsClosed (stream.set_deadline n i) j
    pub keeps_write_byte :
        (n : N) (i b j : ℕ) → IsClosed n j → IsClosed (stream.write_byte n i b).1 j
    pub keeps_encode :
        (n : N) (i : ℕ) (q : Q) (j : ℕ) → IsClosed n j → IsClosed (stream.encode n i q).1 j
    pub keeps_flush : (n : N) (i j : ℕ) → IsClosed n j → IsClosed (stream.flush n i).1 j
    pub keeps_decode_error :
        (n : N) (i j : ℕ) → IsClosed n j → IsClosed (stream.decode_error n i).1 j
    pub keeps_decode_response :
        (n : N) (i j : ℕ) → IsClosed n j → IsClosed (stream.decode_response n i).1 j

  module _ (IsClosed : N → ℕ → Type 0) (laws : Closes IsClosed) where
    abbrev pub AllClosed : N → List Conn → Type 0
    AllClosed n [] = Unit
    AllClosed n (c ∷ cs) = IsClosed n c.id × AllClosed n cs

    -- Every connection that was released is closed.
    abbrev pub ReleasedClosed : Transport stream → Type 0
    ReleasedClosed t = AllClosed t.net t.released

    all_keep :
        (n m : N) (cs : List Conn)
        → ((j : ℕ) → IsClosed n j → IsClosed m j)
        → AllClosed n cs
        → AllClosed m cs
    all_keep n m [] k a = tt
    all_keep n m (c ∷ cs) k (i, a) = (k c.id i, all_keep n m cs k a)

    pub release-ReleasedClosed :
        (c : Conn) (t : Transport stream) → ReleasedClosed t → ReleasedClosed (release stream c t)
    unfolding release
    release-ReleasedClosed c t a = (
      laws.close_conn t.net c.id,
      all_keep t.net (stream.close_conn t.net c.id) t.released (laws.keeps_close_conn t.net c.id) a,
    )

    call-ReleasedClosed :
        (c : Conn) (e : NetErr) (f : N → Bool × N) (t : Transport stream)
        → ((n : N) (j : ℕ) → IsClosed n j → IsClosed (f n).1 j)
        → ReleasedClosed t
        → Leaves ReleasedClosed (call stream c e f t)
    unfolding call
    call-ReleasedClosed c e f t k a =
        let b = all_keep t.net (f t.net).1 t.released (k t.net) a in
        elim (Bool-cases (f t.net).0) [
          | inl h ↦ rw (h, Leaves) b
          | inr h ↦ rw (h, Leaves) (release-ReleasedClosed c (record t { net = (f t.net).1 }) b)
        ]

    read-ReleasedClosed :
        {A : Type 0} (c : Conn) (f : N → Option A × N) (t : Transport stream)
        → ((n : N) (j : ℕ) → IsClosed n j → IsClosed (f n).1 j)
        → ReleasedClosed t
        → Leaves ReleasedClosed (read stream c f t)
    unfolding read
    read-ReleasedClosed c f t k a =
        let b = all_keep t.net (f t.net).1 t.released (k t.net) a in
        elim (Option-cases (f t.net).0) [
          | inr (x, h) ↦ rw (h, Leaves) b
          | inl h ↦ rw (h, Leaves) (release-ReleasedClosed c (record t { net = (f t.net).1 }) b)
        ]

    pub send_rpc-ReleasedClosed :
        (c : Conn) (b : ℕ) (q : Q) (t : Transport stream)
        → ReleasedClosed t
        → Leaves ReleasedClosed (send_rpc stream c b q t)
    unfolding send_rpc
    send_rpc-ReleasedClosed c b q t a =
        let typed = call stream c write_err (λ n. stream.write_byte n c.id b) in
        let encoded = call stream c encode_err (λ n. stream.encode n c.id q) in
        Leaves->>= ReleasedClosed typed _ t
          (call-ReleasedClosed c write_err (λ n. stream.write_byte n c.id b) t
            (λ n j. laws.keeps_write_byte n c.id b j) a)
          (λ x u e p.
            Leaves->>= ReleasedClosed encoded _ u
              (call-ReleasedClosed c encode_err (λ n. stream.encode n c.id q) u
                (λ n j. laws.keeps_encode n c.id q j) p)
              (λ y v e' p'.
                call-ReleasedClosed c flush_err (λ n. stream.flush n c.id) v
                  (λ n j. laws.keeps_flush n c.id j) p'))

    pub decode_response-ReleasedClosed :
        (c : Conn) (t : Transport stream)
        → ReleasedClosed t
        → Leaves ReleasedClosed (decode_response stream c t)
    unfolding decode_response
    decode_response-ReleasedClosed c t a =
        let error = read stream c (λ n. stream.decode_error n c.id) in
        let response = read stream c (λ n. stream.decode_response n c.id) in
        Leaves->>= ReleasedClosed error _ t
          (read-ReleasedClosed c (λ n. stream.decode_error n c.id) t
            (λ n j. laws.keeps_decode_error n c.id j) a)
          (λ x u e p.
            Leaves->>= ReleasedClosed response _ u
              (read-ReleasedClosed c (λ n. stream.decode_response n c.id) u
                (λ n j. laws.keeps_decode_response n c.id j) p)
              (λ y v e' p'. p'))

    dial_conn-ReleasedClosed :
        (k : String) (t : Transport stream)
        → ReleasedClosed t
        → Leaves ReleasedClosed (dial_conn stream k t)
    unfolding dial_conn
    dial_conn-ReleasedClosed k t a =
        let b =
          all_keep t.net (stream.dial t.net k).1 t.released (λ j. laws.keeps_dial t.net k j) a in
        elim (Bool-cases (stream.dial t.net k).0) [
          | inl d ↦ rw (d, Leaves) b
          | inr d ↦ rw (d, Leaves) b
        ]

    GivenClosed : String → Option Conn × Transport stream → Type 0
    GivenClosed k found =
        Leaves {A = Conn} ReleasedClosed
          (elim found.0 [ some c ↦ gives c found.1 | none ↦ dial_conn stream k found.1 ])

    pub get_conn-ReleasedClosed :
        (k : String) (t : Transport stream)
        → ReleasedClosed t
        → Leaves ReleasedClosed (get_conn stream k t)
    unfolding get_conn GivenClosed
    get_conn-ReleasedClosed k t a = elim (List-cases stream (pooled stream t k)) [
      | inl h ↦
          subst (GivenClosed k) (sym (get_pooled_conn-empty stream k t h))
            (dial_conn-ReleasedClosed k t a)
      | inr (c, cs, h) ↦ subst (GivenClosed k) (sym (get_pooled_conn-cons stream k t c cs h)) a
    ]

    pub set_deadline-ReleasedClosed :
        (c : Conn) (t : Transport stream)
        → ReleasedClosed t
        → ReleasedClosed (set_deadline stream c t)
    unfolding set_deadline
    set_deadline-ReleasedClosed c t a = elim (Bool-cases (ltb_ℤ (pos 0) t.timeout)) [
      | inl h ↦ rw h (
          all_keep t.net (stream.set_deadline t.net c.id) t.released
            (laws.keeps_set_deadline t.net c.id) a)
      | inr h ↦ rw h a
    ]

    pub return_conn-ReleasedClosed :
        (c : Conn) (t : Transport stream)
        → ReleasedClosed t
        → ReleasedClosed (return_conn stream c t)
    unfolding return_conn
    return_conn-ReleasedClosed c t a =
        elim (Bool-cases
          (not t.shutdown && ltb_ℤ (pos (length (pooled stream t c.target))) t.max_pool)) [
            | inl h ↦ rw h a
            | inr h ↦ rw h (release-ReleasedClosed c t a)
          ]

    pub close-ReleasedClosed :
        (t : Transport stream) → ReleasedClosed t → ReleasedClosed (close stream t)
    unfolding close
    close-ReleasedClosed t a = elim (Bool-cases t.shutdown) [
      | inl h ↦ rw h a
      | inr h ↦ rw h (
          all_keep t.net (stream.close_listener t.net) t.released (laws.keeps_close_listener t.net)
            a)
    ]
