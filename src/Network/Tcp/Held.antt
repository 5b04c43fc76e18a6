-- ===== src/Network/Tcp/Held.antt =====
-- What the steps of a call of network/tcp/net_transport.go leave of the connection that it holds.
use mathlib.Core.Path.{subst}
use paradigm.Prelude.{
  ℕ, ◌≡◌, inl, inr, Bool, true, false, Option, List, ◌∷◌, ◌++◌, arith, if◌then◌else◌, Bool-cases,
  Option-cases, pos, ltb_ℤ, nat_eq, int_eq, string_eq, pair_eq,
}
use paradigm.Common.Effects.{Ran, gives, fails, panics, ◌>>=◌, ◌>>◌, return, Ran-cases}
use paradigm.Network.Tcp.{
  Conn, NetErr, write_err, encode_err, flush_err, Stream, Transport, Rpc, close, call, read,
  send_rpc, decode_response, set_deadline,
}
use paradigm.Network.Tcp.Places.{times_in, times_in-append, Placed, release-Placed}

module _ {N Q R : Type 0} (stream : Stream N Q R) where
  -- A connection that a call holds is still held where the call goes on, and was released where it fails.
  abbrev pub Holds : {A : Type 0} → Conn → List Conn → Ran NetErr (Transport stream) A → Type 0
  Holds c held (gives a t) = Placed stream t (c ∷ held)
  Holds c held (fails e t) = Placed stream t held
  Holds c held panics = ⊥

  pub Holds->>= :
      {A B : Type 0} (c : Conn) (held : List Conn) (m : Rpc stream A) (f : A → Rpc stream B)
      (t : Transport stream)
      → Holds c held (m t)
      → ((a : A) (u : Transport stream) → Placed stream u (c ∷ held) → Holds c held (f a u))
      → Holds c held ((m >>= f) t)
  Holds->>= c held m f t h k = elim (Ran-cases (m t)) [
    | inl (a, u, p) ↦ rw (p, Holds) (k a u (subst (Holds c held) p h))
    | inr (inl (e, u, p)) ↦ rw (p, Holds) (subst (Holds c held) p h)
    | inr (inr p) ↦ absurd (subst (Holds c held) p h)
  ]

  pub Placed-net :
      (t : Transport stream) (held : List Conn) (n : N)
      → Placed stream t held
      → Placed stream (record t { net = n }) held
  Placed-net t held n p = record { once = p.once; fits = p.fits }

  pub call-Holds :
      (c : Conn) (held : List Conn) (e : NetErr) (f : N → Bool × N) (t : Transport stream)
      → Placed stream t (c ∷ held)
      → Holds c held (call stream c e f t)
  unfolding call
  call-Holds c held e f t p =
      let q = Placed-net t (c ∷ held) (f t.net).1 p in
      elim (Bool-cases (f t.net).0) [
        | inl h ↦ rw (h, Holds) q
        | inr h ↦ rw (h, Holds) (release-Placed stream c _ held q)
      ]

  pub read-Holds :
      {A : Type 0} (c : Conn) (held : List Conn) (f : N → Option A × N) (t : Transport stream)
      → Placed stream t (c ∷ held)
      → Holds c held (read stream c f t)
  unfolding read
  read-Holds c held f t p =
      let q = Placed-net t (c ∷ held) (f t.net).1 p in
      elim (Option-cases (f t.net).0) [
        | inl h ↦ rw (h, Holds) (release-Placed stream c _ held q)
        | inr (a, h) ↦ rw (h, Holds) q
      ]

  pub send_rpc-Holds :
      (c : Conn) (held : List Conn) (rpc_type : ℕ) (args : Q) (t : Transport stream)
      → Placed stream t (c ∷ held)
      → Holds c held (send_rpc stream c rpc_type args t)
  unfolding send_rpc
  send_rpc-Holds c held rpc_type args t p =
      let write = λ (n : N). stream.write_byte n c.id rpc_type in
      let encode = λ (n : N). stream.encode n c.id args in
      let flush = λ (n : N). stream.flush n c.id in
      let flushes = call stream c flush_err flush in
      let encodes = call stream c encode_err encode in
      Holds->>= c held (call stream c write_err write) (λ a. encodes >> flushes) t
        (call-Holds c held write_err write t p)
        (λ a u q.
          Holds->>= c held encodes (λ b. flushes) u (call-Holds c held encode_err encode u q)
            (λ b v r. call-Holds c held flush_err flush v r))

  pub decode_response-Holds :
      (c : Conn) (held : List Conn) (t : Transport stream)
      → Placed stream t (c ∷ held)
      → Holds c held (decode_response stream c t)
  unfolding decode_response
  decode_response-Holds c held t p =
      let error = λ (n : N). stream.decode_error n c.id in
      let response = λ (n : N). stream.decode_response n c.id in
      let reads = read stream c response in
      Holds->>= c held (read stream c error) (λ a. reads >>= λ b. return (a, b)) t
        (read-Holds c held error t p)
        (λ a u q.
          Holds->>= c held reads (λ b. return (a, b)) u (read-Holds c held response u q)
            (λ b v r. r))

  pub set_deadline-Placed :
      (c : Conn) (t : Transport stream) (held : List Conn)
      → Placed stream t held
      → Placed stream (set_deadline stream c t) held
  unfolding set_deadline
  set_deadline-Placed c t held p = elim (Bool-cases (ltb_ℤ (pos 0) t.timeout)) [
    | inl h ↦ rw h (Placed-net t held _ p)
    | inr h ↦ rw h p
  ]

  pub closed_if :
      (b : Bool) (t : Transport stream) (held : List Conn)
      → Placed stream t held
      → Placed stream
          (if b then t else record t { net = stream.close_listener t.net; shutdown = true })
          held
  closed_if true t held p = p
  closed_if false t held p = record { once = p.once; fits = p.fits }

  pub close-Placed :
      (t : Transport stream) (held : List Conn)
      → Placed stream t held
      → Placed stream (close stream t) held
  unfolding close
  close-Placed t held p = closed_if t.shutdown t held p

  pub Placed-order :
      (t : Transport stream) (held other : List Conn)
      → ((i : ℕ) → times_in i held ≡ times_in i other)
      → Placed stream t held
      → Placed stream t other
  Placed-order t held other h p = record { once = λ i. omega (arith, h i, p.once i); fits = p.fits }

  pub to_front :
      (i : ℕ) (before after : List Conn) (c : Conn)
      → times_in i (before ++ (c ∷ after)) ≡ times_in i (c ∷ (before ++ after))
  to_front i before after c =
      omega (arith, times_in-append i before (c ∷ after), times_in-append i before after)
