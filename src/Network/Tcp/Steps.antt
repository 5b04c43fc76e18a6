-- ===== src/Network/Tcp/Steps.antt =====
-- The calls of network/tcp/net_transport.go that share its pool, interleaved in any order.
use mathlib.Core.Path.{subst}
use paradigm.Prelude.{
  ℕ, String, ◌≡◌, sym, ap, ◌∙◌, inl, inr, Bool, true, false, List, [], ◌∷◌, ◌++◌, arith,
  if◌then◌else◌, ℤ, ◌==◌, nat_eq, int_eq, string_eq, pair_eq,
}
use paradigm.Common.Effects.{Ran, gives, fails, panics, ◌>>=◌, return, fail, Ran-cases}
use paradigm.Network.Tcp.{
  Conn, NetErr, remote_err, Stream, Transport, Rpc, new_network_transport, close, get_conn,
  return_conn, send_rpc, decode_response, set_deadline, generic_rpc,
}
use paradigm.Network.Tcp.Places.{times_in, Placed, return_conn-Placed, Handed, get_conn-Handed}
use paradigm.Network.Tcp.Held.{
  Holds, send_rpc-Holds, decode_response-Holds, set_deadline-Placed, close-Placed, Placed-order,
  to_front,
}

module _ {N Q R : Type 0} (stream : Stream N Q R) where
  -- One step of one of the calls, each of which holds its connection, or of `Close`.
  pub data Step (t : Transport stream) (held : List Conn)
      : Transport stream → List Conn → Type 0 where
    gets :
        (k : String) (c : Conn) (u : Transport stream)
        → get_conn stream k t ≡ gives c u
        → Step t held u (c ∷ held)
    cannot_get :
        (k : String) (e : NetErr) (u : Transport stream)
        → get_conn stream k t ≡ fails e u
        → Step t held u held
    sets_deadline : (c : Conn) → Step t held (set_deadline stream c t) held
    sends :
        (before after : List Conn) (c : Conn) (rpc_type : ℕ) (args : Q) (u : Transport stream)
        → held ≡ before ++ (c ∷ after)
        → send_rpc stream c rpc_type args t ≡ gives tt u
        → Step t held u held
    cannot_send :
        (before after : List Conn) (c : Conn) (rpc_type : ℕ) (args : Q) (e : NetErr)
        (u : Transport stream)
        → held ≡ before ++ (c ∷ after)
        → send_rpc stream c rpc_type args t ≡ fails e u
        → Step t held u (before ++ after)
    decodes :
        (before after : List Conn) (c : Conn) (answer : String × R) (u : Transport stream)
        → held ≡ before ++ (c ∷ after)
        → decode_response stream c t ≡ gives answer u
        → Step t held u held
    cannot_decode :
        (before after : List Conn) (c : Conn) (e : NetErr) (u : Transport stream)
        → held ≡ before ++ (c ∷ after)
        → decode_response stream c t ≡ fails e u
        → Step t held u (before ++ after)
    returns :
        (before after : List Conn) (c : Conn)
        → held ≡ before ++ (c ∷ after)
        → Step t held (return_conn stream c t) (before ++ after)
    closes : Step t held (close stream t) held

  front :
      (t : Transport stream) (held before after : List Conn) (c : Conn)
      → held ≡ before ++ (c ∷ after)
      → Placed stream t held
      → Placed stream t (c ∷ (before ++ after))
  front t held before after c e p =
      Placed-order stream t held (c ∷ (before ++ after))
        (λ i. ap (times_in i) e ∙ to_front stream i before after c) p

  back :
      (t : Transport stream) (held before after : List Conn) (c : Conn)
      → held ≡ before ++ (c ∷ after)
      → Placed stream t (c ∷ (before ++ after))
      → Placed stream t held
  back t held before after c e p =
      Placed-order stream t (c ∷ (before ++ after)) held
        (λ i. sym (ap (times_in i) e ∙ to_front stream i before after c)) p

  Step-Placed :
      (t u : Transport stream) (held other : List Conn)
      → Step t held u other
      → Placed stream t held
      → Placed stream u other
  Step-Placed t u held other (gets k c v e) p =
      (subst (Handed stream k held) e (get_conn-Handed stream k t held p)).0
  Step-Placed t u held other (cannot_get k x v e) p =
      subst (Handed stream k held) e (get_conn-Handed stream k t held p)
  Step-Placed t u held other (sets_deadline c) p = set_deadline-Placed stream c t held p
  Step-Placed t u held other (sends before after c y args v q e) p = back u held before after c q (
      subst (Holds stream c (before ++ after)) e
        (send_rpc-Holds stream c (before ++ after) y args t (front t held before after c q p)))
  Step-Placed t u held other (cannot_send before after c y args x v q e) p =
      subst (Holds stream c (before ++ after)) e
        (send_rpc-Holds stream c (before ++ after) y args t (front t held before after c q p))
  Step-Placed t u held other (decodes before after c y v q e) p = back u held before after c q (
      subst (Holds stream c (before ++ after)) e
        (decode_response-Holds stream c (before ++ after) t (front t held before after c q p)))
  Step-Placed t u held other (cannot_decode before after c x v q e) p =
      subst (Holds stream c (before ++ after)) e
        (decode_response-Holds stream c (before ++ after) t (front t held before after c q p))
  Step-Placed t u held other (returns before after c q) p =
      return_conn-Placed stream c t (before ++ after) (front t held before after c q p)
  Step-Placed t u held other closes p = close-Placed stream t held p

  -- Any number of steps.
  pub data Steps (t : Transport stream) (held : List Conn)
      : Transport stream → List Conn → Type 0 where
    none_taken : Steps t held t held
    then_one :
        (u v : Transport stream) (other last : List Conn)
        → Steps t held u other
        → Step u other v last
        → Steps t held v last

  Steps-Placed :
      (t : Transport stream) (held : List Conn) (u : Transport stream) (other : List Conn)
      → Steps t held u other
      → Placed stream t held
      → Placed stream u other
  Steps-Placed t held u other none_taken p = p
  Steps-Placed t held u other (then_one v w m l s k) p =
      Step-Placed v w m l k (Steps-Placed t held v m s p)

  new-Placed :
      (n : N) (max_pool timeout : ℤ)
      → Placed stream (new_network_transport stream n max_pool timeout) []
  unfolding new_network_transport
  new-Placed n max_pool timeout = record { once = λ i. ground arith; fits = tt }

  -- Whatever calls there are on a new transport, and in whatever order their steps come, each connection that
  -- was dialed is in one place, and the pools are of the right target and not too large.
  pub reachable-Placed :
      (n : N) (max_pool timeout : ℤ) (u : Transport stream) (held : List Conn)
      → Steps (new_network_transport stream n max_pool timeout) [] u held
      → Placed stream u held
  reachable-Placed n max_pool timeout u held s =
      Steps-Placed (new_network_transport stream n max_pool timeout) [] u held s
        (new-Placed n max_pool timeout)

  -- A call is over: it holds no connection, and does not panic.
  abbrev pub Settled : {A : Type 0} → List Conn → Ran NetErr (Transport stream) A → Type 0
  Settled held (gives a u) = Placed stream u held
  Settled held (fails e u) = Placed stream u held
  Settled held panics = ⊥

  Settled->>= :
      {A B : Type 0} (c : Conn) (held : List Conn) (m : Rpc stream A) (f : A → Rpc stream B)
      (t : Transport stream)
      → Holds stream c held (m t)
      → ((a : A) (u : Transport stream) → Placed stream u (c ∷ held) → Settled held (f a u))
      → Settled held ((m >>= f) t)
  Settled->>= c held m f t h k = elim (Ran-cases (m t)) [
    | inl (a, u, p) ↦ rw (p, Settled) (k a u (subst (Holds stream c held) p h))
    | inr (inl (e, u, p)) ↦ rw (p, Settled) (subst (Holds stream c held) p h)
    | inr (inr p) ↦ absurd (subst (Holds stream c held) p h)
  ]

  answered :
      (error : String) (r : R) (held : List Conn) (b : Bool) (u : Transport stream)
      → Placed stream u held
      → Settled held ((if b then return r else fail (remote_err (stream.errorf error))) u)
  answered error r held true u p = p
  answered error r held false u p = p

  -- A call never panics, and however it ends, the connection that it used is in the pool again or was released, if
  -- each connection was in one place before it.
  pub generic_rpc-Settled :
      (target : String) (rpc_type : ℕ) (args : Q) (t : Transport stream) (held : List Conn)
      → Placed stream t held
      → Settled held (generic_rpc stream target rpc_type args t)
  unfolding generic_rpc
  generic_rpc-Settled target rpc_type args t held p =
      let handed = get_conn-Handed stream target t held p in
      elim (Ran-cases (get_conn stream target t)) [
        | inr (inr e) ↦ absurd (subst (Handed stream target held) e handed)
        | inr (inl (x, u, e)) ↦ rw (e, Settled) (subst (Handed stream target held) e handed)
        | inl (c, u, e) ↦
            let (q, to) = subst (Handed stream target held) e handed in
            let v = set_deadline stream c u in
            rw (e, Settled)
              (Settled->>= c held (send_rpc stream c rpc_type args) _ v
                (send_rpc-Holds stream c held rpc_type args v
                  (set_deadline-Placed stream c u (c ∷ held) q))
                (λ a w r.
                  Settled->>= c held (decode_response stream c) _ w
                    (decode_response-Holds stream c held w r)
                    (λ answer x s.
                      answered answer.0 answer.1 held (answer.0 == "") (return_conn stream c x)
                        (return_conn-Placed stream c x held s))))
      ]
