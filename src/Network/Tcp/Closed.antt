-- ===== src/Network/Tcp/Closed.antt =====
-- What network/tcp/net_transport.go releases is closed, whatever happens on the other connections.
use mathlib.Core.Path.{subst}
use paradigm.Prelude.{
  ℕ, ◌+◌, ◌<◌, ◌≡◌, ◌⊎◌, inl, inr, List, [], ◌∷◌, arith, ltb, ltb→lt, lt→ltb, Bool-cases, ℤ, ◌==◌,
  nat_eq, int_eq, string_eq, pair_eq, eq_of_==,
}
use paradigm.Common.Effects.{Leaves}
use paradigm.Network.Tcp.{Conn, Stream, Transport, new_network_transport}
use paradigm.Network.Tcp.Released.{
  Closes, AllClosed, ReleasedClosed, send_rpc-ReleasedClosed, decode_response-ReleasedClosed,
  get_conn-ReleasedClosed, set_deadline-ReleasedClosed, return_conn-ReleasedClosed,
  close-ReleasedClosed,
}
use paradigm.Network.Tcp.Places.{times_in, times_pooled}
use paradigm.Network.Tcp.Steps.{
  Step, gets, cannot_get, sets_deadline, sends, cannot_send, decodes, cannot_decode, returns,
  closes, Steps, none_taken, then_one, reachable-Placed,
}

module _ {N Q R : Type 0} (stream : Stream N Q R) where
  module _ (IsClosed : N → ℕ → Type 0) (laws : Closes stream IsClosed) where
    Step-ReleasedClosed :
        (t u : Transport stream) (held other : List Conn)
        → Step stream t held u other
        → (ReleasedClosed stream IsClosed laws) t
        → (ReleasedClosed stream IsClosed laws) u
    Step-ReleasedClosed t u held other (gets k c v e) a =
        subst (Leaves (ReleasedClosed stream IsClosed laws)) e
          (get_conn-ReleasedClosed stream IsClosed laws k t a)
    Step-ReleasedClosed t u held other (cannot_get k x v e) a =
        subst (Leaves (ReleasedClosed stream IsClosed laws)) e
          (get_conn-ReleasedClosed stream IsClosed laws k t a)
    Step-ReleasedClosed t u held other (sets_deadline c) a =
        set_deadline-ReleasedClosed stream IsClosed laws c t a
    Step-ReleasedClosed t u held other (sends before after c y args v q e) a =
        subst (Leaves (ReleasedClosed stream IsClosed laws)) e
          (send_rpc-ReleasedClosed stream IsClosed laws c y args t a)
    Step-ReleasedClosed t u held other (cannot_send before after c y args x v q e) a =
        subst (Leaves (ReleasedClosed stream IsClosed laws)) e
          (send_rpc-ReleasedClosed stream IsClosed laws c y args t a)
    Step-ReleasedClosed t u held other (decodes before after c y v q e) a =
        subst (Leaves (ReleasedClosed stream IsClosed laws)) e
          (decode_response-ReleasedClosed stream IsClosed laws c t a)
    Step-ReleasedClosed t u held other (cannot_decode before after c x v q e) a =
        subst (Leaves (ReleasedClosed stream IsClosed laws)) e
          (decode_response-ReleasedClosed stream IsClosed laws c t a)
    Step-ReleasedClosed t u held other (returns before after c q) a =
        return_conn-ReleasedClosed stream IsClosed laws c t a
    Step-ReleasedClosed t u held other closes a = close-ReleasedClosed stream IsClosed laws t a

    Steps-ReleasedClosed :
        (t : Transport stream) (held : List Conn) (u : Transport stream) (other : List Conn)
        → Steps stream t held u other
        → (ReleasedClosed stream IsClosed laws) t
        → (ReleasedClosed stream IsClosed laws) u
    Steps-ReleasedClosed t held u other none_taken a = a
    Steps-ReleasedClosed t held u other (then_one v w m l s k) a =
        Step-ReleasedClosed v w m l k (Steps-ReleasedClosed t held v m s a)

    new-ReleasedClosed :
        (n : N) (max_pool timeout : ℤ)
        → (ReleasedClosed stream IsClosed laws) (new_network_transport stream n max_pool timeout)
    unfolding new_network_transport
    new-ReleasedClosed n max_pool timeout = tt

    listed-IsClosed :
        (n : N) (i : ℕ) (cs : List Conn)
        → AllClosed stream IsClosed laws n cs
        → 0 < times_in i cs
        → IsClosed n i
    listed-IsClosed n i [] a h = absurd (omega (arith, h))
    listed-IsClosed n i (c ∷ cs) (closed, a) h = elim (Bool-cases (c.id == i)) [
      | inl same ↦ subst (IsClosed n) (eq_of_== c.id i same) closed
      | inr other ↦ listed-IsClosed n i cs a (ground (arith, other, h))
    ]

    -- Whatever calls there are on a new transport, and in whatever order their steps come, each
    -- connection that was dialed is in the pool, is held by a call, or is closed in the network,
    -- where closing a connection closes it and no other call of the stream layer opens it again.
    pub reachable-Closed :
        (n : N) (max_pool timeout : ℤ) (u : Transport stream) (held : List Conn) (i : ℕ)
        → Steps stream (new_network_transport stream n max_pool timeout) [] u held
        → i < u.dialed
        → (0 < times_pooled i u.conn_pool) ⊎ ((0 < times_in i held) ⊎ IsClosed u.net i)
    reachable-Closed n max_pool timeout u held i s old =
        let placed = reachable-Placed stream n max_pool timeout u held s in
        let closed =
          Steps-ReleasedClosed (new_network_transport stream n max_pool timeout) [] u held s
            (new-ReleasedClosed n max_pool timeout) in
        let once : times_pooled i u.conn_pool + times_in i held + times_in i u.released ≡ 1 =
          ground (arith, placed.once i, lt→ltb i u.dialed old) in
        elim (Bool-cases (ltb 0 (times_pooled i u.conn_pool))) [
          | inl h ↦ inl (ltb→lt 0 (times_pooled i u.conn_pool) h)
          | inr h ↦ elim (Bool-cases (ltb 0 (times_in i held))) [
            | inl k ↦ inr (inl (ltb→lt 0 (times_in i held) k))
            | inr k ↦
                inr (inr (listed-IsClosed u.net i u.released closed (ground (arith, once, h, k))))
          ]
        ]
