-- ===== src/Network/Tcp.antt =====
-- network/tcp/net_transport.go: the client of the transport and its pool of connections. What a connection
-- does is a parameter: the state `N` of the network, and how the calls of the stream layer, of its buffers
-- and of the JSON coders change it. Connections are numbered as they are dialed.
pub mod Held
pub mod Steps
pub mod Released
pub mod Closed
pub mod Server
pub mod Exchange
pub mod Places
use paradigm.Prelude.{
  ℕ, ◌+◌, String, Bool, true, false, not, ◌&&◌, Option, none, some, List, [], ◌∷◌, ◌++◌,
  if◌then◌else◌, length, ℤ, pos, ltb_ℤ, ◌==◌, nat_eq, int_eq, string_eq, pair_eq, Map, find, store,
}
use paradigm.Common.Effects.{
  Ran, Effect, gives, fails, panics, ◌>>=◌, ◌>>◌, return, fail, state, modify, guard,
}

pub record Conn : Type 0 where
  pub target : String
  pub id : ℕ

pub data NetErr : Type 0 where
  dial_err : NetErr
  write_err : NetErr
  encode_err : NetErr
  flush_err : NetErr
  decode_err : NetErr
  remote_err : String → NetErr

abbrev pub rpc_sync : ℕ
rpc_sync = 0

abbrev pub rpc_eager_sync : ℕ
rpc_eager_sync = 1

-- Each call says whether it succeeds, or what it reads.
pub record Stream (N Q R : Type 0) : Type 0 where
  pub dial : N → String → Bool × N
  pub set_deadline : N → ℕ → N
  pub write_byte : N → ℕ → ℕ → Bool × N
  pub encode : N → ℕ → Q → Bool × N
  pub flush : N → ℕ → Bool × N
  pub decode_error : N → ℕ → Option String × N
  pub decode_response : N → ℕ → Option R × N
  pub close_conn : N → ℕ → N
  pub close_listener : N → N
  -- `Errorf` without arguments
  pub errorf : String → String

-- The connections that were released are kept, to speak of them.
pub record NetworkTransport (N : Type 0) : Type 0 where
  pub conn_pool : Map String (List Conn)
  pub max_pool : ℤ
  pub shutdown : Bool
  pub timeout : ℤ
  pub net : N
  pub dialed : ℕ
  pub released : List Conn

-- a slice of the map, which is nil where there is none
abbrev pub or_empty : Option (List Conn) → List Conn
or_empty none = []
or_empty (some cs) = cs

-- the last of the connections, and those before it
abbrev pub split_last : {A : Type 0} → A → List A → List A × A
split_last c [] = ([], c)
split_last c (d ∷ ds) = let rest = split_last d ds in (c ∷ rest.0, rest.1)

module _ {N Q R : Type 0} (stream : Stream N Q R) where
  abbrev pub Transport : Type 0
  Transport = NetworkTransport N

  abbrev pub Rpc : Type 0 → Type 0
  Rpc A = Effect NetErr Transport A

  -- `NewNetworkTransport`
  unfoldable pub new_network_transport : N → ℤ → ℤ → Transport
  new_network_transport net max_pool timeout = record {
    conn_pool = [];
    max_pool = max_pool;
    shutdown = false;
    timeout = timeout;
    net = net;
    dialed = 0;
    released = [];
  }

  -- `Release`
  unfoldable pub release : Conn → Transport → Transport
  release c t = record t { net = stream.close_conn t.net c.id; released = c ∷ t.released }

  -- `Close`
  unfoldable pub close : Transport → Transport
  close t =
      if t.shutdown then t else record t { net = stream.close_listener t.net; shutdown = true }

  -- `conns, _ := n.connPool[target]`
  abbrev pub pooled : Transport → String → List Conn
  pooled t target = or_empty (find target t.conn_pool)

  -- `getPooledConn`
  unfoldable pub get_pooled_conn : String → Transport → Option Conn × Transport
  get_pooled_conn target t = elim (pooled t target) [
    | [] ↦ (none, t)
    | c ∷ cs ↦
        let parts = split_last c cs in
        (some parts.1, record t { conn_pool = store target parts.0 t.conn_pool })
  ]

  -- `Dial`, and the connection that is made of what it gives
  unfoldable pub dial_conn : String → Rpc Conn
  dial_conn target t =
      let called = stream.dial t.net target in
      let u = record t { net = called.1 } in
      if called.0
      then gives (record { target = target; id = t.dialed }) (record u { dialed = t.dialed + 1 })
      else fails dial_err u

  -- `getConn`
  unfoldable pub get_conn : String → Rpc Conn
  unfolding get_pooled_conn dial_conn
  get_conn target t =
      let found = get_pooled_conn target t in
      elim found.0 [ some c ↦ gives c found.1 | none ↦ dial_conn target found.1 ]

  -- `returnConn`
  unfoldable pub return_conn : Conn → Transport → Transport
  unfolding release
  return_conn c t =
      let conns = pooled t c.target in
      if not t.shutdown && ltb_ℤ (pos (length conns)) t.max_pool
      then record t { conn_pool = store c.target (conns ++ (c ∷ [])) t.conn_pool }
      else release c t

  -- a call on a connection, which releases it where the call fails
  unfoldable pub call : Conn → NetErr → (N → Bool × N) → Rpc (Unit {0})
  unfolding release
  call c e f t =
      let called = f t.net in
      let u = record t { net = called.1 } in if called.0 then gives tt u else fails e (release c u)

  -- the same of a call that reads
  unfoldable pub read : {A : Type 0} → Conn → (N → Option A × N) → Rpc A
  unfolding release
  read c f t =
      let called = f t.net in
      let u = record t { net = called.1 } in
      elim called.0 [ none ↦ fails decode_err (release c u) | some a ↦ gives a u ]

  -- `sendRPC`
  unfoldable pub send_rpc : Conn → ℕ → Q → Rpc (Unit {0})
  unfolding call
  send_rpc c rpc_type args = do
    call c write_err (λ n. stream.write_byte n c.id rpc_type)
    call c encode_err (λ n. stream.encode n c.id args)
    call c flush_err (λ n. stream.flush n c.id)

  -- `decodeResponse`: the error of the other side, and the response. Only where it gives them can the connection
  -- be returned.
  unfoldable pub decode_response : Conn → Rpc (String × R)
  unfolding read
  decode_response c = do
    rpc_error ← read c (λ n. stream.decode_error n c.id)
    resp ← read c (λ n. stream.decode_response n c.id)
    return (rpc_error, resp)

  -- the deadline of `genericRPC`
  unfoldable pub set_deadline : Conn → Transport → Transport
  set_deadline c t =
      if ltb_ℤ (pos 0) t.timeout then record t { net = stream.set_deadline t.net c.id } else t

  -- `genericRPC`
  unfoldable pub generic_rpc : String → ℕ → Q → Rpc R
  unfolding get_conn set_deadline send_rpc decode_response return_conn
  generic_rpc target rpc_type args = do
    c ← get_conn target
    modify (set_deadline c)
    send_rpc c rpc_type args
    answer ← decode_response c
    modify (return_conn c)
    if answer.0 == "" then return answer.1 else fail (remote_err (stream.errorf answer.0))

  -- `Sync`
  abbrev pub sync : String → Q → Rpc R
  sync target args = generic_rpc target rpc_sync args

  -- `EagerSync`
  abbrev pub eager_sync : String → Q → Rpc R
  eager_sync target args = generic_rpc target rpc_eager_sync args
