-- ===== src/Network/Tcp/Server.antt =====
-- network/tcp/net_transport.go: the server of the transport. The reader, the coders and the consumer of the
-- requests are parameters, on the state `N` of the network.
use paradigm.Prelude.{
  ℕ, zero, suc, String, Bool, true, false, Option, none, some, eqb, if◌then◌else◌, nat_eq, int_eq,
  string_eq, pair_eq,
}
use paradigm.Common.Effects.{Effect, gives, fails, panics, ◌>>=◌, ◌>>◌, fail}
use paradigm.Network.Tcp.{rpc_sync, rpc_eager_sync}

-- `io.EOF` is told apart from other errors of a read.
pub data CmdErr : Type 0 where
  eof : CmdErr
  read_err : CmdErr
  request_err : CmdErr
  unknown_rpc_type : ℕ → CmdErr
  transport_shutdown : CmdErr
  reply_err : CmdErr

pub data ReadByte : Type 0 where
  byte : ℕ → ReadByte
  end_of_file : ReadByte
  unreadable : ReadByte

-- What the consumer answers: a text where there is an error, and the response.
pub record RpcResponse (R : Type 0) : Type 0 where
  pub response : R
  pub error : Option String

-- `Q` is the type of the requests of both kinds.
pub record Listener (N Q R : Type 0) : Type 0 where
  pub read_byte : N → ℕ → ReadByte × N
  pub decode_sync : N → ℕ → Option Q × N
  pub decode_eager_sync : N → ℕ → Option Q × N
  -- the consumer's answer, none where the transport is shut down before it
  pub consume : N → Q → Option (RpcResponse R) × N
  pub encode_error : N → ℕ → String → Bool × N
  pub encode_response : N → ℕ → R → Bool × N
  pub flush : N → ℕ → Bool × N
  pub close_conn : N → ℕ → N

module _ {N Q R : Type 0} (listener : Listener N Q R) where
  abbrev pub Serve : Type 0 → Type 0
  Serve A = Effect CmdErr N A

  -- a call that reads, and one that writes
  unfoldable pub reading : {A : Type 0} → CmdErr → (N → Option A × N) → Serve A
  reading e f n =
      let called = f n in elim called.0 [ none ↦ fails e called.1 | some a ↦ gives a called.1 ]

  unfoldable pub writing : (N → Bool × N) → Serve (Unit {0})
  writing f n = let called = f n in if called.0 then gives tt called.1 else fails reply_err called.1

  -- the type of the RPC
  unfoldable pub read_type : ℕ → Serve ℕ
  read_type c n =
      let called = listener.read_byte n c in
      elim called.0 [
        | byte b ↦ gives b called.1
        | end_of_file ↦ fails eof called.1
        | unreadable ↦ fails read_err called.1
      ]

  -- the `switch` on the type
  unfoldable pub decode_command : ℕ → ℕ → Serve Q
  unfolding reading
  decode_command c rpc_type =
      if eqb rpc_type rpc_sync
      then reading request_err (λ n. listener.decode_sync n c)
      else if eqb rpc_type rpc_eager_sync
      then reading request_err (λ n. listener.decode_eager_sync n c)
      else fail (unknown_rpc_type rpc_type)

  -- the text that stands for the error
  abbrev pub error_text : RpcResponse R → String
  error_text resp = elim resp.error [ none ↦ "" | some e ↦ e ]

  -- `handleCommand`
  unfoldable pub handle_command : ℕ → Serve (Unit {0})
  unfolding read_type decode_command reading writing
  handle_command c = do
    rpc_type ← read_type c
    request ← decode_command c rpc_type
    resp ← reading transport_shutdown (λ n. listener.consume n request)
    writing (λ n. listener.encode_error n c (error_text resp))
    writing (λ n. listener.encode_response n c resp.response)

  -- `handleConn` for at most that many commands, whether it ended, and the closed connection where it did
  unfoldable pub handle_conn : ℕ → ℕ → N → Bool × N
  unfolding handle_command
  handle_conn zero c n = (false, n)
  handle_conn (suc fuel) c n = elim (handle_command c n) [
    | fails e m ↦ (true, listener.close_conn m c)
    | panics ↦ (true, listener.close_conn n c)
    | gives a m ↦
        let flushed = listener.flush m c in
        if flushed.0 then handle_conn fuel c flushed.1 else (true, listener.close_conn flushed.1 c)
  ]
