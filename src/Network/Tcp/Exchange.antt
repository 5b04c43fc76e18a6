-- ===== src/Network/Tcp/Exchange.antt =====
-- A call of network/tcp/net_transport.go from its client to the server and back.
use mathlib.Core.Path.{subst}
use paradigm.Prelude.{
  ℕ, String, ◌≡◌, sym, ap, ◌∙◌, ◌⊎◌, inl, inr, Bool, true, Option, some, arith, eqb, if◌then◌else◌,
  Bool-cases, Option-cases, nat_eq, int_eq, string_eq, pair_eq,
}
use paradigm.Common.Effects.{Ran, gives, ◌>>=◌, ◌>>◌, >>=-eq-gives}
use paradigm.Network.Tcp.{
  Conn, NetErr, write_err, encode_err, flush_err, Stream, Transport, rpc_sync, rpc_eager_sync, call,
  read, send_rpc, decode_response,
}
use paradigm.Network.Tcp.Server.{
  CmdErr, transport_shutdown, byte, RpcResponse, Listener, reading, writing, read_type,
  decode_command, error_text, handle_command,
}

module _ {N Q R : Type 0} (stream : Stream N Q R) (listener : Listener N Q R) where
  -- the network after a request that was sent
  abbrev pub sent : ℕ → ℕ → Q → N → N
  sent i b q n = (stream.flush (stream.encode (stream.write_byte n i b).1 i q).1 i).1

  -- The client could write all of a request, or the server all of an answer.
  abbrev pub Written : ℕ → ℕ → Q → N → Type 0
  Written i b q n =
      ((stream.write_byte n i b).0 ≡ true)
      × ((stream.encode (stream.write_byte n i b).1 i q).0 ≡ true)
      × ((stream.flush (stream.encode (stream.write_byte n i b).1 i q).1 i).0 ≡ true)

  abbrev pub replied : ℕ → String → R → N → N
  replied i e r n = (listener.encode_response (listener.encode_error n i e).1 i r).1

  abbrev pub Replied : ℕ → String → R → N → Type 0
  Replied i e r n =
      ((listener.encode_error n i e).0 ≡ true)
      × ((listener.encode_response (listener.encode_error n i e).1 i r).0 ≡ true)
      × ((listener.flush (replied i e r n) i).0 ≡ true)

  -- the coder of a request
  abbrev pub decode_by : ℕ → N → ℕ → Option Q × N
  decode_by b n i =
      if eqb b rpc_sync then listener.decode_sync n i else listener.decode_eager_sync n i

  -- What connections carry: the server reads what the client has written and flushed, and the client what the
  -- server has. `Idle` says that nothing is under way on a connection, `Asked` that its request was
  -- read and not answered; the consumer of requests does not use it.
  pub record Carries (Idle Asked : N → ℕ → Type 0) : Type 0 where
    pub carries_type :
        (i b : ℕ) (q : Q) (n : N)
        → Idle n i
        → Written i b q n
        → (listener.read_byte (sent i b q n) i).0 ≡ byte b
    pub carries_request :
        (i b : ℕ) (q : Q) (n : N)
        → Idle n i
        → Written i b q n
        → ((decode_by b (listener.read_byte (sent i b q n) i).1 i).0 ≡ some q)
          × Asked (decode_by b (listener.read_byte (sent i b q n) i).1 i).1 i
    pub keeps_asked : (i : ℕ) (q : Q) (n : N) → Asked n i → Asked (listener.consume n q).1 i
    pub carries_answer :
        (i : ℕ) (e : String) (r : R) (n : N)
        → Asked n i
        → Replied i e r n
        → (let seen = stream.decode_error (listener.flush (replied i e r n) i).1 i in
            (seen.0 ≡ some e) × ((stream.decode_response seen.1 i).0 ≡ some r))

  call-gives :
      (c : Conn) (e : NetErr) (f : N → Bool × N) (t u : Transport stream) (a : Unit {0})
      → call stream c e f t ≡ gives a u
      → ((f t.net).0 ≡ true) × (u ≡ record t { net = (f t.net).1 })
  unfolding call
  call-gives c e f t u a h = elim (Bool-cases (f t.net).0) [
    | inl y ↦ (y, ground (arith, h, y))
    | inr y ↦ absurd (ground (arith, h, y))
  ]

  send_rpc-gives :
      (c : Conn) (b : ℕ) (q : Q) (t u : Transport stream) (a : Unit {0})
      → send_rpc stream c b q t ≡ gives a u
      → Written c.id b q t.net × (u.net ≡ sent c.id b q t.net)
  unfolding send_rpc
  send_rpc-gives c b q t u a h =
      let write = λ (n : N). stream.write_byte n c.id b in
      let encode = λ (n : N). stream.encode n c.id q in
      let flush = λ (n : N). stream.flush n c.id in
      let flushes = call stream c flush_err flush in
      let encodes = call stream c encode_err encode in
      let (x, v, p, k) =
        >>=-eq-gives (call stream c write_err write) (λ y. encodes >> flushes) t u a h in
      let (y, w, p1, k1) = >>=-eq-gives encodes (λ z. flushes) v u a k in
      let (d, e) = call-gives c write_err write t v x p in
      let (d1, e1) = call-gives c encode_err encode v w y p1 in
      let (d2, e2) = call-gives c flush_err flush w u a k1 in
      let vn : v.net ≡ (write t.net).1 = ap (λ (z : Transport stream). z.net) e in
      let wn : w.net ≡ (encode v.net).1 = ap (λ (z : Transport stream). z.net) e1 in
      let un : u.net ≡ (flush w.net).1 = ap (λ (z : Transport stream). z.net) e2 in
      let wn' = wn ∙ ap (λ n. (encode n).1) vn in
      (
        (d, ap (λ n. (encode n).0) (sym vn) ∙ d1, ap (λ n. (flush n).0) (sym wn') ∙ d2),
        un ∙ ap (λ n. (flush n).1) wn',
      )

  reading-gives :
      {A : Type 0} (e : CmdErr) (f : N → Option A × N) (n m : N) (a : A)
      → reading listener e f n ≡ gives a m
      → ((f n).0 ≡ some a) × (m ≡ (f n).1)
  unfolding reading
  reading-gives e f n m a h = elim (Option-cases (f n).0) [
    | inl y ↦ absurd (ground (arith, h, y))
    | inr (b, y) ↦ (ground (arith, h, y), ground (arith, h, y))
  ]

  writing-gives :
      (f : N → Bool × N) (n m : N) (a : Unit {0})
      → writing listener f n ≡ gives a m
      → ((f n).0 ≡ true) × (m ≡ (f n).1)
  unfolding writing
  writing-gives f n m a h = elim (Bool-cases (f n).0) [
    | inl y ↦ (y, ground (arith, h, y))
    | inr y ↦ absurd (ground (arith, h, y))
  ]

  -- What a command that is answered was read from, and what it wrote.
  record Served (i : ℕ) (n m : N) (q : Q) (k : N) : Type 0 where
    resp : RpcResponse R
    consumed : (listener.consume k q).0 ≡ some resp
    wrote :
        ((listener.encode_error (listener.consume k q).1 i (error_text listener resp)).0 ≡ true)
        × ((listener.encode_response
              (listener.encode_error (listener.consume k q).1 i (error_text listener resp)).1
              i
              resp.response).0
            ≡ true)
    left : m ≡ replied i (error_text listener resp) resp.response (listener.consume k q).1

  read_type-byte :
      (i b : ℕ) (n : N)
      → (listener.read_byte n i).0 ≡ byte b
      → read_type listener i n ≡ gives b (listener.read_byte n i).1
  unfolding read_type
  read_type-byte i b n got = ground (arith, got)

  decode_command-request :
      (i b : ℕ) (q : Q) (n : N)
      → (b ≡ rpc_sync) ⊎ (b ≡ rpc_eager_sync)
      → (decode_by b n i).0 ≡ some q
      → decode_command listener i b n ≡ gives q (decode_by b n i).1
  unfolding decode_command reading
  decode_command-request i b q n kind h = elim (Bool-cases (eqb b rpc_sync)) [
    | inl y ↦ ground (arith, y, h)
    | inr y ↦
        let eager : eqb b rpc_eager_sync ≡ true = ground (arith, y, kind) in
        ground (arith, y, eager, h)
  ]

  -- the part of a command after its request
  serve : ℕ → Q → N → Ran CmdErr N (Unit {0})
  serve i q = reading listener transport_shutdown (λ n. listener.consume n q) >>= λ resp.
      writing listener (λ n. listener.encode_error n i (error_text listener resp))
      >> writing listener (λ n. listener.encode_response n i resp.response)

  handle_command-Served :
      (i b : ℕ) (q : Q) (n m : N) (a : Unit {0})
      → (listener.read_byte n i).0 ≡ byte b
      → (b ≡ rpc_sync) ⊎ (b ≡ rpc_eager_sync)
      → (decode_by b (listener.read_byte n i).1 i).0 ≡ some q
      → handle_command listener i n ≡ gives a m
      → Served i n m q (decode_by b (listener.read_byte n i).1 i).1
  unfolding handle_command serve
  handle_command-Served i b q n m a got kind decoded h =
      let first = read_type-byte i b n got in
      let second = decode_command-request i b q (listener.read_byte n i).1 kind decoded in
      let k = (decode_by b (listener.read_byte n i).1 i).1 in
      let served : serve i q k ≡ gives a m = ground (arith, h, first, second) in
      let (resp, n1, p1, k1) =
        >>=-eq-gives (reading listener transport_shutdown (λ x. listener.consume x q)) _ k m a
          served in
      let (y, n2, p2, k2) =
        >>=-eq-gives (writing listener (λ x. listener.encode_error x i (error_text listener resp)))
          (λ z. writing listener (λ x. listener.encode_response x i resp.response)) n1 m a k1 in
      let (got_resp, e1) =
        reading-gives transport_shutdown (λ x. listener.consume x q) k n1 resp p1 in
      let (w1, e2) =
        writing-gives (λ x. listener.encode_error x i (error_text listener resp)) n1 n2 y p2 in
      let (w2, e3) = writing-gives (λ x. listener.encode_response x i resp.response) n2 m a k2 in
      let e2' = e2 ∙ ap (λ x. (listener.encode_error x i (error_text listener resp)).1) e1 in
      record {
        resp = resp;
        consumed = got_resp;
        wrote = (
          ap (λ x. (listener.encode_error x i (error_text listener resp)).0) (sym e1) ∙ w1,
          ap (λ x. (listener.encode_response x i resp.response).0) (sym e2') ∙ w2,
        );
        left = e3 ∙ ap (λ x. (listener.encode_response x i resp.response).1) e2';
      }

  decode_response-reads :
      (c : Conn) (e : String) (r : R) (t : Transport stream)
      → (stream.decode_error t.net c.id).0 ≡ some e
      → (stream.decode_response (stream.decode_error t.net c.id).1 c.id).0 ≡ some r
      → (v : Transport stream) × (decode_response stream c t ≡ gives (e, r) v)
  unfolding decode_response read
  decode_response-reads c e r t h j = (
    record t { net = (stream.decode_response (stream.decode_error t.net c.id).1 c.id).1 },
    ground (arith, h, j),
  )

  module _ (Idle Asked : N → ℕ → Type 0) (carries : Carries Idle Asked) where
    -- On connections that carry what is written: where a client sends a request on an idle connection, and the server
    -- handles one command on it and flushes, the consumer was given that request, and the client decodes
    -- the text of its error and its response.
    pub exchange_lem :
        (c : Conn) (b : ℕ) (q : Q) (t u : Transport stream) (n : N)
        → Idle t.net c.id
        → (b ≡ rpc_sync) ⊎ (b ≡ rpc_eager_sync)
        → send_rpc stream c b q t ≡ gives tt u
        → handle_command listener c.id u.net ≡ gives tt n
        → (listener.flush n c.id).0 ≡ true
        → (resp : RpcResponse R) × (k : N) × (v : Transport stream) × ((listener.consume k q).0
            ≡ some resp)
          × (decode_response stream c (record u { net = (listener.flush n c.id).1 })
              ≡ gives (error_text listener resp, resp.response) v)
    exchange_lem c b q t u n idle kind sends handles flushed =
        let (written, un) = send_rpc-gives c b q t u tt sends in
        let handled = subst (λ x. handle_command listener c.id x ≡ gives tt n) un handles in
        let got = carries.carries_type c.id b q t.net idle written in
        let (decoded, asked) = carries.carries_request c.id b q t.net idle written in
        let s =
          handle_command-Served c.id b q (sent c.id b q t.net) n tt got kind decoded handled in
        let k = (decode_by b (listener.read_byte (sent c.id b q t.net) c.id).1 c.id).1 in
        let resp = s.resp in
        let reply : Replied c.id (error_text listener resp) resp.response (listener.consume k q).1 =
          (s.wrote.0, s.wrote.1, ap (λ x. (listener.flush x c.id).0) (sym s.left) ∙ flushed) in
        let (heard, read_it) =
          carries.carries_answer c.id (error_text listener resp) resp.response
            (listener.consume k q).1 (carries.keeps_asked c.id q k asked) reply in
        let back = ap (λ x. (listener.flush x c.id).1) (sym s.left) in
        let (v, reads) =
          decode_response-reads c (error_text listener resp) resp.response
            (record u { net = (listener.flush n c.id).1 })
            (subst (λ x. (stream.decode_error x c.id).0 ≡ some (error_text listener resp)) back
              heard)
            (subst
              (λ x.
                (stream.decode_response (stream.decode_error x c.id).1 c.id).0 ≡ some resp.response)
              back read_it) in
        (resp, k, v, s.consumed, reads)
