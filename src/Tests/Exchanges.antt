-- ===== src/Tests/Exchanges.antt =====
-- One connection with a queue of bytes in each direction; a request is a number, and its answer the next one.
use paradigm.Prelude.{
  ℕ, ◌+◌, String, ◌≡◌, refl, inl, inr, true, false, Option, none, some, List, [], ◌∷◌, ◌++◌, eqb,
  if◌then◌else◌, Bool-cases, drop, pos, nat_eq, int_eq, string_eq, pair_eq,
}
use paradigm.Common.Effects.{gives}
use paradigm.Network.Tcp.{Stream, NetworkTransport, Conn, rpc_sync, send_rpc, decode_response, call}
use paradigm.Network.Tcp.Server.{
  byte, end_of_file, Listener, RpcResponse, handle_command, read_type, decode_command, reading,
  writing, error_text,
}
use paradigm.Network.Tcp.Exchange.{Carries, exchange_lem}

record Line : Type 0 where
  asked : List ℕ
  errors : List String
  answers : List ℕ

abbrev pop : {A : Type 0} → List A → Option A
pop [] = none
pop (x ∷ xs) = some x

abbrev client : Stream Line ℕ ℕ
client = record {
  dial = λ n target. (true, n);
  set_deadline = λ n i. n;
  write_byte = λ n i b. (true, record n { asked = n.asked ++ (b ∷ []) });
  encode = λ n i q. (true, record n { asked = n.asked ++ (q ∷ []) });
  flush = λ n i. (true, n);
  decode_error = λ n i. (pop n.errors, record n { errors = drop 1 n.errors });
  decode_response = λ n i. (pop n.answers, record n { answers = drop 1 n.answers });
  close_conn = λ n i. n;
  close_listener = λ n. n;
  errorf = λ e. e;
}

abbrev server : Listener Line ℕ ℕ
server = record {
  read_byte = λ n i.
      (elim n.asked [ [] ↦ end_of_file | x ∷ xs ↦ byte x ], record n { asked = drop 1 n.asked });
  decode_sync = λ n i. (pop n.asked, record n { asked = drop 1 n.asked });
  decode_eager_sync = λ n i. (pop n.asked, record n { asked = drop 1 n.asked });
  consume = λ n q. (some (record { response = q + 1; error = none }), n);
  encode_error = λ n i e. (true, record n { errors = n.errors ++ (e ∷ []) });
  encode_response = λ n i r. (true, record n { answers = n.answers ++ (r ∷ []) });
  flush = λ n i. (true, n);
  close_conn = λ n i. n;
}

abbrev IsIdle : Line → ℕ → Type 0
IsIdle n i = n ≡ record { asked = []; errors = []; answers = [] }

both :
    (b : ℕ) (q : ℕ) (n : Line)
    → n ≡ record { asked = q ∷ []; errors = []; answers = [] }
    → ((if eqb b rpc_sync then server.decode_sync n 0 else server.decode_eager_sync n 0).0 ≡ some q)
      × IsIdle (if eqb b rpc_sync then server.decode_sync n 0 else server.decode_eager_sync n 0).1 0
both b q n e = elim (Bool-cases (eqb b rpc_sync)) [
  | inl y ↦ rw (e, y) (refl, refl)
  | inr y ↦ rw (e, y) (refl, refl)
]

line_carries : Carries client server IsIdle IsIdle
line_carries = record {
  carries_type = λ i b q n idle w. rw idle refl;
  carries_request = λ i b q n idle w. rw idle (both b q _ refl);
  keeps_asked = λ i q n asked. asked;
  carries_answer = λ i e r n asked w. rw asked (refl, refl);
}

abbrev quiet : Line
quiet = record { asked = []; errors = []; answers = [] }

abbrev on : Line → NetworkTransport Line
on n = record {
  conn_pool = [];
  max_pool = pos 1;
  shutdown = false;
  timeout = pos 0;
  net = n;
  dialed = 1;
  released = [];
}

abbrev wire : Conn
wire = record { target = "a"; id = 0 }

sent_test :
    send_rpc client wire rpc_sync 41 (on quiet)
    ≡ gives tt (on (record quiet { asked = 0 ∷ 41 ∷ [] }))
unfolding send_rpc call
sent_test = refl

handled_test :
    handle_command server 0 (record quiet { asked = 0 ∷ 41 ∷ [] })
    ≡ gives tt (record quiet { errors = "" ∷ []; answers = 42 ∷ [] })
unfolding handle_command read_type decode_command reading writing
handled_test = refl

exchange_lem_example :
    (resp : RpcResponse ℕ) × (k : Line) × (v : NetworkTransport Line) × ((server.consume k 41).0
      ≡ some resp)
    × (decode_response client wire (on (record quiet { errors = "" ∷ []; answers = 42 ∷ [] }))
        ≡ gives (error_text server resp, resp.response) v)
exchange_lem_example =
    exchange_lem client server IsIdle IsIdle line_carries wire rpc_sync 41 (on quiet)
      (on (record quiet { asked = 0 ∷ 41 ∷ [] }))
      (record quiet { errors = "" ∷ []; answers = 42 ∷ [] }) refl (inl refl) sent_test handled_test
      refl
