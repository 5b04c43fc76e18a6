-- ===== src/Tests/Connections.antt =====
-- A transport on a network where every call succeeds and every answer is the number of its connection.
use paradigm.Prelude.{
  ℕ, ◌+◌, ◌<◌, String, ◌≡◌, refl, ◌⊎◌, Bool, true, false, ◌||◌, some, List, [], ◌∷◌, arith, eqb,
  eqb_iff, pos, nat_eq, int_eq, string_eq, pair_eq, find,
}
use paradigm.Common.Effects.{gives, fails}
use paradigm.Network.Tcp.{
  Stream, NetworkTransport, Conn, new_network_transport, get_conn, get_pooled_conn, dial_conn,
  generic_rpc, return_conn, send_rpc, call, release, flush_err,
}
use paradigm.Network.Tcp.Closed.{reachable-Closed}
use paradigm.Network.Tcp.Released.{Closes}
use paradigm.Network.Tcp.Places.{Placed}
use paradigm.Network.Tcp.Steps.{
  gets, returns, cannot_send, Steps, none_taken, then_one, reachable-Placed, Settled,
  generic_rpc-Settled,
}

abbrev calm : Stream ℕ String ℕ
calm = record {
  dial = λ n target. (true, n + 1);
  set_deadline = λ n i. n;
  write_byte = λ n i b. (true, n);
  encode = λ n i q. (true, n);
  flush = λ n i. (true, n);
  decode_error = λ n i. (some "", n);
  decode_response = λ n i. (some i, n);
  close_conn = λ n i. n;
  close_listener = λ n. n;
  errorf = λ e. e;
}

idle : NetworkTransport ℕ
idle = new_network_transport calm 0 (pos 1) (pos 10)

abbrev first : Conn
first = record { target = "a"; id = 0 }

abbrev called : NetworkTransport ℕ
called = record {
  conn_pool = [];
  max_pool = pos 1;
  shutdown = false;
  timeout = pos 10;
  net = 1;
  dialed = 1;
  released = [];
}

dialed_first : get_conn calm "a" idle ≡ gives first called
unfolding get_conn get_pooled_conn dial_conn find idle new_network_transport
dialed_first = refl

called_and_returned : Steps calm idle [] (return_conn calm first called) []
called_and_returned =
    then_one called (return_conn calm first called) (first ∷ []) []
      (then_one idle called [] (first ∷ []) none_taken (gets "a" first called dialed_first))
      (returns [] [] first refl)

reachable-Placed_example : Placed calm (return_conn calm first called) []
unfolding idle
reachable-Placed_example =
    reachable-Placed calm 0 (pos 1) (pos 10) (return_conn calm first called) [] called_and_returned

returned_Placed : Placed calm (return_conn calm first called) []
unfolding idle
returned_Placed =
    reachable-Placed calm 0 (pos 1) (pos 10) (return_conn calm first called) [] called_and_returned

generic_rpc-Settled_example :
    Settled calm [] (generic_rpc calm "a" 0 "request" (return_conn calm first called))
generic_rpc-Settled_example =
    generic_rpc-Settled calm "a" 0 "request" (return_conn calm first called) [] returned_Placed

-- A network that keeps the numbers of the connections that were closed, and where no request is sent.
abbrev has : List ℕ → ℕ → Bool
has [] i = false
has (j ∷ js) i = eqb j i || has js i

abbrev IsCut : List ℕ → ℕ → Type 0
IsCut n i = has n i ≡ true

abbrev broken : Stream (List ℕ) String ℕ
broken = record {
  dial = λ n target. (true, n);
  set_deadline = λ n i. n;
  write_byte = λ n i b. (true, n);
  encode = λ n i q. (true, n);
  flush = λ n i. (false, n);
  decode_error = λ n i. (some "", n);
  decode_response = λ n i. (some i, n);
  close_conn = λ n i. i ∷ n;
  close_listener = λ n. n;
  errorf = λ e. e;
}

broken-Closes : Closes broken IsCut
broken-Closes = record {
  close_conn = λ n i. ground (arith, eqb_iff i i);
  keeps_close_conn = λ n i j h. ground (arith, h);
  keeps_close_listener = λ n j h. h;
  keeps_dial = λ n k j h. h;
  keeps_set_deadline = λ n i j h. h;
  keeps_write_byte = λ n i b j h. h;
  keeps_encode = λ n i q j h. h;
  keeps_flush = λ n i j h. h;
  keeps_decode_error = λ n i j h. h;
  keeps_decode_response = λ n i j h. h;
}

fresh_start : NetworkTransport (List ℕ)
fresh_start = new_network_transport broken [] (pos 1) (pos 10)

abbrev holding_first : NetworkTransport (List ℕ)
holding_first = record {
  conn_pool = [];
  max_pool = pos 1;
  shutdown = false;
  timeout = pos 10;
  net = [];
  dialed = 1;
  released = [];
}

holds_first : get_conn broken "a" fresh_start ≡ gives first holding_first
unfolding get_conn get_pooled_conn dial_conn find fresh_start new_network_transport
holds_first = refl

abbrev cut_first : NetworkTransport (List ℕ)
cut_first = record {
  conn_pool = [];
  max_pool = pos 1;
  shutdown = false;
  timeout = pos 10;
  net = 0 ∷ [];
  dialed = 1;
  released = first ∷ [];
}

cuts_first : send_rpc broken first 0 "request" holding_first ≡ fails flush_err cut_first
unfolding send_rpc call release
cuts_first = refl

sent_and_cut : Steps broken fresh_start [] cut_first []
sent_and_cut =
    then_one holding_first cut_first (first ∷ []) []
      (then_one fresh_start holding_first [] (first ∷ []) none_taken
        (gets "a" first holding_first holds_first))
      (cannot_send [] [] first 0 "request" flush_err cut_first refl cuts_first)

reachable-Closed_example : (0 < 0) ⊎ ((0 < 0) ⊎ IsCut (0 ∷ []) 0)
unfolding fresh_start
reachable-Closed_example =
    reachable-Closed broken IsCut broken-Closes [] (pos 1) (pos 10) cut_first [] 0 sent_and_cut
      (omega arith)
