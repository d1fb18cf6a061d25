-- ===== src/Net.antt =====
-- host/src/net/server.h and server.cpp: the framed TCP server. The socket layer is a parameter: `recv`
-- returns the bytes that arrived, none when the connection failed or was closed, and `send` the
-- number of bytes taken, 0 on an error. `connected` is `client_sock_ != INVALID_SOCKET`.
pub mod Consumed
pub mod Exact
pub mod Frames
pub mod Whole
use m_extender.Prelude.{
  ℕ, zero, suc, ◌+◌, ◌-◌, ◌/◌, ◌≤◌, ◌≡◌, Bool, true, false, ◌&&◌, not, List, [], ◌∷◌, ◌++◌, Option,
  none, some, length, replicate, take, drop, ltb, leb, ◌==◌, if◌then◌else◌,
}
use m_extender.Prelude.Int.{ℤ, pos, negsuc}
use m_extender.Prelude.Words.{u32, u64, as_int}
use m_extender.Wire.{Header, encode_header, decode_header, header_size, sp_magic, sp_version}

-- The calls of the socket library, over a state of its own.
pub record Sockets : Type 1 where
  pub S : Type 0
  pub recv : S → ℕ → S × List ℕ
  pub send : S → List ℕ → S × ℕ
  pub readable : S → Bool
  -- Ghost: the bytes that have yet to be received, and those that were sent.
  pub pending : S → List ℕ
  pub wire : S → List ℕ
  pub recv_in_order : (s : S) (n : ℕ) → (recv s n).1 ++ pending (recv s n).0 ≡ pending s
  pub recv_at_most : (s : S) (n : ℕ) → length (recv s n).1 ≤ n
  pub send_in_order :
      (s : S) (bytes : List ℕ) → wire (send s bytes).0 ≡ wire s ++ take (send s bytes).1 bytes
  pub send_at_most : (s : S) (bytes : List ℕ) → (send s bytes).1 ≤ length bytes
  -- Each direction leaves the other alone.
  pub recv-wire : (s : S) (n : ℕ) → wire (recv s n).0 ≡ wire s

-- The members of TcpServer that the frames use.
pub record Server : Type 0 where
  pub listening : Bool
  pub connected : Bool
  pub seq : ℕ
  pub ts0_ns : ℕ

-- How a loop over the socket ended.
pub data Outcome {ℓ} (A : Type ℓ) : Type ℓ where
  done : A → Outcome A
  failed : Outcome A
  out_of_fuel : Outcome A

unfoldable pub disconnect : Server → Server
disconnect srv = record srv { connected = false }

-- TcpServer::Start, given what WSAStartup, socket, bind and listen report.
unfoldable pub start : Server → Bool → Bool → Bool → Bool → Server × Bool
start srv wsa socket bound listens =
    if wsa
    then (if socket
        then (record srv { listening = true }, bound && listens)
        else (record srv { listening = false }, false))
    else (srv, false)

unfoldable pub shutdown : Server → Server
unfolding disconnect
shutdown srv = record (disconnect srv) { listening = false }

-- WaitForClient, given what select and accept report and the time of the steady clock.
unfoldable pub wait_for_client : Server → Bool → Bool → ℕ → Server × Bool
wait_for_client srv ready accepted now_ns =
    if ready
    then (if accepted
        then (record srv { connected = true; seq = 0; ts0_ns = u64 now_ns }, true)
        else (record srv { connected = false }, false))
    else (srv, false)

-- What SendFrame puts in the header at time `now_ns` of the steady clock.
unfoldable pub frame_header : Server → ℕ → ℕ → ℕ → Header
frame_header srv type len now_ns = record {
  magic = sp_magic;
  version = sp_version;
  type = type;
  seq = u32 (srv.seq + 1);
  ts_us = if srv.ts0_ns == 0 then 0 else u64 ((now_ns - srv.ts0_ns) / 1000);
  payload_len = len;
}

-- vector::resize: what was there stays, new elements are 0.
unfoldable pub resize : List ℕ → ℕ → List ℕ
resize xs n = take n xs ++ replicate (n - length xs) 0

module _ (net : Sockets) where
  open net use {S, recv, send, readable}

  -- `recv_exact` with `need` bytes still to come and `got` those that came.
  unfoldable pub recv_loop : ℕ → ℕ → List ℕ → S → S × Outcome (List ℕ)
  recv_loop fuel zero got s = (s, done got)
  recv_loop zero (suc need) got s = (s, out_of_fuel)
  recv_loop (suc fuel) (suc need) got s =
      let (s', bytes) = recv s (suc need) in
      let rest = recv_loop fuel (suc need - length bytes) (got ++ bytes) s' in
      if length bytes == 0 then (s', failed) else rest

  -- The length is an int: the loop body of a negative length is never entered.
  unfoldable pub recv_exact : S → ℤ → S × Outcome (List ℕ)
  unfolding recv_loop
  recv_exact s (pos n) = recv_loop n n [] s
  recv_exact s (negsuc n) = (s, done [])

  unfoldable pub send_loop : ℕ → List ℕ → S → S × Outcome (Unit {0})
  send_loop fuel [] s = (s, done tt)
  send_loop zero (b ∷ bytes) s = (s, out_of_fuel)
  send_loop (suc fuel) (b ∷ bytes) s =
      let (s', r) = send s (b ∷ bytes) in
      let rest = send_loop fuel (drop r (b ∷ bytes)) s' in if r == 0 then (s', failed) else rest

  -- A buffer sent under a length: of a negative length nothing is sent.
  unfoldable pub send_all : S → List ℕ → ℤ → S × Outcome (Unit {0})
  unfolding send_loop
  send_all s bytes (pos n) = send_loop n (take n bytes) s
  send_all s bytes (negsuc n) = (s, done tt)

  -- The end of a send: a failure disconnects the client.
  unfoldable pub sent : Server → S × Outcome (Unit {0}) → (Server × S) × Bool
  sent srv (s, done _) = ((srv, s), true)
  sent srv (s, failed) = ((disconnect srv, s), false)
  sent srv (s, out_of_fuel) = ((disconnect srv, s), false)

  -- What follows the send of the header.
  unfoldable pub send_payload : Server → List ℕ → ℕ → S × Outcome (Unit {0}) → (Server × S) × Bool
  send_payload srv payload len (s, done _) =
      if len == 0 then ((srv, s), true) else sent srv (send_all s payload (as_int len))
  send_payload srv payload len (s, failed) = ((disconnect srv, s), false)
  send_payload srv payload len (s, out_of_fuel) = ((disconnect srv, s), false)

  unfoldable pub send_frame : Server → ℕ → List ℕ → ℕ → ℕ → S → (Server × S) × Bool
  send_frame srv type payload len now_ns s =
      if srv.connected
      then send_payload (record srv { seq = u32 (srv.seq + 1) }) payload len
          (send_all s (encode_header (frame_header srv type len now_ns)) (pos header_size))
      else ((srv, s), false)

  -- The payload has come into the buffer of an earlier one: `resize`, then the bytes over it.
  unfoldable pub received :
      Server → Header → List ℕ → S × Outcome (List ℕ) → (Server × S) × Option (ℕ × List ℕ)
  received srv h buffer (s, done got) =
      ((srv, s), some (h.type, got ++ drop (length got) (resize buffer h.payload_len)))
  received srv h buffer (s, failed) = ((disconnect srv, s), none)
  received srv h buffer (s, out_of_fuel) = ((disconnect srv, s), none)

  unfoldable pub read_payload : Server → Header → List ℕ → S → (Server × S) × Option (ℕ × List ℕ)
  read_payload srv h buffer s =
      if h.payload_len == 0
      then ((srv, s), some (h.type, []))
      else received srv h buffer (recv_exact s (as_int h.payload_len))

  unfoldable pub check_header : Server → Header → List ℕ → S → (Server × S) × Option (ℕ × List ℕ)
  check_header srv h buffer s =
      if h.magic == sp_magic && h.version == sp_version
      then read_payload srv h buffer s
      else ((disconnect srv, s), none)

  unfoldable pub read_header :
      Server → List ℕ → S × Outcome (List ℕ) → (Server × S) × Option (ℕ × List ℕ)
  read_header srv buffer (s, done bytes) = check_header srv (decode_header bytes) buffer s
  read_header srv buffer (s, failed) = ((disconnect srv, s), none)
  read_header srv buffer (s, out_of_fuel) = ((disconnect srv, s), none)

  -- `none` stands for false; the type and the payload are the two results of true.
  unfoldable pub read_frame : Server → List ℕ → S → (Server × S) × Option (ℕ × List ℕ)
  read_frame srv buffer s =
      if srv.connected && readable s
      then read_header srv buffer (recv_exact s (pos header_size))
      else ((srv, s), none)
