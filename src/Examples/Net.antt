-- ===== src/Examples/Net.antt =====
-- The framed connection of host/src/net/server.cpp over a socket layer that is a pair of byte lists.
use m_extender.Prelude.{
  ℕ, ◌≡◌, ◌≤◌, refl, sym, true, List, [], ◌∷◌, ◌++◌, take, drop, length, arith, take-append-drop,
  length-take, take-length, ap, ltb,
}
use m_extender.Wire.{Header, encode_header, decode_header}
use m_extender.Net.{Sockets, Server, frame_header, send_frame, read_frame}
use m_extender.Net.Exact.{IsOpen}
use m_extender.Net.Whole.{ReadResult, read_frame-ReadResult}
use m_extender.Net.Frames.{Delivered, Reads, send_frame_lem, read_frame-send_frame}

abbrev pub Pipe : Type 0
Pipe = List ℕ × List ℕ

abbrev pub pipe_recv : Pipe → ℕ → Pipe × List ℕ
pipe_recv (p, w) n = ((drop n p, w), take n p)

abbrev pub pipe_send : Pipe → List ℕ → Pipe × ℕ
pipe_send (p, w) bytes = ((p, w ++ bytes), length bytes)

pub take_most : (n : ℕ) (p : List ℕ) → length (take n p) ≤ n
take_most n p = omega (arith, length-take n p)

-- The pending bytes come at once, as far as they fit, and all that is sent goes out.
abbrev pub pipe : Sockets
pipe = record {
  S = Pipe;
  recv = pipe_recv;
  send = pipe_send;
  readable = λ s. ltb 0 (length s.0);
  pending = λ s. s.0;
  wire = λ s. s.1;
  recv_in_order = λ (p, w) n. take-append-drop n p;
  recv_at_most = λ (p, w) n. take_most n p;
  send_in_order = λ (p, w) bytes. ap (λ l. w ++ l) (sym (take-length bytes));
  send_at_most = λ (p, w) bytes. omega arith;
  recv-wire = λ (p, w) n. refl;
}

pipe-IsOpen : IsOpen pipe
pipe-IsOpen (p, w) n h k = omega (arith, length-take n p)

abbrev pub live : Server
live = record { listening = true; connected = true; seq = 6; ts0_ns = 1000 }

abbrev payload : List ℕ
payload = 7 ∷ 8 ∷ 9 ∷ []

abbrev stream : Pipe
stream = (encode_header (frame_header live 5 3 5000) ++ (payload ++ 1 ∷ []), [])

stream_ready : ltb 0 (length stream.0) ≡ true
unfolding encode_header m_extender.Wire.le
stream_ready = refl

send_frame_lem_example :
    Delivered pipe
      (send_frame pipe live 5 payload 3 5000 stream)
      stream
      (encode_header (frame_header live 5 3 5000) ++ payload)
send_frame_lem_example = send_frame_lem pipe live 5 payload 5000 stream refl (omega arith)

read_frame-send_frame_example : Reads pipe (read_frame pipe live (4 ∷ []) stream) 5 payload (1 ∷ [])
read_frame-send_frame_example =
    read_frame-send_frame pipe live live 5 (4 ∷ []) payload (1 ∷ []) 5000 stream pipe-IsOpen refl
      stream_ready (omega arith) (omega arith) refl

read_frame-ReadResult_example : ReadResult pipe [] live stream (read_frame pipe live [] stream)
read_frame-ReadResult_example = read_frame-ReadResult pipe live [] stream
