-- ===== src/Net/Frames.antt =====
-- SendFrame and ReadFrame as whole operations.
use m_extender.Prelude.{
  ℕ, zero, suc, ◌-◌, ◌≤◌, ◌<◌, ◌^◌, ◌≡◌, ◌⊎◌, refl, sym, ap, subst, ◌∙◌, true, false, Bool, Option,
  none, some, List, [], ◌∷◌, ◌++◌, length, take, drop, ◌==◌, arith, append_assoc, append-nil,
  length-append, inl, inr, replicate, length-take, length-replicate, drop-length,
}
use m_extender.Prelude.Int.{pos}
use m_extender.Prelude.Words.{as_int}
use m_extender.Wire.{Header, encode_header, decode_header, sp_magic, sp_version}
use m_extender.Wire.RoundTrip.{HeaderFits, decode_header-encode_header, length-encode_header}
use m_extender.Net.{
  Sockets, Server, Outcome, done, failed, out_of_fuel, recv_exact, send_all, send_payload,
  send_frame, read_payload, read_header, read_frame, frame_header, disconnect, resize, sent,
  received, check_header,
}
use m_extender.Net.Exact.{IsOpen, Arrives, recv_exact-Arrives, Sent, send_all_lem}

pub length-resize : (xs : List ℕ) (n : ℕ) → length (resize xs n) ≡ n
unfolding resize
length-resize xs n = omega (
  arith,
  length-append (take n xs) (replicate (n - length xs) 0),
  length-take n xs,
  length-replicate (n - length xs) zero,
)

pub as_int_small : (n : ℕ) → n < 2 ^ 31 → as_int n ≡ pos n
as_int_small n h = unfold as_int in ground arith

module _ (net : Sockets) where
  open net use {S, readable, pending, wire}

  -- The frame went out whole, or the client is disconnected.
  abbrev pub Delivered : (Server × S) × Bool → S → List ℕ → Type 0
  Delivered ((srv, s'), sent) s bytes =
      ((sent ≡ true) × (wire s' ≡ wire s ++ bytes)) ⊎ ((sent ≡ false) × (srv.connected ≡ false))

  sent_lem :
      (srv : Server) (payload hdr : List ℕ) (s s1 : S) (r : S × Outcome (Unit {0}))
      → wire s1 ≡ wire s ++ hdr
      → Sent net payload s1 r
      → Delivered (sent net srv r) s (hdr ++ payload)
  unfolding sent disconnect
  sent_lem srv payload hdr s s1 (s', done _) e h =
      inl (refl, h ∙ ap (λ l. l ++ payload) e ∙ append_assoc (wire s) hdr payload)
  sent_lem srv payload hdr s s1 (s', failed) e h = inr (refl, refl)
  sent_lem srv payload hdr s s1 (s', out_of_fuel) e h = absurd h

  send_payload_lem :
      (srv : Server) (payload hdr : List ℕ) (s : S) (r : S × Outcome (Unit {0}))
      → length payload < 2 ^ 31
      → Sent net hdr s r
      → Delivered (send_payload net srv payload (length payload) r) s (hdr ++ payload)
  unfolding send_payload disconnect
  send_payload_lem srv [] hdr s (s', done _) b h =
      inl (refl, h ∙ ap (λ l. wire s ++ l) (sym (append-nil hdr)))
  send_payload_lem srv (p ∷ ps) hdr s (s', done _) b h =
      let e : suc (length ps) == 0 ≡ false = ground arith in
      rw (e, as_int_small (suc (length ps)) b)
        (sent_lem srv (p ∷ ps) hdr s s' _ h (send_all_lem net (p ∷ ps) s'))
  send_payload_lem srv payload hdr s (s', failed) b h = inr (refl, refl)
  send_payload_lem srv payload hdr s (s', out_of_fuel) b h = absurd h

  -- With a client and a payload of less than 2 GiB, SendFrame puts the header, with the next sequence
  -- number, and then the payload on the wire and returns true, or it disconnects the client and returns false.
  pub send_frame_lem :
      (srv : Server) (type : ℕ) (payload : List ℕ) (now_ns : ℕ) (s : S)
      → srv.connected ≡ true
      → length payload < 2 ^ 31
      → Delivered
          (send_frame net srv type payload (length payload) now_ns s)
          s
          (encode_header (frame_header srv type (length payload) now_ns) ++ payload)
  unfolding send_frame
  send_frame_lem srv type payload now_ns s c b =
      let h = frame_header srv type (length payload) now_ns in
      simp c (
        send_payload_lem _ payload (encode_header h) s _ b (
          subst (λ k. Sent net (encode_header h) s (send_all net s (encode_header h) (pos k)))
            (length-encode_header h) (send_all_lem net (encode_header h) s)))

  -- The frame comes back, and the stream stands behind it.
  abbrev pub Reads : (Server × S) × Option (ℕ × List ℕ) → ℕ → List ℕ → List ℕ → Type 0
  Reads ((srv, s'), none) type payload rest = ⊥
  Reads ((srv, s'), some (t, p)) type payload rest =
      (t ≡ type) × (p ≡ payload) × (pending s' ≡ rest)

  received_lem :
      (srv : Server) (h : Header) (buffer payload rest : List ℕ) (r : S × Outcome (List ℕ))
      → h.payload_len ≡ length payload
      → Arrives net r payload rest
      → Reads (received net srv h buffer r) h.type payload rest
  unfolding received
  received_lem srv h buffer payload rest (s', done got) e a =
      let old = resize buffer h.payload_len in
      let l : length got ≡ length old =
        ap length a.0 ∙ sym e ∙ sym (length-resize buffer h.payload_len) in
      (
        refl,
        ap (λ k. got ++ drop k old) l ∙ ap (λ l. got ++ l) (drop-length old) ∙ append-nil got ∙ a.0,
        a.1,
      )
  received_lem srv h buffer payload rest (s', failed) e a = absurd a
  received_lem srv h buffer payload rest (s', out_of_fuel) e a = absurd a

  read_payload_lem :
      (srv : Server) (h : Header) (buffer payload rest : List ℕ) (s : S)
      → IsOpen net
      → h.payload_len ≡ length payload
      → length payload < 2 ^ 31
      → pending s ≡ payload ++ rest
      → Reads (read_payload net srv h buffer s) h.type payload rest
  unfolding read_payload
  read_payload_lem srv h buffer [] rest s o e b p = rw e (refl, refl, p)
  read_payload_lem srv h buffer (x ∷ xs) rest s o e b p =
      let z : h.payload_len == 0 ≡ false = ground arith in
      rw (z, ap as_int e ∙ as_int_small _ b)
        (received_lem srv h buffer (x ∷ xs) rest _ e (recv_exact-Arrives net s (x ∷ xs) rest o p))

  read_header_lem :
      (srv : Server) (h : Header) (buffer payload rest : List ℕ) (r : S × Outcome (List ℕ))
      → IsOpen net
      → HeaderFits h
      → h.magic ≡ sp_magic
      → h.version ≡ sp_version
      → h.payload_len ≡ length payload
      → length payload < 2 ^ 31
      → Arrives net r (encode_header h) (payload ++ rest)
      → Reads (read_header net srv buffer r) h.type payload rest
  unfolding read_header check_header
  read_header_lem srv h buffer payload rest (s', done bytes) o f m v e b a =
      let d : decode_header bytes ≡ h =
        ap decode_header (a.0 ∙ sym (append-nil (encode_header h)))
        ∙ decode_header-encode_header h [] f in
      subst (λ k. Reads (check_header net srv k buffer s') h.type payload rest) (sym d)
        (simp (m, v) (read_payload_lem srv h buffer payload rest s' o e b a.1))
  read_header_lem srv h buffer payload rest (s', failed) o f m v e b a = absurd a
  read_header_lem srv h buffer payload rest (s', out_of_fuel) o f m v e b a = absurd a

  frame_header-HeaderFits :
      (peer : Server) (type len now_ns : ℕ)
      → type < 2 ^ 16
      → len < 2 ^ 31
      → HeaderFits (frame_header peer type len now_ns)
  unfolding frame_header
  frame_header-HeaderFits peer type len now_ns t b = ground arith

  read_header_of :
      (srv peer : Server) (type : ℕ) (buffer payload rest : List ℕ) (now_ns : ℕ)
      (r : S × Outcome (List ℕ))
      → IsOpen net
      → type < 2 ^ 16
      → length payload < 2 ^ 31
      → Arrives net r
          (encode_header (frame_header peer type (length payload) now_ns))
          (payload ++ rest)
      → Reads (read_header net srv buffer r) type payload rest
  unfolding frame_header
  read_header_of srv peer type buffer payload rest now_ns r o t b a =
      read_header_lem srv (frame_header peer type (length payload) now_ns) buffer payload rest r o
        (frame_header-HeaderFits peer type (length payload) now_ns t b) refl refl refl b a

  -- Frames round trip: when a connection that stays open has data, and its stream starts with the
  -- header and the payload of less than 2 GiB that SendFrame writes, then ReadFrame returns that type and that
  -- payload, whatever its buffer held, and leaves the rest of the stream.
  pub read_frame-send_frame :
      (srv peer : Server) (type : ℕ) (buffer payload rest : List ℕ) (now_ns : ℕ) (s : S)
      → IsOpen net
      → srv.connected ≡ true
      → readable s ≡ true
      → type < 2 ^ 16
      → length payload < 2 ^ 31
      → pending s
        ≡ encode_header (frame_header peer type (length payload) now_ns) ++ (payload ++ rest)
      → Reads (read_frame net srv buffer s) type payload rest
  unfolding read_frame
  read_frame-send_frame srv peer type buffer payload rest now_ns s o c r t b p =
      let h = frame_header peer type (length payload) now_ns in
      simp (c, r)
        (read_header_of srv peer type buffer payload rest now_ns _ o t b (
          subst (λ k. Arrives net (recv_exact net s (pos k)) (encode_header h) (payload ++ rest))
            (length-encode_header h)
            (recv_exact-Arrives net s (encode_header h) (payload ++ rest) o p)))

  -- A frame whose length field is 2 GiB or more is returned at once, and none of its payload is taken
  -- from the stream, since the length is cast to a negative int.
  pub read_payload_negative :
      (srv : Server) (h : Header) (buffer : List ℕ) (s : S)
      → 2 ^ 31 ≤ h.payload_len
      → read_payload net srv h buffer s ≡ ((srv, s), some (h.type, resize buffer h.payload_len))
  unfolding read_payload received recv_exact as_int
  read_payload_negative srv h buffer s b = ground arith
