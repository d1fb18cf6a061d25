-- ===== src/Net/Consumed.antt =====
-- What ReadFrame of host/src/net/server.cpp takes from the stream and leaves of the connection.
use m_extender.Prelude.{
  ℕ, zero, suc, ◌+◌, ◌-◌, ◌≤◌, ◌≡◌, ◌⊎◌, refl, ap, ◌∙◌, false, Option, none, some, List, [], ◌++◌,
  length, ◌==◌, ◌&&◌, arith, length-append, Bool-cases, inl, inr,
}
use m_extender.Prelude.Int.{ℤ, pos, negsuc}
use m_extender.Prelude.Words.{as_int}
use m_extender.Wire.{Header, header_size, decode_header, sp_magic, sp_version}
use m_extender.Net.{
  Sockets, Server, Outcome, done, failed, out_of_fuel, recv_loop, recv_exact, read_frame,
  read_header, check_header, read_payload, received, disconnect,
}
use m_extender.Net.Exact.{Received, recv_exact_lem}

module _ (net : Sockets) where
  open net use {S, recv, pending, wire}

  recv_loop-wire :
      (fuel need : ℕ) (got : List ℕ) (s : S) → wire (recv_loop net fuel need got s).0 ≡ wire s
  unfolding recv_loop
  recv_loop-wire fuel zero got s = refl
  recv_loop-wire zero (suc need) got s = refl
  recv_loop-wire (suc fuel) (suc need) got s =
      let bytes = (recv s (suc need)).1 in
      let s' = (recv s (suc need)).0 in
      elim (Bool-cases (length bytes == 0)) [
        | inl e ↦ rw e (net.recv-wire s (suc need))
        | inr e ↦ rw e (
            recv_loop-wire fuel (suc need - length bytes) (got ++ bytes) s'
            ∙ net.recv-wire s (suc need))
      ]

  recv_exact-wire : (s : S) (n : ℤ) → wire (recv_exact net s n).0 ≡ wire s
  unfolding recv_exact
  recv_exact-wire s (pos n) = recv_loop-wire n n [] s
  recv_exact-wire s (negsuc n) = refl

  -- At least k bytes were taken from the stream, if the step came back with any, and none was sent.
  Took : S → ℕ → S × Outcome (List ℕ) → Type 0
  Took s k (s', done got) = (wire s' ≡ wire s) × (length (pending s') + k ≤ length (pending s))
  Took s k (s', failed) = wire s' ≡ wire s
  Took s k (s', out_of_fuel) = wire s' ≡ wire s

  Took-from :
      (s : S) (n : ℕ) (r : S × Outcome (List ℕ))
      → wire r.0 ≡ wire s
      → Received net [] n s r
      → Took s n r
  unfolding Took
  Took-from s n (s', done got) w (l, e) =
      (w, omega (arith, l, ap length e, length-append got (pending s')))
  Took-from s n (s', failed) w h = w
  Took-from s n (s', out_of_fuel) w h = w

  recv_exact-Took : (s : S) (n : ℕ) → Took s n (recv_exact net s (pos n))
  recv_exact-Took s n = Took-from s n _ (recv_exact-wire s (pos n)) (recv_exact_lem net n s)

  Took-weaken : (s : S) (n : ℕ) (r : S × Outcome (List ℕ)) → Took s n r → Took s 0 r
  unfolding Took
  Took-weaken s n (s', done got) (w, l) = (w, omega arith)
  Took-weaken s n (s', failed) w = w
  Took-weaken s n (s', out_of_fuel) w = w

  recv_int-Took : (s : S) (n : ℤ) → Took s 0 (recv_exact net s n)
  unfolding Took
  recv_int-Took s (pos n) = Took-weaken s n _ (recv_exact-Took s n)
  recv_int-Took s (negsuc n) = unfold recv_exact in (refl, omega arith)

  -- How ReadFrame leaves the connection: nothing is sent; a frame takes its header's bytes at least from the
  -- stream and leaves the server as it was; without a frame the server is as it was or disconnected.
  abbrev pub Consumed : Server → S → (Server × S) × Option (ℕ × List ℕ) → Type 0
  Consumed srv s ((srv', s'), none) = (wire s' ≡ wire s) × ((srv' ≡ srv) ⊎ (srv'.connected ≡ false))
  Consumed srv s ((srv', s'), some f) =
      (wire s' ≡ wire s) × (srv' ≡ srv) × (length (pending s') + header_size ≤ length (pending s))

  received-Consumed :
      (srv : Server) (h : Header) (buffer : List ℕ) (s s' : S) (r : S × Outcome (List ℕ))
      → wire s' ≡ wire s
      → length (pending s') + header_size ≤ length (pending s)
      → Took s' 0 r
      → Consumed srv s (received net srv h buffer r)
  unfolding received disconnect Took
  received-Consumed srv h buffer s s' (t, done got) w l (v, m) = (v ∙ w, refl, omega arith)
  received-Consumed srv h buffer s s' (t, failed) w l v = (v ∙ w, inr refl)
  received-Consumed srv h buffer s s' (t, out_of_fuel) w l v = (v ∙ w, inr refl)

  check_header-Consumed :
      (srv : Server) (h : Header) (buffer : List ℕ) (s s' : S)
      → wire s' ≡ wire s
      → length (pending s') + header_size ≤ length (pending s)
      → Consumed srv s (check_header net srv h buffer s')
  unfolding check_header read_payload disconnect
  check_header-Consumed srv h buffer s s' w l =
      elim (Bool-cases (h.magic == sp_magic && h.version == sp_version)) [
        | inr bad ↦ rw bad (w, inr refl)
        | inl good ↦ rw good (elim (Bool-cases (h.payload_len == 0)) [
          | inl z ↦ rw z (w, refl, l)
          | inr z ↦
              rw z (
                received-Consumed srv h buffer s s' _ w l (recv_int-Took s' (as_int h.payload_len)))
        ])
      ]

  read_header-Consumed :
      (srv : Server) (buffer : List ℕ) (s : S) (r : S × Outcome (List ℕ))
      → Took s header_size r
      → Consumed srv s (read_header net srv buffer r)
  unfolding read_header disconnect Took
  read_header-Consumed srv buffer s (s', done bytes) (w, l) =
      check_header-Consumed srv (decode_header bytes) buffer s s' w l
  read_header-Consumed srv buffer s (s', failed) w = (w, inr refl)
  read_header-Consumed srv buffer s (s', out_of_fuel) w = (w, inr refl)

  pub read_frame-Consumed :
      (srv : Server) (buffer : List ℕ) (s : S) → Consumed srv s (read_frame net srv buffer s)
  unfolding read_frame
  read_frame-Consumed srv buffer s = elim (Bool-cases (srv.connected && net.readable s)) [
    | inl e ↦ rw e (read_header-Consumed srv buffer s _ (recv_exact-Took s header_size))
    | inr e ↦ rw e (refl, inl refl)
  ]
