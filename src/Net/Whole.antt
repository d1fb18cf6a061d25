-- ===== src/Net/Whole.antt =====
-- What a frame that ReadFrame of host/src/net/server.cpp returns has taken from the stream, on every branch.
use m_extender.Prelude.{
  ℕ, ◌≤◌, ◌<◌, ◌^◌, ◌≡◌, ◌⊎◌, refl, sym, ap, ◌∙◌, false, Option, none, some, List, [], ◌++◌, length,
  drop, ltb, ◌==◌, ◌&&◌, arith, append-nil, drop-length, Bool-cases, inl, inr,
}
use m_extender.Wire.{header_size, decode_header, sp_magic, sp_version}
use m_extender.Net.{
  Sockets, Server, Outcome, done, failed, out_of_fuel, resize, read_frame, read_header,
  check_header, read_payload, received, disconnect,
}
use m_extender.Net.Exact.{Received, recv_exact_lem}
use m_extender.Net.Frames.{length-resize, as_int_small, read_payload_negative}

-- The payload for a length field n, of which `body` was taken from the stream: the body itself, of n bytes, or for a
-- length that is a negative int nothing of the stream, but n bytes of the buffer and zeros.
abbrev pub PayloadOf : List ℕ → ℕ → List ℕ → List ℕ → Type 0
PayloadOf buffer n body payload =
    ((n < 2 ^ 31) × (payload ≡ body) × (length body ≡ n))
    ⊎ ((2 ^ 31 ≤ n) × (payload ≡ resize buffer n) × (body ≡ []))

-- A header that is accepted.
pub record IsHeader (head : List ℕ) : Type 0 where
  pub size : length head ≡ header_size
  pub magic : (decode_header head).magic ≡ sp_magic
  pub version : (decode_header head).version ≡ sp_version

module _ (net : Sockets) where
  open net use {S, pending}

  -- From s to s' the stream has lost just one frame, of this type and this payload.
  pub record Took (buffer : List ℕ) (s s' : S) (type : ℕ) (payload : List ℕ) : Type 0 where
    pub head : List ℕ
    pub body : List ℕ
    pub header : IsHeader head
    pub taken : pending s ≡ head ++ (body ++ pending s')
    pub type_field : type ≡ (decode_header head).type
    pub payload_of : PayloadOf buffer (decode_header head).payload_len body payload

  -- How ReadFrame may come back. Without a frame, nothing has changed, or the client is disconnected.
  abbrev pub ReadResult : List ℕ → Server → S → (Server × S) × Option (ℕ × List ℕ) → Type 0
  ReadResult buffer srv s ((srv', s'), none) = ((srv' ≡ srv) × (s' ≡ s)) ⊎ (srv'.connected ≡ false)
  ReadResult buffer srv s ((srv', s'), some (type, payload)) =
      (srv' ≡ srv) × Took buffer s s' type payload

  received-ReadResult :
      (srv : Server) (head buffer : List ℕ) (s s1 : S) (r : S × Outcome (List ℕ))
      → IsHeader head
      → pending s ≡ head ++ pending s1
      → (decode_header head).payload_len < 2 ^ 31
      → Received net [] (decode_header head).payload_len s1 r
      → ReadResult buffer srv s (received net srv (decode_header head) buffer r)
  unfolding received disconnect
  received-ReadResult srv head buffer s s1 (s', done got) i e b (l, t) =
      let n = (decode_header head).payload_len in
      let k : length got ≡ n = omega (arith, l) in
      let m : length got ≡ length (resize buffer n) = k ∙ sym (length-resize buffer n) in
      (
        refl,
        record {
          head = head;
          body = got;
          header = i;
          taken = e ∙ ap (λ j. head ++ j) (sym t);
          type_field = refl;
          payload_of = inl (
            b,
            ap (λ j. got ++ drop j (resize buffer n)) m
                ∙ ap (λ j. got ++ j) (drop-length (resize buffer n))
                ∙ append-nil got,
            k,
          );
        },
      )
  received-ReadResult srv head buffer s s1 (s', failed) i e b h = inr refl
  received-ReadResult srv head buffer s s1 (s', out_of_fuel) i e b h = inr refl

  -- A payload that is empty or that cannot be, of which nothing is taken.
  none_taken :
      (srv : Server) (head buffer payload : List ℕ) (s s1 : S)
      → IsHeader head
      → pending s ≡ head ++ pending s1
      → PayloadOf buffer (decode_header head).payload_len [] payload
      → ReadResult buffer srv s ((srv, s1), some ((decode_header head).type, payload))
  none_taken srv head buffer payload s s1 i e p = (
    refl,
    record { head = head; body = []; header = i; taken = e; type_field = refl; payload_of = p },
  )

  read_payload-ReadResult :
      (srv : Server) (head buffer : List ℕ) (s s1 : S)
      → IsHeader head
      → pending s ≡ head ++ pending s1
      → ReadResult buffer srv s (read_payload net srv (decode_header head) buffer s1)
  read_payload-ReadResult srv head buffer s s1 i e =
      let h = decode_header head in
      elim (Bool-cases (ltb h.payload_len (2 ^ 31))) [
        | inr big ↦
            let b : 2 ^ 31 ≤ h.payload_len = ground (arith, big) in
            rw (read_payload_negative net srv h buffer s1 b) (
              none_taken srv head buffer (resize buffer h.payload_len) s s1 i e
                (inr (b, refl, refl)))
        | inl small ↦
            let b : h.payload_len < 2 ^ 31 = ground (arith, small) in
            unfold read_payload in
            elim (Bool-cases (h.payload_len == 0)) [
              | inl z ↦
                  rw z (none_taken srv head buffer [] s s1 i e (inl (b, refl, ground (arith, z))))
              | inr z ↦
                  rw (z, as_int_small h.payload_len b)
                    (received-ReadResult srv head buffer s s1 _ i e b
                      (recv_exact_lem net h.payload_len s1))
            ]
      ]

  read_header-ReadResult :
      (srv : Server) (buffer : List ℕ) (s : S) (r : S × Outcome (List ℕ))
      → Received net [] header_size s r
      → ReadResult buffer srv s (read_header net srv buffer r)
  unfolding read_header check_header disconnect
  read_header-ReadResult srv buffer s (s', done bytes) (l, t) =
      let h = decode_header bytes in
      elim (Bool-cases (h.magic == sp_magic && h.version == sp_version)) [
        | inr bad ↦ rw bad (inr refl)
        | inl good ↦
            let i : IsHeader bytes = record {
              size = l;
              magic = ground (arith, good);
              version = ground (arith, good);
            } in
            rw good (read_payload-ReadResult srv bytes buffer s s' i (sym t))
      ]
  read_header-ReadResult srv buffer s (s', failed) h = inr refl
  read_header-ReadResult srv buffer s (s', out_of_fuel) h = inr refl

  -- ReadFrame on every branch. If it returns a frame, the server is as before, and the stream has lost exactly a header
  -- with the right magic and version, whose type is the one returned, and, when its length is below 2 GiB, exactly the
  -- payload that is returned, of that length; with a length of 2 GiB or more nothing of the payload is taken,
  -- and what is returned has that length but comes from the buffer and zeros. If it returns no frame, neither the
  -- server nor the socket has changed, or the client is disconnected.
  pub read_frame-ReadResult :
      (srv : Server) (buffer : List ℕ) (s : S)
      → ReadResult buffer srv s (read_frame net srv buffer s)
  unfolding read_frame
  read_frame-ReadResult srv buffer s = elim (Bool-cases (srv.connected && net.readable s)) [
    | inl go ↦ rw go (read_header-ReadResult srv buffer s _ (recv_exact_lem net header_size s))
    | inr idle ↦ rw idle (inl (refl, refl))
  ]
