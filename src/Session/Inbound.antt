-- ===== src/Session/Inbound.antt =====
-- The inbound loop of the main loop in host/src/main.cpp, `while (srv.ReadFrame(type, payload, 0))`, on the connection of
-- Net: which frames it reads. What the host does with them is `drain` of the parent.
use m_extender.Prelude.{
  ℕ, zero, suc, ◌<◌, ◌≡◌, ◌⊎◌, refl, ◌∙◌, true, false, Bool, Option, none, some, List, [], ◌∷◌,
  length, arith,
}
use m_extender.Net.{Sockets, Server, read_frame}
use m_extender.Net.Consumed.{Consumed, read_frame-Consumed}

-- Where the loop stands: `payload` is the vector that main passes to each call, `ended` says that
-- ReadFrame returned false.
pub record Reading (S : Type 0) : Type 0 where
  pub server : Server
  pub socket : S
  pub payload : List ℕ
  pub frames : List (ℕ × List ℕ)
  pub ended : Bool

module _ (net : Sockets) where
  open net use {S, pending, wire}

  -- After one ReadFrame: the loop ends, or goes on with `next`.
  unfoldable pub after_read :
      (Server × S) × Option (ℕ × List ℕ) → List ℕ → (Server → List ℕ → S → Reading S) → Reading S
  after_read ((srv, s), none) payload next = record {
    server = srv;
    socket = s;
    payload = payload;
    frames = [];
    ended = true;
  }
  after_read ((srv, s), some (type, bytes)) payload next =
      let r = next srv bytes s in record r { frames = (type, bytes) ∷ r.frames }

  unfoldable pub read_frames : ℕ → Server → List ℕ → S → Reading S
  unfolding after_read
  read_frames zero srv payload s = record {
    server = srv;
    socket = s;
    payload = payload;
    frames = [];
    ended = false;
  }
  read_frames (suc fuel) srv payload s =
      after_read (read_frame net srv payload s) payload (read_frames fuel)

  -- The loop, with a round for each byte that can still be received, and one more.
  unfoldable pub read_all : Server → List ℕ → S → Reading S
  read_all srv payload s = read_frames (suc (length (pending s))) srv payload s

  -- The loop came to its end; nothing was sent; the server is as it was, or disconnected.
  abbrev pub Inbound : Server → S → Reading S → Type 0
  Inbound srv s r =
      (r.ended ≡ true)
      × (wire r.socket ≡ wire s)
      × ((r.server ≡ srv) ⊎ (r.server.connected ≡ false))

  after_read-Inbound :
      (fuel : ℕ) (srv : Server) (payload : List ℕ) (s : S) (o : (Server × S) × Option (ℕ × List ℕ))
      → length (pending s) < suc fuel
      → Consumed net srv s o
      → ((srv' : Server) (bytes : List ℕ) (s' : S)
          → length (pending s') < fuel
          → Inbound srv' s' (read_frames fuel srv' bytes s'))
      → Inbound srv s (after_read o payload (read_frames fuel))
  unfolding after_read
  after_read-Inbound fuel srv payload s ((srv', s'), none) b c ih = (refl, c.0, c.1)
  after_read-Inbound fuel srv payload s ((srv', s'), some (type, bytes)) b (w, e, l) ih =
      let (ended, w', k) = ih srv' bytes s' (omega arith) in (ended, w' ∙ w, rw (← e) k)

  read_frames-Inbound :
      (fuel : ℕ) (srv : Server) (payload : List ℕ) (s : S)
      → length (pending s) < fuel
      → Inbound srv s (read_frames fuel srv payload s)
  unfolding read_frames
  read_frames-Inbound zero srv payload s b = absurd (omega arith)
  read_frames-Inbound (suc fuel) srv payload s b =
      after_read-Inbound fuel srv payload s _ b (read_frame-Consumed net srv payload s)
        (read_frames-Inbound fuel)

  -- Whatever the tablet has sent, the inbound loop ends, with ReadFrame returning false; it sends nothing; and it
  -- leaves the server as it was, or without a client.
  pub read_all_lem :
      (srv : Server) (payload : List ℕ) (s : S) → Inbound srv s (read_all srv payload s)
  unfolding read_all
  read_all_lem srv payload s =
      read_frames-Inbound (suc (length (pending s))) srv payload s (omega arith)
