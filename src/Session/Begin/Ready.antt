-- ===== src/Session/Begin/Ready.antt =====
-- What main of host/src/main.cpp has done when its loop starts, and what follows for the loop.
use m_extender.Prelude.{
  ℕ, ◌<◌, ◌^◌, ◌≡◌, refl, sym, ap, ◌∙◌, subst, Bool, true, false, not, ◌||◌, ◌==◌, Bool-cases, inl,
  inr, List, [], ◌++◌, Option, none, some, length, ltb, arith,
}
use m_extender.Prelude.Words.{u64}
use m_extender.Wire.Msg
use m_extender.Wire.{HandshakeAck, encode_ack, encode_header}
use m_extender.Launch.{Args, Build, resolve_monitor, choose_encoder}
use m_extender.Capture
use m_extender.Capture.{Capture}
use m_extender.Net
use m_extender.Net.{Sockets, Server, wait_for_client, read_frame, send_frame, frame_header}
use m_extender.Net.Consumed.{Consumed, read_frame-Consumed}
use m_extender.Net.Frames.{Delivered, send_frame_lem}
use m_extender.Adapt.{Doubles}
use m_extender.Session.{handshake, handshake_ack, handshake_size}
use m_extender.Session.Loop.Client.{next_seq, Tells, send_frame-Tells}
use m_extender.Session.Loop.Bounds.{Stepped}
use m_extender.Session.Begin.{
  ◌>>=◌, guard, Reports, Begun, succeeded, got, greet, begin, ack_size, started_encoder, new_server,
  new_capture,
}

-- Inversion of a chain that succeeded.
>>=-some {ℓ κ} :
    {A : Type ℓ} {B : Type κ} (m : Option A) (f : A → Option B) {b : B}
    → (m >>= f) ≡ some b
    → (a : A) × (m ≡ some a) × (f a ≡ some b)
>>=-some none f h = cc
>>=-some (some a) f h = (a, refl, h)

some_injective {ℓ} : {A : Type ℓ} {a b : A} → some a ≡ some b → a ≡ b
some_injective h = cc

wait_for_client-some :
    (l srv : Server) (client_ready accepts : Bool) (now_ns : ℕ)
    → succeeded (wait_for_client l client_ready accepts now_ns) ≡ some srv
    → srv ≡ record l { connected = true; seq = 0; ts0_ns = u64 now_ns }
unfolding wait_for_client
wait_for_client-some l srv true true now_ns h = ground arith
wait_for_client-some l srv true false now_ns h = cc
wait_for_client-some l srv false accepts now_ns h = cc

handshake-some :
    (w h : ℕ) (f : ℕ × List ℕ) (ack : HandshakeAck)
    → handshake w h (some f) ≡ some ack
    → ack ≡ handshake_ack w h
unfolding handshake
handshake-some w h (type, payload) ack e =
    elim (Bool-cases (not (type == Msg.handshake) || ltb (length payload) handshake_size)) [
      | inl bad ↦ let e' = rw bad at e in cc
      | inr good ↦ let e' = rw good at e in cc
    ]

-- The server that meets the client, before its first frame.
abbrev pub greeter : Reports → Server → Server
greeter r l = record l { connected = true; seq = 0; ts0_ns = u64 r.connect_ns }

module _ (net : Sockets) where
  open net use {S, wire}

  got-some :
      (srv : Server) (s : S) (o : (Server × S) × Option (ℕ × List ℕ)) (link : Server × S)
      (f : ℕ × List ℕ)
      → got net o ≡ some (link, f)
      → Consumed net srv s o
      → (link.0 ≡ srv) × (wire link.1 ≡ wire s)
  got-some srv s ((srv', s'), none) link f h c = cc
  got-some srv s ((srv', s'), some g) link f h (w, e, l) =
      let k : ◌≡◌ {A = (Server × S) × (ℕ × List ℕ)} ((srv', s'), g) (link, f) = cc in
      (ap (λ z. z.0.0) (sym k) ∙ e, ap (λ z. wire z.0.1) (sym k) ∙ w)

  acked-some :
      (srv : Server) (s : S) (o : (Server × S) × Bool) (link : Server × S) (bytes : List ℕ)
      → succeeded o ≡ some link
      → Tells net srv o
      → Delivered net o s bytes
      → (link.0 ≡ next_seq srv) × (wire link.1 ≡ wire s ++ bytes)
  acked-some srv s ((srv', s'), true) link bytes h e (inl (t, w)) =
      let k : ◌≡◌ {A = Server × S} (srv', s') link = cc in
      (ap (λ z. z.0) (sym k) ∙ e, ap (λ z. wire z.1) (sym k) ∙ w)
  acked-some srv s ((srv', s'), true) link bytes h e (inr (f, d)) = cc
  acked-some srv s ((srv', s'), false) link bytes h e d = cc

  -- The acknowledgement of a capture of w by h, as it is sent.
  abbrev pub acknowledgement : Reports → Server → ℕ → ℕ → List ℕ
  acknowledgement r srv w h =
      encode_header (frame_header srv Msg.handshake_ack ack_size r.ack_ns)
      ++ encode_ack (handshake_ack w h)

  -- The acknowledgement, sent.
  greeted :
      (r : Reports) (w h : ℕ) (s s1 : S) (g srv1 : Server) (ack : HandshakeAck)
      (acked link : Server × S)
      → srv1 ≡ g
      → g.connected ≡ true
      → wire s1 ≡ wire s
      → ack ≡ handshake_ack w h
      → succeeded (send_frame net srv1 Msg.handshake_ack (encode_ack ack) ack_size r.ack_ns s1)
        ≡ some acked
      → acked ≡ link
      → (link.0 ≡ next_seq g) × (wire link.1 ≡ wire s ++ acknowledgement r g w h)
  unfolding encode_ack
  greeted r w h s s1 g srv1 ack acked link p c v a e k =
      let header =
        λ (srv : Server). encode_header (frame_header srv Msg.handshake_ack ack_size r.ack_ns) in
      let small : ack_size < 2 ^ 31 = omega arith in
      let (n, o) =
        acked-some srv1 s1 _ acked (header srv1 ++ encode_ack ack) e
          (send_frame-Tells net srv1 Msg.handshake_ack (encode_ack ack) ack_size r.ack_ns s1)
          (send_frame_lem net srv1 Msg.handshake_ack (encode_ack ack) r.ack_ns s1
            (ap (λ z. z.connected) p ∙ c) small) in
      (
        ap (λ z. z.0) (sym k) ∙ n ∙ ap next_seq p,
        ap (λ z. wire z.1) (sym k)
            ∙ o
            ∙ ap (λ l. l ++ (header srv1 ++ encode_ack ack)) v
            ∙ ap (λ z. wire s ++ (header z ++ encode_ack ack)) p
            ∙ ap (λ z. wire s ++ (header g ++ encode_ack z)) a,
      )

  greet-some :
      (r : Reports) (w h : ℕ) (s : S) (l : Server) (link : Server × S) (payload : List ℕ)
      → greet net r w h s l ≡ some (link, payload)
      → (link.0 ≡ next_seq (greeter r l))
        × (wire link.1 ≡ wire s ++ acknowledgement r (greeter r l) w h)
  unfolding greet encode_ack
  greet-some r w h s l link payload e =
      let (srv, e1, f1) =
        >>=-some (succeeded (wait_for_client l r.client_ready r.accepts r.connect_ns)) _ e in
      let ((link1, f), e2, f2) = >>=-some (got net (read_frame net srv [] s)) _ f1 in
      let (ack, e3, f3) = >>=-some (handshake w h (some f)) _ f2 in
      let (acked, e4, f4) =
        >>=-some
          (succeeded
            (send_frame net link1.0 Msg.handshake_ack (encode_ack ack) ack_size r.ack_ns link1.1))
          _ f3 in
      let a = wait_for_client-some l srv r.client_ready r.accepts r.connect_ns e1 in
      let (b, w1) = got-some srv s _ link1 f e2 (read_frame-Consumed net srv [] s) in
      let c = handshake-some w h f ack e3 in
      greeted r w h s link1.1 (greeter r l) link1.0 ack acked link (b ∙ a) refl w1 c e4
        (ap (λ z. z.0) (some_injective f4))

-- The server that listens.
abbrev pub listening : Server
listening = record { listening = true; connected = false; seq = 0; ts0_ns = 0 }

start-some :
    (l : Server) (wsa socket binds listens : Bool)
    → succeeded (Net.start new_server wsa socket binds listens) ≡ some l
    → l ≡ listening
unfolding Net.start
start-some l true true true true h = cc
start-some l true true true false h = cc
start-some l true true false listens h = cc
start-some l true false binds listens h = cc
start-some l false socket binds listens h = cc

module _ (net : Sockets) (doubles : Doubles) where
  open net use {S, wire}
  open doubles use {D}

  -- What holds when the loop starts: a client that has been greeted, with one frame counted; the acknowledgement of the
  -- captured size on the wire; the native size and step, with a keyframe pending.
  pub record IsReady (r : Reports) (s : S) (b : Begun S D) : Type 0 where
    pub server : b.host.server ≡ next_seq (greeter r listening)
    pub acknowledged :
        wire b.host.socket
        ≡ wire s ++ acknowledgement net r (greeter r listening) b.config.cap_w b.config.cap_h
    pub pending : b.host.sizing.keyframe_pending ≡ true
    pub stepped : Stepped b.config.cap_w b.config.cap_h b.host.sizing

  -- When main comes to its loop, its state is the one that the loop expects.
  pub begin-IsReady :
      (build : Build) (args : Args) (r : Reports) (zero : D) (s : S) (b : Begun S D)
      → begin net doubles build args r zero s ≡ some b
      → IsReady r s b
  unfolding begin
  begin-IsReady build args r zero s b e =
      let (hmon, e1, f1) = >>=-some (resolve_monitor r.primary r.monitors args.monitor) _ e in
      let (cap, e2, f2) = >>=-some (succeeded (Capture.start hmon r.capture new_capture)) _ f1 in
      let encoder = choose_encoder build args r.starts in
      let (z, e3, f3) = >>=-some (guard (started_encoder encoder cap.width cap.height)) _ f2 in
      let (l, e4, f4) =
        >>=-some (succeeded (Net.start new_server r.wsa r.opens r.binds r.listens)) _ f3 in
      let ((link, payload), e5, f5) = >>=-some (greet net r cap.width cap.height s l) _ f4 in
      let (n, w) = greet-some net r cap.width cap.height s l link payload e5 in
      let k = start-some l r.wsa r.opens r.binds r.listens e4 in
      subst (IsReady r s) (some_injective f5) record {
        server = n ∙ ap (λ z. next_seq (greeter r z)) k;
        acknowledged =
            w ∙ ap (λ z. wire s ++ acknowledgement net r (greeter r z) cap.width cap.height) k;
        pending = refl;
        stepped = record { in_table = omega arith; of_step = inl (refl, refl) };
      }
